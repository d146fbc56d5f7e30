-- ===== src/InMemory/Parse.antt =====
-- The rows of an insertion and the assignments of an update, checked and read
-- (providers/inmemory/mutation.go).
use kubling_providers.Base.{
  ℤ, pos, Bool, true, false, not, List, [], ◌∷◌, Option, none, some, Bytes, codes, bytes_beq,
  Result, ok, err, ◌>>=◌, ◌>>◌, reject_if, length, nat_beq, if◌then◌else◌,
}
use kubling_providers.Messages.{Field}
use kubling_providers.InMemory.Values.{
  Value, string_value, boolean_value, integer_value, clob_value, float_value, timestamp_value,
  is_null,
}
use kubling_providers.InMemory.Expressions.{Expression, nil_expression}
use kubling_providers.InMemory.Model.{Task, EntityField, task_fields, equal_name, field_by_name}

pub data ParseFault : Type 0 where
  rows_required field_name_required unknown_field duplicate_field : ParseFault
  tuple_required tuple_length title_required : ParseFault
  string_expected boolean_expected integer_expected : ParseFault
  clob_expected float_expected timestamp_expected : ParseFault
  assignment_required id_assigned value_required null_refused not_assignable : ParseFault

pub record InsertRows : Type 0 where
  pub fields : List (Option Field)
  pub tuples : List (Option (List Value))

-- an assignment; its value may be nil
pub record Assignment : Type 0 where
  pub field : Bytes
  pub value : Expression

unfoldable pub string_from_value : Value → Result ParseFault Bytes
string_from_value (string_value s) = ok s
string_from_value _ = err string_expected

unfoldable pub boolean_from_value : Value → Result ParseFault Bool
boolean_from_value (boolean_value b) = ok b
boolean_from_value _ = err boolean_expected

unfoldable pub integer_from_value : Value → Result ParseFault ℤ
integer_from_value (integer_value n) = ok n
integer_from_value _ = err integer_expected

unfoldable pub clob_from_value : Value → Result ParseFault Bytes
clob_from_value (clob_value (some s)) = ok s
clob_from_value _ = err clob_expected

unfoldable pub float_from_value : Value → Result ParseFault Bytes
float_from_value (float_value s) = ok s
float_from_value _ = err float_expected

unfoldable pub timestamp_from_value : Value → Result ParseFault Bytes
timestamp_from_value (timestamp_value s) = ok s
timestamp_from_value _ = err timestamp_expected

-- taskFieldByName
unfoldable pub task_field_by_name : Bytes → Option EntityField
unfolding field_by_name
task_field_by_name name = field_by_name task_fields name

unfoldable pub listed : Bytes → List Bytes → Bool
listed name [] = false
listed name (n ∷ ns) = if bytes_beq n name then true else listed name ns

-- The names of the fields that the rows give, in the spelling of the entity; `seen` are those before.
unfoldable pub field_names : List Bytes → List (Option Field) → Result ParseFault (List Bytes)
unfolding task_field_by_name listed
field_names seen [] = ok []
field_names seen (none ∷ fs) = err field_name_required
field_names seen (some f ∷ fs) =
    reject_if (bytes_beq f.name []) field_name_required >> elim (task_field_by_name f.name) [
      | none ↦ err unknown_field
      | some field ↦
          reject_if (listed field.name seen) duplicate_field
          >> field_names (field.name ∷ seen) fs
          >>= λ names. ok (field.name ∷ names)
    ]

abbrev pub parsed : {A : Type 0} → Result ParseFault A → (A → Task) → Result ParseFault Task
parsed (ok a) update = ok (update a)
parsed (err e) update = err e

-- a field that may be null
abbrev optional :
    Value → (Value → Result ParseFault Bytes) → (Option Bytes → Task) → Result ParseFault Task
optional v parse update = elim (is_null v) [
  | true ↦ ok (update none)
  | false ↦ parsed (parse v) (λ s. update (some s))
]

-- one value of a tuple, put into the row; a null identifier is passed over
unfoldable pub set_value : Bytes → Value → Task → Result ParseFault Task
unfolding is_null string_from_value boolean_from_value integer_from_value clob_from_value
    float_from_value timestamp_from_value
set_value name v row =
    if bytes_beq name (codes "id")
    then elim (is_null v) [
      | true ↦ ok row
      | false ↦ parsed (string_from_value v) (λ s. record row { id = s })
    ]
    else if bytes_beq name (codes "project_id")
    then parsed (string_from_value v) (λ s. record row { project_id = s })
    else if bytes_beq name (codes "title")
    then parsed (string_from_value v) (λ s. record row { title = s })
    else if bytes_beq name (codes "description")
    then optional v clob_from_value (λ s. record row { description = s })
    else if bytes_beq name (codes "completed")
    then parsed (boolean_from_value v) (λ b. record row { completed = b })
    else if bytes_beq name (codes "priority")
    then parsed (integer_from_value v) (λ n. record row { priority = n })
    else if bytes_beq name (codes "estimate_hours")
    then optional v float_from_value (λ s. record row { estimate_hours = s })
    else if bytes_beq name (codes "due_at")
    then optional v timestamp_from_value (λ s. record row { due_at = s })
    else ok row

-- the values of one tuple, of the same number as the names
unfoldable pub set_values : List Bytes → List Value → Task → Result ParseFault Task
unfolding set_value
set_values (name ∷ names) (v ∷ vs) row = set_value name v row >>= λ next. set_values names vs next
set_values _ _ row = ok row

abbrev pub empty_draft : Task
empty_draft = record {
  id = [];
  project_id = codes "project-1";
  title = [];
  description = none;
  completed = false;
  priority = pos 0;
  estimate_hours = none;
  due_at = none;
}

unfoldable pub parse_tuple : List Bytes → Option (List Value) → Result ParseFault Task
unfolding set_values listed
parse_tuple names none = err tuple_required
parse_tuple names (some vs) =
    reject_if (not (nat_beq (length vs) (length names))) tuple_length
    >> set_values names vs empty_draft
    >>= λ row. reject_if (not (listed (codes "title") names)) title_required >> ok row

unfoldable pub parse_tuples :
    List Bytes → List (Option (List Value)) → Result ParseFault (List Task)
unfolding parse_tuple
parse_tuples names [] = ok []
parse_tuples names (t ∷ ts) =
    parse_tuple names t >>= λ row. parse_tuples names ts >>= λ rows. ok (row ∷ rows)

-- parseInsertRows
unfoldable pub parse_insert_rows : Option InsertRows → Result ParseFault (List Task)
unfolding field_names parse_tuples
parse_insert_rows none = err rows_required
parse_insert_rows (some rows) =
    field_names [] rows.fields >>= λ names. parse_tuples names rows.tuples

-- resolveTaskFields
unfoldable pub resolve_task_fields : List Bytes → Result ParseFault (List EntityField)
unfolding task_field_by_name
resolve_task_fields [] = ok []
resolve_task_fields (name ∷ names) = elim (task_field_by_name name) [
  | none ↦ err unknown_field
  | some field ↦ resolve_task_fields names >>= λ fields. ok (field ∷ fields)
]

abbrev pub is_nil : Expression → Bool
is_nil nil_expression = true
is_nil _ = false

unfoldable pub check_assignments :
    List Bytes → List (Option Assignment) → Result ParseFault (List Assignment)
unfolding task_field_by_name listed
check_assignments seen [] = ok []
check_assignments seen (none ∷ rest) = err assignment_required
check_assignments seen (some a ∷ rest) =
    reject_if (bytes_beq a.field []) assignment_required >> elim (task_field_by_name a.field) [
      | none ↦ err unknown_field
      | some field ↦
          reject_if (bytes_beq field.name (codes "id")) id_assigned
          >> reject_if (is_nil a.value) value_required
          >> reject_if (listed field.name seen) duplicate_field
          >> check_assignments (field.name ∷ seen) rest
          >>= λ checked. ok (a ∷ checked)
    ]

-- validateAssignments
unfoldable pub validate_assignments : List (Option Assignment) → Result ParseFault (List Assignment)
unfolding check_assignments
validate_assignments [] = err assignment_required
validate_assignments (a ∷ rest) = check_assignments [] (a ∷ rest)

unfoldable pub assign_null : Bytes → Task → Result ParseFault Task
unfolding equal_name
assign_null name row =
    if equal_name name (codes "description")
    then ok (record row { description = none })
    else if equal_name name (codes "estimate_hours")
    then ok (record row { estimate_hours = none })
    else if equal_name name (codes "due_at")
    then ok (record row { due_at = none })
    else err null_refused

unfoldable pub assign_some : Bytes → Value → Task → Result ParseFault Task
unfolding equal_name string_from_value boolean_from_value integer_from_value clob_from_value
    float_from_value timestamp_from_value
assign_some name v row =
    if equal_name name (codes "project_id")
    then parsed (string_from_value v) (λ s. record row { project_id = s })
    else if equal_name name (codes "title")
    then parsed (string_from_value v) (λ s. record row { title = s })
    else if equal_name name (codes "description")
    then parsed (clob_from_value v) (λ s. record row { description = some s })
    else if equal_name name (codes "completed")
    then parsed (boolean_from_value v) (λ b. record row { completed = b })
    else if equal_name name (codes "priority")
    then parsed (integer_from_value v) (λ n. record row { priority = n })
    else if equal_name name (codes "estimate_hours")
    then parsed (float_from_value v) (λ s. record row { estimate_hours = some s })
    else if equal_name name (codes "due_at")
    then parsed (timestamp_from_value v) (λ s. record row { due_at = some s })
    else err not_assignable

-- assignTaskValue
unfoldable pub assign_task_value : Bytes → Value → Task → Result ParseFault Task
unfolding is_null assign_null assign_some
assign_task_value name v row = elim (is_null v) [
  | true ↦ assign_null name row
  | false ↦ assign_some name v row
]
