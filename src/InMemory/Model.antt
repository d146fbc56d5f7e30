-- ===== src/InMemory/Model.antt =====
-- The store of the provider, and its entities (providers/inmemory/model.go).
use kubling_providers.Base.{
  ℕ, ℤ, Bool, true, false, not, ◌||◌, List, [], ◌∷◌, Option, none, some, Bytes, codes, bytes_beq,
  bytes_eq, to_lower, Map, lookup, Result, ok, err, ◌>>=◌, if◌then◌else◌,
}
use kubling_providers.Messages.{
  ValueType, string, varbinary, char, boolean, byte, short, integer, long, biginteger, float,
  double, bigdecimal, date, time, timestamp, blob, clob, xml, geometry, geography, json, array,
  TypeDescriptor, plain, of_element, EntityReference,
}
use kubling_providers.InMemory.Values.{
  Value, null_value, string_value, clob_value, boolean_value, integer_value, float_value,
  timestamp_value,
}

-- The status of an error that the provider returns; `interrupted` is an error of the call's context.
pub data Refusal : Type 0 where
  invalid_argument not_found failed_precondition already_exists : Refusal
  resource_exhausted internal unimplemented : Refusal
  interrupted : ℕ → Refusal

pub record Task : Type 0 where
  pub id : Bytes
  pub project_id : Bytes
  pub title : Bytes
  pub description : Option Bytes
  pub completed : Bool
  pub priority : ℤ
  pub estimate_hours : Option Bytes
  pub due_at : Option Bytes

pub record EntityRow : Type 0 where
  pub key : Bytes
  pub values : Map Bytes Value

pub record Store : Type 0 where
  pub tasks : Map Bytes Task
  pub entities : Map Bytes (List EntityRow)
  pub next_id : ℕ

pub record EntityField : Type 0 where
  pub name : Bytes
  pub value_type : ValueType
  pub type_descriptor : Option TypeDescriptor

pub record EntityDefinition : Type 0 where
  pub name : Bytes
  pub fields : List EntityField
  pub mutable : Bool

abbrev pub project_entity_name : Bytes
project_entity_name = codes "PROJECT"

abbrev pub task_entity_name : Bytes
task_entity_name = codes "TASK"

abbrev pub audit_event_entity_name : Bytes
audit_event_entity_name = codes "AUDIT_EVENT"

abbrev pub type_sample_entity_name : Bytes
type_sample_entity_name = codes "TYPE_SAMPLE"

abbrev plain_field : Bytes → ValueType → EntityField
plain_field name t = record { name = name; value_type = t; type_descriptor = none }

abbrev pub project_fields : List EntityField
project_fields =
    plain_field (codes "id") string
    ∷ plain_field (codes "name") string
    ∷ plain_field (codes "status") char
    ∷ plain_field (codes "active") boolean
    ∷ plain_field (codes "budget") bigdecimal
    ∷ plain_field (codes "started_on") date
    ∷ plain_field (codes "metadata") json
    ∷ []

abbrev pub task_fields : List EntityField
task_fields =
    plain_field (codes "id") string
    ∷ plain_field (codes "project_id") string
    ∷ plain_field (codes "title") string
    ∷ plain_field (codes "description") clob
    ∷ plain_field (codes "completed") boolean
    ∷ plain_field (codes "priority") integer
    ∷ plain_field (codes "estimate_hours") float
    ∷ plain_field (codes "due_at") timestamp
    ∷ []

abbrev pub audit_event_fields : List EntityField
audit_event_fields =
    plain_field (codes "id") long
    ∷ plain_field (codes "entity_type") string
    ∷ plain_field (codes "entity_id") string
    ∷ plain_field (codes "action") char
    ∷ plain_field (codes "sequence") short
    ∷ plain_field (codes "risk_score") double
    ∷ plain_field (codes "occurred_at") timestamp
    ∷ plain_field (codes "source_address") varbinary
    ∷ plain_field (codes "payload") json
    ∷ plain_field (codes "raw_payload") blob
    ∷ []

abbrev pub type_sample_fields : List EntityField
type_sample_fields =
    plain_field (codes "sample_id") string
    ∷ plain_field (codes "string_value") string
    ∷ plain_field (codes "varbinary_value") varbinary
    ∷ plain_field (codes "char_value") char
    ∷ plain_field (codes "boolean_value") boolean
    ∷ plain_field (codes "byte_value") byte
    ∷ plain_field (codes "short_value") short
    ∷ plain_field (codes "integer_value") integer
    ∷ record {
      name = codes "integer_array_value";
      value_type = array;
      type_descriptor = some (of_element array (plain integer none none) none none);
    }
    ∷ plain_field (codes "long_value") long
    ∷ plain_field (codes "biginteger_value") biginteger
    ∷ plain_field (codes "float_value") float
    ∷ plain_field (codes "double_value") double
    ∷ plain_field (codes "bigdecimal_value") bigdecimal
    ∷ plain_field (codes "date_value") date
    ∷ plain_field (codes "time_value") time
    ∷ plain_field (codes "timestamp_value") timestamp
    ∷ plain_field (codes "blob_value") blob
    ∷ plain_field (codes "clob_value") clob
    ∷ plain_field (codes "geometry_value") geometry
    ∷ plain_field (codes "geography_value") geography
    ∷ plain_field (codes "json_value") json
    ∷ plain_field (codes "xml_value") xml
    ∷ []

abbrev entity : Bytes → List EntityField → Bool → EntityDefinition
entity name fields mutable = record { name = name; fields = fields; mutable = mutable }

unfoldable pub entity_definitions : List EntityDefinition
entity_definitions =
    entity project_entity_name project_fields false
    ∷ entity task_entity_name task_fields true
    ∷ entity audit_event_entity_name audit_event_fields false
    ∷ entity type_sample_entity_name type_sample_fields false
    ∷ []

-- equalName, on ASCII text
unfoldable pub equal_name : Bytes → Bytes → Bool
unfolding to_lower
equal_name left right = bytes_beq (to_lower left) (to_lower right)

unfoldable pub find_entity : Bytes → List EntityDefinition → Result Refusal EntityDefinition
unfolding equal_name
find_entity name [] = err not_found
find_entity name (d ∷ ds) = if equal_name d.name name then ok d else find_entity name ds

-- resolveEntity
unfoldable pub resolve_entity : Option EntityReference → Result Refusal EntityDefinition
unfolding find_entity entity_definitions
resolve_entity none = err invalid_argument
resolve_entity (some reference) =
    if bytes_beq reference.entity_name []
    then err invalid_argument
    else find_entity reference.entity_name entity_definitions

-- validateMutableTaskEntity
unfoldable pub validate_mutable_task_entity : Option EntityReference → Result Refusal (Unit {0})
unfolding resolve_entity equal_name
validate_mutable_task_entity reference = resolve_entity reference >>= λ d.
    if not d.mutable || not (equal_name d.name task_entity_name)
    then err failed_precondition
    else ok tt

-- fieldByName
unfoldable pub field_by_name : List EntityField → Bytes → Option EntityField
unfolding equal_name
field_by_name [] name = none
field_by_name (f ∷ fs) name = if equal_name f.name name then some f else field_by_name fs name

unfoldable pub lower_names : List (Bytes × Value) → Map Bytes Value
unfolding to_lower
lower_names [] = []
lower_names ((name, value) ∷ values) = (to_lower name, value) ∷ lower_names values

-- newEntityRow
unfoldable pub new_entity_row : Bytes → List (Bytes × Value) → EntityRow
unfolding lower_names
new_entity_row key values = record { key = key; values = lower_names values }

abbrev pub value_or_null : Option Bytes → (Bytes → Value) → Value
value_or_null none f = null_value
value_or_null (some s) f = f s

-- taskRow
unfoldable pub task_row : Task → EntityRow
unfolding new_entity_row
task_row t = new_entity_row t.id (
    (codes "id", string_value t.id)
    ∷ (codes "project_id", string_value t.project_id)
    ∷ (codes "title", string_value t.title)
    ∷ (codes "description", value_or_null t.description (λ s. clob_value (some s)))
    ∷ (codes "completed", boolean_value t.completed)
    ∷ (codes "priority", integer_value t.priority)
    ∷ (codes "estimate_hours", value_or_null t.estimate_hours float_value)
    ∷ (codes "due_at", value_or_null t.due_at timestamp_value)
    ∷ [])

unfoldable pub task_rows : Map Bytes Task → List EntityRow
unfolding task_row
task_rows [] = []
task_rows ((id, t) ∷ tasks) = task_row t ∷ task_rows tasks

-- snapshot
unfoldable pub snapshot : Store → EntityDefinition → List EntityRow
unfolding task_rows equal_name
snapshot store definition =
    if equal_name definition.name task_entity_name
    then task_rows store.tasks
    else elim (lookup definition.name store.entities) [ none ↦ [] | some rows ↦ rows ]

-- rowValue
unfoldable pub row_value : EntityRow → Bytes → Option Value
unfolding to_lower
row_value row name = lookup (to_lower name) row.values
