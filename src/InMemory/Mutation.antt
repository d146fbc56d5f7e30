-- ===== src/InMemory/Mutation.antt =====
-- Insert, Update and Delete (providers/inmemory/mutation.go). A call gives its result and the store that
-- it leaves. The context's error at each place where the code asks for it is an argument.
pub mod Stored
pub mod Inserted
pub mod Answered
pub mod Typed
pub mod Assigned
pub mod Revised
pub mod Changed
pub mod Updated
pub mod Deleted
use kubling_providers.Base.{
  ℕ, suc, Bool, true, false, List, [], ◌∷◌, Option, none, some, Bytes, Map, insert, delete, Result,
  ok, err, ◌>>=◌, ◌>>◌, reject_if, length, bytes_eq,
}
use kubling_providers.Messages.{Field, EntityReference}
use kubling_providers.InMemory.Values.{Value}
use kubling_providers.InMemory.Expressions.{Expression}
use kubling_providers.InMemory.Model.{
  Refusal, invalid_argument, failed_precondition, internal, interrupted, Task, EntityRow, Store,
  EntityField, validate_mutable_task_entity, task_row, row_value,
}
use kubling_providers.InMemory.Evaluate.{EvaluationFault, evaluate_expression, evaluate_filter}
use kubling_providers.InMemory.Evaluate.Aggregates.{Library}
use kubling_providers.InMemory.Parse.{
  ParseFault, InsertRows, Assignment, parse_insert_rows, resolve_task_fields, validate_assignments,
  assign_task_value,
}
use kubling_providers.InMemory.Identifiers.{prepare_inserted_tasks}

pub record InsertRequest : Type 0 where
  pub entity : Option EntityReference
  pub rows : Option InsertRows
  pub returning_fields : List Bytes

pub record UpdateRequest : Type 0 where
  pub entity : Option EntityReference
  pub filter : Expression
  pub assignments : List (Option Assignment)

pub record DeleteRequest : Type 0 where
  pub entity : Option EntityReference
  pub filter : Expression

-- the fields of a batch of generated values, and its tuples
pub record InsertResponse : Type 0 where
  pub affected_rows : ℕ
  pub generated_values : Option (List Field × List (List Value))

-- every error of these parts is returned as an invalid argument
abbrev pub argument : {F A : Type 0} → Result F A → Result Refusal A
argument (ok a) = ok a
argument (err e) = err invalid_argument

abbrev pub context_error : Option ℕ → Result Refusal (Unit {0})
context_error none = ok tt
context_error (some e) = err (interrupted e)

-- lockOpen
abbrev pub lock_open : Bool → Result Refusal (Unit {0})
lock_open closed = reject_if closed failed_precondition

-- taskTuple
unfoldable pub task_tuple : EntityRow → List EntityField → Result Refusal (List Value)
unfolding row_value
task_tuple row [] = ok []
task_tuple row (f ∷ fs) = elim (row_value row f.name) [
  | none ↦ err internal
  | some v ↦ task_tuple row fs >>= λ vs. ok (v ∷ vs)
]

unfoldable pub task_tuples : List Task → List EntityField → Result Refusal (List (List Value))
unfolding task_tuple task_row
task_tuples [] fields = ok []
task_tuples (t ∷ ts) fields =
    task_tuple (task_row t) fields >>= λ vs. task_tuples ts fields >>= λ tuples. ok (vs ∷ tuples)

-- providerFields
unfoldable pub provider_fields : List EntityField → List Field
provider_fields [] = []
provider_fields (f ∷ fs) =
    record { name = f.name; field_type = f.value_type; type_descriptor = none } ∷ provider_fields fs

-- the response to an insertion of these tasks
unfoldable pub respond : List Task → List EntityField → Result Refusal InsertResponse
unfolding task_tuples provider_fields
respond inserted [] = ok (record { affected_rows = length inserted; generated_values = none })
respond inserted (f ∷ fs) = task_tuples inserted (f ∷ fs) >>= λ tuples. ok (record {
  affected_rows = length inserted;
  generated_values = some (provider_fields (f ∷ fs), tuples);
})

-- the checks of an insertion before it takes the store's lock
unfoldable pub check_insert :
    Bool → Option ℕ → InsertRequest → Result Refusal (List Task × List EntityField)
unfolding validate_mutable_task_entity parse_insert_rows resolve_task_fields
check_insert closed context request =
    lock_open closed
    >> validate_mutable_task_entity request.entity
    >> argument (parse_insert_rows request.rows)
    >>= λ drafts. argument (resolve_task_fields request.returning_fields) >>= λ fields.
        context_error context >> ok (drafts, fields)

unfoldable pub put_tasks : List Task → Map Bytes Task → Map Bytes Task
unfolding insert
put_tasks [] tasks = tasks
put_tasks (t ∷ ts) tasks = put_tasks ts (insert t.id t tasks)

-- Insert; nothing where it does not return.
unfoldable pub insert_rows :
    Bool → Option ℕ → Store → InsertRequest → Option (Result Refusal InsertResponse × Store)
unfolding check_insert prepare_inserted_tasks put_tasks respond
insert_rows closed context store request = elim (check_insert closed context request) [
  | err e ↦ some (err e, store)
  | ok (drafts, fields) ↦ elim (prepare_inserted_tasks store.tasks [] store.next_id drafts) [
    | none ↦ none
    | some (err e) ↦ some (err e, store)
    | some (ok (rows, next)) ↦
        some
          (respond rows fields, record store { tasks = put_tasks rows store.tasks; next_id = next })
  ]
]

module _ (lib : Library) where
  -- the assignments, each evaluated on the row as it was
  unfoldable pub apply_assignments : Task → Task → List Assignment → Result Refusal Task
  unfolding evaluate_expression assign_task_value
  apply_assignments row next [] = ok next
  apply_assignments row next (a ∷ rest) =
      argument (evaluate_expression lib (task_row row) a.value) >>= λ v.
      argument (assign_task_value a.field v next) >>= λ after. apply_assignments row after rest

  -- the tasks that the filter selects, as they become; the context is asked before each row
  unfoldable pub update_rows :
      (ℕ → Option ℕ)
      → Expression
      → List Assignment
      → Map Bytes Task
      → Result Refusal (Map Bytes Task)
  unfolding evaluate_filter task_row apply_assignments
  update_rows context filter assignments [] = ok []
  update_rows context filter assignments ((id, row) ∷ tasks) =
      context_error (context 0)
      >> argument (evaluate_filter lib (task_row row) filter)
      >>= λ matches. elim matches [
        | false ↦ update_rows (λ n. context (suc n)) filter assignments tasks
        | true ↦ apply_assignments row row assignments >>= λ next.
            update_rows (λ n. context (suc n)) filter assignments tasks >>= λ updated.
            ok ((id, next) ∷ updated)
      ]

  -- the identifiers of the tasks that the filter selects
  unfoldable pub deleted_ids :
      (ℕ → Option ℕ) → Expression → Map Bytes Task → Result Refusal (List Bytes)
  unfolding evaluate_filter task_row
  deleted_ids context filter [] = ok []
  deleted_ids context filter ((id, row) ∷ tasks) =
      context_error (context 0)
      >> argument (evaluate_filter lib (task_row row) filter)
      >>= λ matches. elim matches [
        | false ↦ deleted_ids (λ n. context (suc n)) filter tasks
        | true ↦ deleted_ids (λ n. context (suc n)) filter tasks >>= λ ids. ok (id ∷ ids)
      ]

unfoldable pub put_all : Map Bytes Task → Map Bytes Task → Map Bytes Task
unfolding insert
put_all [] tasks = tasks
put_all ((id, row) ∷ updated) tasks = put_all updated (insert id row tasks)

unfoldable pub delete_all : List Bytes → Map Bytes Task → Map Bytes Task
unfolding delete
delete_all [] tasks = tasks
delete_all (id ∷ ids) tasks = delete_all ids (delete id tasks)

-- Update: the number of tasks that it changed
unfoldable pub update_tasks :
    Library → Bool → (ℕ → Option ℕ) → Store → UpdateRequest → Result Refusal ℕ × Store
unfolding validate_mutable_task_entity validate_assignments update_rows put_all
update_tasks lib closed context store request =
    elim (lock_open closed
      >> validate_mutable_task_entity request.entity
      >> argument (validate_assignments request.assignments)
      >>= λ assignments. update_rows lib context request.filter assignments store.tasks) [
        | err e ↦ (err e, store)
        | ok updated ↦ (ok (length updated), record store { tasks = put_all updated store.tasks })
      ]

-- Delete: the number of tasks that it removed
unfoldable pub delete_tasks :
    Library → Bool → (ℕ → Option ℕ) → Store → DeleteRequest → Result Refusal ℕ × Store
unfolding validate_mutable_task_entity deleted_ids delete_all
delete_tasks lib closed context store request =
    elim (lock_open closed
      >> validate_mutable_task_entity request.entity
      >> deleted_ids lib context request.filter store.tasks) [
        | err e ↦ (err e, store)
        | ok ids ↦ (ok (length ids), record store { tasks = delete_all ids store.tasks })
      ]
