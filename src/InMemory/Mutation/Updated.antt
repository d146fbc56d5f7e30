-- ===== src/InMemory/Mutation/Updated.antt =====
-- The outcome of an update.
use kubling_providers.Base.{
  ℕ, ◌≡◌, refl, ap, Bool, List, Option, none, some, Bytes, bytes_eq, lookup, Result, ok, err, ◌>>=◌,
  ◌>>◌, bind_ok, Result-cases, arith, ◌∙◌, inl, inr, true, false, Bool-cases,
}
use kubling_providers.InMemory.Model.{Refusal, Task, Store, validate_mutable_task_entity}
use kubling_providers.InMemory.Expressions.{Expression}
use kubling_providers.InMemory.Evaluate.Aggregates.{Library}
use kubling_providers.InMemory.Parse.{Assignment, validate_assignments}
use kubling_providers.InMemory.Mutation.{
  UpdateRequest, argument, apply_assignments, put_all, lock_open, update_rows, update_tasks,
}
use kubling_providers.InMemory.Mutation.Answered.{argument_ok}
use kubling_providers.InMemory.Mutation.Stored.{IsStored, put_all-IsStored}
use kubling_providers.InMemory.Mutation.Revised.{IsAssigned, apply_assignments-IsAssigned}
use kubling_providers.InMemory.Mutation.Changed.{
  revised, written, selects, assigned, update_rows_applies, or_else, count_selected,
  lookup-update_rows, update_rows-IsMap, lookup-put_all,
}

-- What an update makes of what is stored under an identifier.
abbrev pub Revises : Library → Expression → List Assignment → Option Task → Option Task → Type 0
Revises lib filter assignments none after = after ≡ none
Revises lib filter assignments (some row) after = elim (selects lib filter row) [
  | true ↦ (next : Task) × (after ≡ some next) × IsAssigned lib row row next assignments
  | false ↦ after ≡ some row
]

-- What an update of `before` answers and leaves: an error and the same store; or the number of the
-- tasks that its filter selects, and the store in which these have their assignments.
abbrev pub Updates : Library → UpdateRequest → Store → Result Refusal ℕ × Store → Type 0
Updates lib request before (err e, after) = after ≡ before
Updates lib request before (ok count, after) =
    (assignments : List Assignment) × (validate_assignments request.assignments ≡ ok assignments)
    × (count ≡ count_selected lib request.filter before.tasks)
    × ((id : Bytes)
        → Revises lib request.filter assignments (lookup id before.tasks) (lookup id after.tasks))
    × IsStored after.tasks
    × (after.entities ≡ before.entities)
    × (after.next_id ≡ before.next_id)

or_else-written :
    (lib : Library) (filter : Expression) (assignments : List Assignment) (o : Option Task)
    → or_else (written lib filter assignments o) o ≡ revised lib filter assignments o
or_else-written lib filter assignments none = refl
or_else-written lib filter assignments (some row) = ground arith

revised-Revises :
    (lib : Library) (filter : Expression) (assignments : List Assignment) (old new : Option Task)
    → ((row : Task)
        → old ≡ some row
        → selects lib filter row ≡ true
        → apply_assignments lib row row assignments ≡ ok (assigned lib assignments row))
    → new ≡ revised lib filter assignments old
    → Revises lib filter assignments old new
revised-Revises lib filter assignments none new applies e = e
revised-Revises lib filter assignments (some row) new applies e =
    elim (Bool-cases (selects lib filter row)) [
      | inl t ↦
          rw (t, Revises)
            (
              assigned lib assignments row,
              rw t at e,
              apply_assignments-IsAssigned lib row row (assigned lib assignments row) assignments
                  (applies row refl t),
            )
      | inr f ↦ rw (f, Revises) (rw f at e)
    ]

-- In a store where each task stands once, under its own identifier, an update answers with an error and
-- leaves the store as it was, or answers with the number of tasks on which its filter is true and revises
-- exactly these: a field has the value that the last assignment to it has on the old row, of the field's
-- type, or null where the field may be null, and the fields without an assignment stay. Each task still
-- stands once, under its own identifier.
pub update_tasks-Updates :
    (lib : Library) (closed : Bool) (context : ℕ → Option ℕ) (before : Store)
    (request : UpdateRequest)
    → IsStored before.tasks
    → Updates lib request before (update_tasks lib closed context before request)
unfolding update_tasks
update_tasks-Updates lib closed context before request s =
    let change = λ (assignments : List Assignment).
      update_rows lib context request.filter assignments before.tasks in
    let checked = argument (validate_assignments request.assignments) in
    let mutable = validate_mutable_task_entity request.entity in
    let whole = lock_open closed >> mutable >> checked >>= change in
    elim (Result-cases whole) [
      | inr (e, failed) ↦ rw (failed, update_tasks) refl
      | inl (updated, done) ↦
          let (u, p, h0) =
            (bind_ok (lock_open closed) (λ _. mutable >> checked >>= change) updated).0 done in
          let (v, q, h1) = (bind_ok mutable (λ _. checked >>= change) updated).0 h0 in
          let (assignments, c, h2) = (bind_ok checked change updated).0 h1 in
          let (is_map, keyed, counted) =
            update_rows-IsMap lib context request.filter assignments before.tasks updated s.is_map
              s.keyed h2 in
          rw (done, update_tasks)
            (
              assignments,
              argument_ok (validate_assignments request.assignments) assignments c,
              counted,
              λ id.
                  revised-Revises lib request.filter assignments (lookup id before.tasks)
                    (lookup id (put_all updated before.tasks))
                    (λ row.
                      update_rows_applies lib context request.filter assignments before.tasks
                        updated id row h2)
                    (lookup-put_all updated before.tasks id is_map
                      ∙ ap (λ o. or_else o (lookup id before.tasks))
                          (lookup-update_rows lib context request.filter assignments before.tasks
                            updated id s.is_map h2)
                      ∙ or_else-written lib request.filter assignments (lookup id before.tasks)),
              put_all-IsStored updated before.tasks keyed s,
              refl,
              refl,
            )
    ]
