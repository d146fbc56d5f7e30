-- ===== src/InMemory/Mutation/Deleted.antt =====
-- The outcome of a deletion.
use kubling_providers.Base.{
  ℕ, suc, ◌≡◌, refl, ap, inl, inr, Bool, true, false, List, [], ◌∷◌, Option, none, some, Bytes,
  bytes_beq_iff, bytes_eq, Map, lookup, delete, lookup-delete, IsMap, Result, ok, err, ◌>>=◌, ◌>>◌,
  bind_ok, length, Result-cases, Bool-cases, if◌then◌else◌, arith, ◌∙◌,
}
use kubling_providers.InMemory.Model.{Refusal, Task, Store, task_row, validate_mutable_task_entity}
use kubling_providers.InMemory.Expressions.{Expression}
use kubling_providers.InMemory.Evaluate.{evaluate_filter}
use kubling_providers.InMemory.Evaluate.Aggregates.{Library}
use kubling_providers.InMemory.Parse.{listed}
use kubling_providers.InMemory.Mutation.{
  DeleteRequest, argument, context_error, lock_open, deleted_ids, delete_all, delete_tasks,
}
use kubling_providers.InMemory.Mutation.Stored.{IsStored, delete_all-IsStored}
use kubling_providers.InMemory.Mutation.Changed.{selects, selects_ok, count_selected}

lookup-delete_all :
    (ids : List Bytes) (tasks : Map Bytes Task) (id : Bytes)
    → lookup id (delete_all ids tasks) ≡ (if listed id ids then none else lookup id tasks)
unfolding delete_all listed
lookup-delete_all [] tasks id = refl
lookup-delete_all (k ∷ ids) tasks id =
    ground (
      arith,
      lookup-delete_all ids (delete k tasks) id,
      lookup-delete k id tasks,
      bytes_beq_iff k id,
    )

module _ (lib : Library) (filter : Expression) where
  -- What a deletion leaves of what is stored under an identifier.
  abbrev pub remaining : Option Task → Option Task
  remaining none = none
  remaining (some row) = if selects lib filter row then none else some row

  abbrev chosen : Option Task → Bool
  chosen none = false
  chosen (some row) = selects lib filter row

  deleted_ids_cons :
      (context : ℕ → Option ℕ) (id : Bytes) (row : Task) (tasks : Map Bytes Task) (ids : List Bytes)
      → deleted_ids lib context filter ((id, row) ∷ tasks) ≡ ok ids
      → (rest : List Bytes) × (deleted_ids lib (λ n. context (suc n)) filter tasks ≡ ok rest)
        × (ids ≡ (if selects lib filter row then id ∷ rest else rest))
  unfolding deleted_ids
  deleted_ids_cons context id row tasks ids h =
      let rest = deleted_ids lib (λ n. context (suc n)) filter tasks in
      let more : List Bytes → Result Refusal (List Bytes) = λ others. ok (id ∷ others) in
      let chosen = λ (matches : Bool). elim matches as (λ b. Result Refusal (List Bytes)) [
        | false ↦ rest
        | true ↦ rest >>= more
      ] in
      let matching = argument (evaluate_filter lib (task_row row) filter) in
      let (u, p, h0) = (bind_ok (context_error (context 0)) (λ _. matching >>= chosen) ids).0 h in
      let (b, q, h1) = (bind_ok matching chosen ids).0 h0 in
      elim (Bool-cases b) [
        | inr f ↦
            let h2 : rest ≡ ok ids = rw f at h1 in
            let s : selects lib filter row ≡ false = selects_ok lib filter row b q ∙ f in
            (ids, h2, rw s refl)
        | inl t ↦
            let h2 : (rest >>= more) ≡ ok ids = rw t at h1 in
            let s : selects lib filter row ≡ true = selects_ok lib filter row b q ∙ t in
            let (others, r, h4) = (bind_ok rest more ids).0 h2 in (others, r, rw s (cc))
      ]

  listed-deleted_ids :
      (context : ℕ → Option ℕ) (tasks : Map Bytes Task) (ids : List Bytes) (id : Bytes)
      → IsMap tasks
      → deleted_ids lib context filter tasks ≡ ok ids
      → listed id ids ≡ chosen (lookup id tasks)
  unfolding deleted_ids listed lookup
  listed-deleted_ids context [] ids id m h = let same : [] ≡ ids = ground arith in rw (← same) refl
  listed-deleted_ids context ((k, row) ∷ tasks) ids id m h =
      let (rest, others, e) = deleted_ids_cons context k row tasks ids h in
      ground (
        arith,
        e,
        listed-deleted_ids (λ n. context (suc n)) tasks rest id m.1 others,
        bytes_beq_iff k id,
        m.0,
      )

  length-deleted_ids :
      (context : ℕ → Option ℕ) (tasks : Map Bytes Task) (ids : List Bytes)
      → deleted_ids lib context filter tasks ≡ ok ids
      → length ids ≡ count_selected lib filter tasks
  unfolding deleted_ids count_selected
  length-deleted_ids context [] ids h = let same : [] ≡ ids = ground arith in rw (← same) refl
  length-deleted_ids context ((k, row) ∷ tasks) ids h =
      let (rest, others, e) = deleted_ids_cons context k row tasks ids h in
      ground (arith, e, length-deleted_ids (λ n. context (suc n)) tasks rest others)

  remaining-chosen : (o : Option Task) → (if chosen o then none else o) ≡ remaining o
  remaining-chosen none = refl
  remaining-chosen (some row) = ground arith

-- What a deletion from `before` answers and leaves: an error and the same store; or the number of the
-- tasks that its filter selects, and the store without them.
abbrev pub Deletes : Library → DeleteRequest → Store → Result Refusal ℕ × Store → Type 0
Deletes lib request before (err e, after) = after ≡ before
Deletes lib request before (ok count, after) =
    (count ≡ count_selected lib request.filter before.tasks)
    × ((id : Bytes) → lookup id after.tasks ≡ remaining lib request.filter (lookup id before.tasks))
    × IsStored after.tasks
    × (after.entities ≡ before.entities)
    × (after.next_id ≡ before.next_id)

-- In a store where each task stands once, under its own identifier, a deletion answers with an error and
-- leaves the store as it was, or takes out exactly the tasks on which its filter is true, answers with their
-- number, and leaves each other task as it was, once and under its own identifier.
pub delete_tasks-Deletes :
    (lib : Library) (closed : Bool) (context : ℕ → Option ℕ) (before : Store)
    (request : DeleteRequest)
    → IsStored before.tasks
    → Deletes lib request before (delete_tasks lib closed context before request)
unfolding delete_tasks
delete_tasks-Deletes lib closed context before request s =
    let found = deleted_ids lib context request.filter before.tasks in
    let mutable = validate_mutable_task_entity request.entity in
    elim (Result-cases (lock_open closed >> mutable >> found)) [
      | inr (e, failed) ↦ rw (failed, delete_tasks) refl
      | inl (ids, done) ↦
          let (u, p, h0) = (bind_ok (lock_open closed) (λ _. mutable >> found) ids).0 done in
          let (v, q, h1) = (bind_ok mutable (λ _. found) ids).0 h0 in
          rw (done, delete_tasks)
            (
              length-deleted_ids lib request.filter context before.tasks ids h1,
              λ id.
                  lookup-delete_all ids before.tasks id
                  ∙ ap (λ b. if b then none else lookup id before.tasks)
                      (listed-deleted_ids lib request.filter context before.tasks ids id s.is_map
                        h1)
                  ∙ remaining-chosen lib request.filter (lookup id before.tasks),
              delete_all-IsStored ids before.tasks s,
              refl,
              refl,
            )
    ]
