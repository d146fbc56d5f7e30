-- ===== src/InMemory/Identifiers.antt =====
-- The identifiers of inserted tasks (prepareInsertedTasks, providers/inmemory/mutation.go).
pub mod Fresh
use kubling_providers.Base.{
  ℕ, zero, suc, ◌+◌, ◌%◌, Bool, true, false, ◌||◌, List, [], ◌∷◌, ◌++◌, Option, none, some, Bytes,
  codes, bytes_beq, bytes_eq, decimal, Map, lookup, insert, Result, ok, err, ◌>>=◌, ◌>>◌, reject_if,
  length,
}
use kubling_providers.Cache.State.{u64_mod}
use kubling_providers.InMemory.Model.{Refusal, already_exists, Task}

abbrev pub is_there {ℓ} : {A : Type ℓ} → Option A → Bool
is_there none = false
is_there (some a) = true

-- a stored task has the identifier, or one that is to be inserted
unfoldable pub is_taken : Map Bytes Task → Map Bytes (Unit {0}) → Bytes → Bool
unfolding lookup
is_taken existing pending id = is_there (lookup id existing) || is_there (lookup id pending)

-- `fmt.Sprintf("task-%d", n)`
unfoldable pub generated_id : ℕ → Bytes
unfolding decimal
generated_id n = codes "task-" ++ decimal n

-- The loop that takes the next identifier that is free, and counts on; nothing where it does not end
-- within the fuel.
unfoldable pub next_free : ℕ → Map Bytes Task → Map Bytes (Unit {0}) → ℕ → Option (Bytes × ℕ)
unfolding is_taken generated_id
next_free zero existing pending n = none
next_free (suc fuel) existing pending n = elim (is_taken existing pending (generated_id n)) [
  | true ↦ next_free fuel existing pending ((n + 1) % u64_mod)
  | false ↦ some (generated_id n, (n + 1) % u64_mod)
]

-- The draft's identifier, or the next free one for a draft that has none.
unfoldable pub identify : Map Bytes Task → Map Bytes (Unit {0}) → ℕ → Task → Option (Task × ℕ)
unfolding next_free
identify existing pending n draft = elim (bytes_beq draft.id []) [
  | false ↦ some (draft, n)
  | true ↦ elim (next_free (suc (length existing + length pending)) existing pending n) [
    | none ↦ none
    | some (id, next) ↦ some (record draft { id = id }, next)
  ]
]

-- prepareInsertedTasks; nothing where the loop for an identifier does not end.
unfoldable pub prepare_inserted_tasks :
    Map Bytes Task → Map Bytes (Unit {0}) → ℕ → List Task → Option (Result Refusal (List Task × ℕ))
unfolding identify is_taken
prepare_inserted_tasks existing pending n [] = some (ok ([], n))
prepare_inserted_tasks existing pending n (draft ∷ drafts) =
    elim (identify existing pending n draft) [
      | none ↦ none
      | some (row, next) ↦ elim (is_taken existing pending row.id) [
        | true ↦ some (err already_exists)
        | false ↦ elim (prepare_inserted_tasks existing (insert row.id tt pending) next drafts) [
          | none ↦ none
          | some (err e) ↦ some (err e)
          | some (ok (rows, last)) ↦ some (ok (row ∷ rows, last))
        ]
      ]
    ]
