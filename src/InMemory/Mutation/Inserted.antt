-- ===== src/InMemory/Mutation/Inserted.antt =====
-- What an insertion does to the store.
use kubling_providers.Base.{
  ℕ, zero, suc, ◌+◌, ◌%◌, ◌≡◌, ◌≢◌, refl, ◌⊎◌, inl, inr, false, List, [], ◌∷◌, none, some, Bytes,
  bytes_beq, bytes_beq_iff, bytes_eq, Map, lookup, insert, lookup-insert, lookup-insert_self,
  length-insert_new, ok, length, All, Bool-cases, Option-cases, Result-cases, arith,
}
use kubling_providers.Cache.State.{u64_mod}
use kubling_providers.InMemory.Model.{Task}
use kubling_providers.InMemory.Identifiers.{
  generated_id, next_free, is_taken, identify, prepare_inserted_tasks,
}
use kubling_providers.InMemory.Identifiers.Fresh.{not_taken}
use kubling_providers.InMemory.Mutation.{put_tasks}
use kubling_providers.InMemory.Mutation.Stored.{IsStored, insert-IsStored}

-- The rows are the drafts, each with an identifier, its own if it has one.
abbrev pub Matched : List Task → List Task → Type 0
Matched [] [] = Unit
Matched (d ∷ ds) (r ∷ rs) =
    (r ≡ record d { id = r.id }) × ((d.id ≡ []) ⊎ (r.id ≡ d.id)) × Matched ds rs
Matched _ _ = ⊥

-- New identifiers, each once, none of them empty.
Distinct : Map Bytes Task → List Task → Type 0
Distinct tasks [] = Unit
Distinct tasks (r ∷ rs) =
    (lookup r.id tasks ≡ none) × (r.id ≢ []) × Distinct (insert r.id r tasks) rs

next_free_named :
    (fuel : ℕ) (existing : Map Bytes Task) (pending : Map Bytes (Unit {0})) (n next : ℕ)
    (id : Bytes)
    → next_free fuel existing pending n ≡ some (id, next)
    → id ≢ []
unfolding next_free generated_id
next_free_named zero existing pending n next id h e = cc
next_free_named (suc fuel) existing pending n next id h e =
    elim (Bool-cases (is_taken existing pending (generated_id n))) [
      | inl taken ↦
          next_free_named fuel existing pending ((n + 1) % u64_mod) next id
            (rw (taken, next_free) at h) e
      | inr free ↦ cc (rw (free, next_free) at h)
    ]

not_empty : (id : Bytes) → bytes_beq id [] ≡ false → id ≢ []
not_empty id h e = ground (arith, bytes_beq_iff id [])

-- The row of a draft has an identifier, the draft's own if it has one.
identify_named :
    (existing : Map Bytes Task) (pending : Map Bytes (Unit {0})) (n next : ℕ) (draft row : Task)
    → identify existing pending n draft ≡ some (row, next)
    → (row ≡ record draft { id = row.id }) × ((draft.id ≡ []) ⊎ (row.id ≡ draft.id)) × (row.id ≢ [])
unfolding identify
identify_named existing pending n next draft row h =
    let fuel = suc (length existing + length pending) in
    elim (Bool-cases (bytes_beq draft.id [])) [
      | inr given ↦
          let same : draft ≡ row = ground arith in
          rw (← same) (refl, inr refl, not_empty draft.id given)
      | inl absent ↦ elim (Option-cases (next_free fuel existing pending n)) [
        | inl stuck ↦ absurd (cc (rw (absent, identify, stuck) at h))
        | inr ((id, last), found) ↦
            let same : record draft { id = id } ≡ row = cc (rw (absent, identify, found) at h) in
            rw (← same) (
              refl,
              inl ((bytes_beq_iff draft.id []).0 absent),
              next_free_named fuel existing pending n last id found,
            )
      ]
    ]

-- The map has no more identifiers than the stored and the pending tasks.
Covers : Map Bytes Task → Map Bytes Task → Map Bytes (Unit {0}) → Type 0
Covers tasks existing pending =
    (id : Bytes) → lookup id existing ≡ none → lookup id pending ≡ none → lookup id tasks ≡ none

Covers-insert :
    (r : Task) (tasks existing : Map Bytes Task) (pending : Map Bytes (Unit {0}))
    → Covers tasks existing pending
    → Covers (insert r.id r tasks) existing (insert r.id tt pending)
unfolding Covers
Covers-insert r tasks existing pending covers id p q =
    ground (arith, lookup-insert r.id id r tasks, lookup-insert r.id id tt pending, covers id p)

record Prepared (existing : Map Bytes Task) (pending : Map Bytes (Unit {0})) (n last : ℕ)
    (draft : Task) (drafts rows : List Task) : Type 0 where
  row : Task
  next : ℕ
  rest : List Task
  identified : identify existing pending n draft ≡ some (row, next)
  free : is_taken existing pending row.id ≡ false
  others :
      prepare_inserted_tasks existing (insert row.id tt pending) next drafts
      ≡ some (ok (rest, last))
  listed : row ∷ rest ≡ rows

prepare-Prepared :
    (existing : Map Bytes Task) (pending : Map Bytes (Unit {0})) (n last : ℕ) (draft : Task)
    (drafts rows : List Task)
    → prepare_inserted_tasks existing pending n (draft ∷ drafts) ≡ some (ok (rows, last))
    → Prepared existing pending n last draft drafts rows
unfolding prepare_inserted_tasks
prepare-Prepared existing pending n last draft drafts rows h =
    elim (Option-cases (identify existing pending n draft)) [
      | inl stuck ↦ absurd (cc (rw (stuck, prepare_inserted_tasks) at h))
      | inr ((row, next), identified) ↦ elim (Bool-cases (is_taken existing pending row.id)) [
        | inl taken ↦ absurd (cc (rw (identified, taken, prepare_inserted_tasks) at h))
        | inr free ↦
            let added = insert row.id tt pending in
            elim (Option-cases (prepare_inserted_tasks existing added next drafts)) [
              | inl none_left ↦
                  absurd (cc (rw (identified, free, none_left, prepare_inserted_tasks) at h))
              | inr (outcome, found) ↦ elim (Result-cases outcome) [
                | inr (e, failed) ↦
                    absurd (cc (rw (identified, free, found, failed, prepare_inserted_tasks) at h))
                | inl ((rest, end), done) ↦
                    let h' = rw (identified, free, found, done, prepare_inserted_tasks) at h in
                    record {
                      row = row;
                      next = next;
                      rest = rest;
                      identified = identified;
                      free = free;
                      others = ground arith;
                      listed = cc;
                    }
              ]
            ]
      ]
    ]

prepare-Distinct :
    (drafts rows : List Task) (tasks existing : Map Bytes Task) (pending : Map Bytes (Unit {0}))
    (n last : ℕ)
    → Covers tasks existing pending
    → prepare_inserted_tasks existing pending n drafts ≡ some (ok (rows, last))
    → Distinct tasks rows × Matched drafts rows
unfolding prepare_inserted_tasks Distinct Covers
prepare-Distinct [] rows tasks existing pending n last covers h =
    let same : [] ≡ rows = ground arith in rw (← same) (tt, tt)
prepare-Distinct (draft ∷ drafts) rows tasks existing pending n last covers h =
    let p = prepare-Prepared existing pending n last draft drafts rows h in
    let (same, given, named) = identify_named existing pending n p.next draft p.row p.identified in
    let (old, waiting) = not_taken existing pending p.row.id p.free in
    let (distinct, matched) =
      prepare-Distinct drafts p.rest (insert p.row.id p.row tasks) existing
        (insert p.row.id tt pending) p.next last (Covers-insert p.row tasks existing pending covers)
        p.others in
    rw (← p.listed) ((covers p.row.id old waiting, named, distinct), (same, given, matched))

-- What is stored stays, when new identifiers are put in.
put_tasks_keeps :
    (rows : List Task) (tasks : Map Bytes Task) (id : Bytes) (t : Task)
    → Distinct tasks rows
    → lookup id tasks ≡ some t
    → lookup id (put_tasks rows tasks) ≡ some t
unfolding put_tasks Distinct
put_tasks_keeps [] tasks id t h e = e
put_tasks_keeps (r ∷ rows) tasks id t h e =
    put_tasks_keeps rows (insert r.id r tasks) id t h.2
      (ground (arith, lookup-insert r.id id r tasks, bytes_beq_iff r.id id))

put_tasks-IsStored :
    (rows : List Task) (tasks : Map Bytes Task)
    → Distinct tasks rows
    → IsStored tasks
    → IsStored (put_tasks rows tasks)
unfolding put_tasks Distinct
put_tasks-IsStored [] tasks h s = s
put_tasks-IsStored (r ∷ rows) tasks h s =
    put_tasks-IsStored rows (insert r.id r tasks) h.2 (insert-IsStored r tasks h.1 s)

length-put_tasks :
    (rows : List Task) (tasks : Map Bytes Task)
    → Distinct tasks rows
    → length (put_tasks rows tasks) ≡ length tasks + length rows
unfolding put_tasks Distinct
length-put_tasks [] tasks h = omega arith
length-put_tasks (r ∷ rows) tasks h =
    omega
      (arith, length-put_tasks rows (insert r.id r tasks) h.2, length-insert_new r.id r tasks h.0)

-- A row is stored that was not there before.
abbrev pub IsNew : Map Bytes Task → Map Bytes Task → Task → Type 0
IsNew before after r = (r.id ≢ []) × (lookup r.id before ≡ none) × (lookup r.id after ≡ some r)

put_tasks-IsNew :
    (rows : List Task) (before tasks : Map Bytes Task)
    → ((id : Bytes) → lookup id tasks ≡ none → lookup id before ≡ none)
    → Distinct tasks rows
    → All (IsNew before (put_tasks rows tasks)) rows
unfolding put_tasks Distinct
put_tasks-IsNew [] before tasks within h = tt
put_tasks-IsNew (r ∷ rows) before tasks within h = (
  (
    h.1,
    within r.id h.0,
    put_tasks_keeps rows (insert r.id r tasks) r.id r h.2 (lookup-insert_self r.id r tasks),
  ),
  put_tasks-IsNew rows before (insert r.id r tasks)
      (λ id e. within id (ground (arith, lookup-insert r.id id r tasks))) h.2,
)

-- Between two stores, exactly these rows have been put in.
pub record Adds (drafts rows : List Task) (before after : Map Bytes Task) : Type 0 where
  pub matched : Matched drafts rows
  pub added : All (IsNew before after) rows
  pub kept : (id : Bytes) (t : Task) → lookup id before ≡ some t → lookup id after ≡ some t
  pub counted : length after ≡ length before + length rows
  pub stored : IsStored after

pub prepare-Adds :
    (drafts rows : List Task) (tasks : Map Bytes Task) (n last : ℕ)
    → IsStored tasks
    → prepare_inserted_tasks tasks [] n drafts ≡ some (ok (rows, last))
    → Adds drafts rows tasks (put_tasks rows tasks)
unfolding Covers
prepare-Adds drafts rows tasks n last s h =
    let (distinct, matched) = prepare-Distinct drafts rows tasks tasks [] n last (λ id p q. p) h in
    record {
      matched = matched;
      added = put_tasks-IsNew rows tasks tasks (λ id e. e) distinct;
      kept = λ id t. put_tasks_keeps rows tasks id t distinct;
      counted = length-put_tasks rows tasks distinct;
      stored = put_tasks-IsStored rows tasks distinct s;
    }
