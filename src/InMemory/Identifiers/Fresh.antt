-- ===== src/InMemory/Identifiers/Fresh.antt =====
-- The loop for an identifier ends.
use kubling_providers.Base.{
  List, ℕ, zero, suc, ◌+◌, ◌%◌, ◌≤◌, ◌<◌, ◌≡◌, ◌≢◌, refl, inl, inr, true, false, [], ◌∷◌, Option,
  none, some, Bytes, codes, bytes_beq, bytes_beq_iff, bytes_eq, decimal, decimal-injective,
  append_same_length, Map, lookup, insert, delete, lookup-delete, length-delete, delete_missing,
  delete-IsMap, insert-IsMap, length-insert_new, IsMap, length, if◌then◌else◌, Bool-cases,
  Option-cases, arith,
}
use kubling_providers.Cache.State.{u64_mod}
use kubling_providers.InMemory.Model.{Task}
use kubling_providers.InMemory.Identifiers.{
  is_there, is_taken, generated_id, next_free, identify, prepare_inserted_tasks,
}

pub generated_id-injective : (m n : ℕ) → generated_id m ≡ generated_id n → m ≡ n
unfolding generated_id
generated_id-injective m n p =
    decimal-injective m n
      (append_same_length (codes "task-") (codes "task-") (decimal m) (decimal n) refl p).1

-- the identifiers of `count` numbers from `n` on are taken
AllTaken : Map Bytes Task → Map Bytes (Unit {0}) → ℕ → ℕ → Type 0
AllTaken existing pending zero n = Unit
AllTaken existing pending (suc count) n =
    (is_taken existing pending (generated_id n) ≡ true)
    × AllTaken existing pending count ((n + 1) % u64_mod)

none-AllTaken :
    (fuel : ℕ) (existing : Map Bytes Task) (pending : Map Bytes (Unit {0})) (n : ℕ)
    → next_free fuel existing pending n ≡ none
    → AllTaken existing pending fuel n
unfolding next_free AllTaken
none-AllTaken zero existing pending n h = tt
none-AllTaken (suc fuel) existing pending n h =
    elim (Bool-cases (is_taken existing pending (generated_id n))) [
      | inl taken ↦ (
        taken,
        none-AllTaken fuel existing pending ((n + 1) % u64_mod) (rw (taken, next_free) at h),
      )
      | inr free ↦ absurd (cc (rw (free, next_free) at h))
    ]

is_taken-delete :
    (existing : Map Bytes Task) (pending : Map Bytes (Unit {0})) (k j : Bytes)
    → k ≢ j
    → is_taken existing pending j ≡ true
    → is_taken (delete k existing) (delete k pending) j ≡ true
unfolding is_taken
is_taken-delete existing pending k j d h =
    ground (arith, lookup-delete k j existing, lookup-delete k j pending, bytes_beq_iff k j)

-- Taking one identifier away leaves the later ones taken.
AllTaken-delete :
    (existing : Map Bytes Task) (pending : Map Bytes (Unit {0})) (count n d m : ℕ)
    → n < u64_mod
    → 0 < d
    → d + count ≤ u64_mod
    → m ≡ (n + d) % u64_mod
    → AllTaken existing pending count m
    → AllTaken (delete (generated_id n) existing) (delete (generated_id n) pending) count m
unfolding AllTaken
AllTaken-delete existing pending zero n d m small pos_d bound at h = tt
AllTaken-delete existing pending (suc count) n d m small pos_d bound at h = (
  is_taken-delete existing pending (generated_id n) (generated_id m)
      (λ e. omega (arith, generated_id-injective n m e)) h.0,
  AllTaken-delete existing pending count n (d + 1) ((m + 1) % u64_mod) small (omega arith)
      (omega arith) (omega arith) h.1,
)

length-delete_taken :
    {A : Type 0} (k : Bytes) (m : Map Bytes A)
    → IsMap m
    → length (delete k m) + (if is_there (lookup k m) then 1 else 0) ≡ length m
length-delete_taken k m h = elim (Option-cases (lookup k m)) [
  | inl absent ↦ rw (absent, delete_missing k m absent) (omega arith)
  | inr (v, found) ↦ rw found (omega (arith, length-delete k v m h found))
]

-- As many identifiers are taken as there are tasks, at most.
AllTaken-le :
    (count : ℕ) (existing : Map Bytes Task) (pending : Map Bytes (Unit {0})) (n : ℕ)
    → IsMap existing
    → IsMap pending
    → n < u64_mod
    → count ≤ u64_mod
    → AllTaken existing pending count n
    → count ≤ length existing + length pending
unfolding AllTaken is_taken
AllTaken-le zero existing pending n h k small bound taken = omega arith
AllTaken-le (suc count) existing pending n h k small bound taken =
    let id = generated_id n in
    let rest =
      AllTaken-le count (delete id existing) (delete id pending) ((n + 1) % u64_mod)
        (delete-IsMap id existing h) (delete-IsMap id pending k) (omega arith) (omega arith)
        (AllTaken-delete existing pending count n 1 ((n + 1) % u64_mod) small (omega arith)
          (omega arith) refl taken.1) in
    ground
      (arith, length-delete_taken id existing h, length-delete_taken id pending k, rest, taken.0)

next_free_ends :
    (existing : Map Bytes Task) (pending : Map Bytes (Unit {0})) (n : ℕ)
    → IsMap existing
    → IsMap pending
    → n < u64_mod
    → length existing + length pending < u64_mod
    → next_free (suc (length existing + length pending)) existing pending n ≢ none
next_free_ends existing pending n h k small bound e =
    let count = length existing + length pending in
    omega (
      arith,
      AllTaken-le (suc count) existing pending n h k small (omega arith)
          (none-AllTaken (suc count) existing pending n e),
    )

next_free_small :
    (fuel : ℕ) (existing : Map Bytes Task) (pending : Map Bytes (Unit {0})) (n next : ℕ)
    (id : Bytes)
    → next_free fuel existing pending n ≡ some (id, next)
    → next < u64_mod
unfolding next_free
next_free_small zero existing pending n next id h = cc
next_free_small (suc fuel) existing pending n next id h =
    ground (arith, next_free_small fuel existing pending ((n + 1) % u64_mod) next id)

identify_ends :
    (existing : Map Bytes Task) (pending : Map Bytes (Unit {0})) (n : ℕ) (draft : Task)
    → IsMap existing
    → IsMap pending
    → n < u64_mod
    → length existing + length pending < u64_mod
    → (row : Task) × (next : ℕ) × (identify existing pending n draft ≡ some (row, next))
      × (next < u64_mod)
unfolding identify
identify_ends existing pending n draft h k small bound =
    let fuel = suc (length existing + length pending) in
    elim (Bool-cases (bytes_beq draft.id [])) [
      | inr given ↦ rw (given, identify) (draft, n, refl, small)
      | inl absent ↦ elim (Option-cases (next_free fuel existing pending n)) [
        | inl stuck ↦ absurd (next_free_ends existing pending n h k small bound stuck)
        | inr ((id, next), found) ↦
            rw (absent, identify, found)
              (
                record draft { id = id },
                next,
                refl,
                next_free_small fuel existing pending n next id found,
              )
      ]
    ]

is_there-none : {A : Type 0} (o : Option A) → is_there o ≡ false → o ≡ none
is_there-none none h = refl
is_there-none (some a) h = cc

pub not_taken :
    (existing : Map Bytes Task) (pending : Map Bytes (Unit {0})) (id : Bytes)
    → is_taken existing pending id ≡ false
    → (lookup id existing ≡ none) × (lookup id pending ≡ none)
unfolding is_taken
not_taken existing pending id h = (
  is_there-none (lookup id existing) (ground arith),
  is_there-none (lookup id pending) (ground arith),
)

pub prepare_ends :
    (drafts : List Task) (existing : Map Bytes Task) (pending : Map Bytes (Unit {0})) (n : ℕ)
    → IsMap existing
    → IsMap pending
    → n < u64_mod
    → length existing + length pending + length drafts < u64_mod
    → prepare_inserted_tasks existing pending n drafts ≢ none
unfolding prepare_inserted_tasks
prepare_ends [] existing pending n h k small bound e = cc
prepare_ends (draft ∷ drafts) existing pending n h k small bound e =
    let (row, next, found, next_small) =
      identify_ends existing pending n draft h k small (omega arith) in
    elim (Bool-cases (is_taken existing pending row.id)) [
      | inl taken ↦ cc (rw (found, taken, prepare_inserted_tasks) at e)
      | inr free ↦
          let added = insert row.id tt pending in
          let size : length added ≡ suc (length pending) = omega (
            arith,
            length-insert_new row.id tt pending (not_taken existing pending row.id free).1,
          ) in
          let ended =
            prepare_ends drafts existing added next h (insert-IsMap row.id tt pending k) next_small
              (omega arith) in
          let e' = rw (found, free, prepare_inserted_tasks) at e in ended (ground arith)
    ]
