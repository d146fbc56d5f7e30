-- ===== src/InMemory/Mutation/Answered.antt =====
-- The answer to an insertion.
use kubling_providers.Base.{
  ℕ, ◌+◌, ◌<◌, ◌≡◌, ◌≢◌, refl, subst, some_injective, inl, inr, Bool, List, [], ◌∷◌, Option, none,
  some, Bytes, bytes_eq, Result, ok, err, ◌>>=◌, ◌>>◌, bind_ok, length, All, Bool-cases,
  Option-cases, Result-cases, arith, ok_unique, lookup, bytes_beq,
}
use kubling_providers.Cache.State.{u64_mod}
use kubling_providers.InMemory.Values.{
  Value, string_value, clob_value, boolean_value, integer_value, float_value, timestamp_value,
}
use kubling_providers.InMemory.Model.{
  value_or_null, equal_name, Refusal, Task, Store, EntityField, task_fields, field_by_name,
  task_row, row_value, validate_mutable_task_entity,
}
use kubling_providers.InMemory.Parse.{task_field_by_name, parse_insert_rows, resolve_task_fields}
use kubling_providers.InMemory.Identifiers.{prepare_inserted_tasks}
use kubling_providers.InMemory.Identifiers.Fresh.{prepare_ends}
use kubling_providers.InMemory.Mutation.{
  InsertRequest, InsertResponse, argument, context_error, lock_open, task_tuple, task_tuples,
  check_insert, put_tasks, respond, provider_fields, insert_rows,
}
use kubling_providers.InMemory.Mutation.Stored.{IsStored}
use kubling_providers.InMemory.Mutation.Inserted.{Adds, prepare-Adds}

-- The row of every task has the field.
Known : EntityField → Type 0
Known f = (t : Task) → (v : Value) × (row_value (task_row t) f.name ≡ some v)

task_fields-Known : All Known task_fields
unfolding Known row_value task_row lookup bytes_beq
task_fields-Known = (
  λ t. (string_value t.id, refl),
  (
    λ t. (string_value t.project_id, refl),
    (
      λ t. (string_value t.title, refl),
      (
        λ t. (value_or_null t.description (λ s. clob_value (some s)), refl),
        (
          λ t. (boolean_value t.completed, refl),
          (
            λ t. (integer_value t.priority, refl),
            (
              λ t. (value_or_null t.estimate_hours float_value, refl),
              (λ t. (value_or_null t.due_at timestamp_value, refl), tt),
            ),
          ),
        ),
      ),
    ),
  ),
)

field_by_name-All :
    (P : EntityField → Type 0) (fields : List EntityField) (name : Bytes) (f : EntityField)
    → All P fields
    → field_by_name fields name ≡ some f
    → P f
unfolding field_by_name
field_by_name-All P [] name f h e = absurd (cc)
field_by_name-All P (g ∷ fields) name f h e = elim (Bool-cases (equal_name g.name name)) [
  | inl same ↦ subst P (some_injective g f (rw (same, field_by_name) at e)) h.0
  | inr other ↦ field_by_name-All P fields name f h.1 (rw (other, field_by_name) at e)
]

resolve-Known :
    (names : List Bytes) (fields : List EntityField)
    → resolve_task_fields names ≡ ok fields
    → All Known fields
unfolding resolve_task_fields task_field_by_name
resolve-Known [] fields h = let same : [] ≡ fields = ground arith in rw (← same) tt
resolve-Known (name ∷ names) fields h = elim (Option-cases (task_field_by_name name)) [
  | inl missing ↦ absurd (cc (rw (missing, resolve_task_fields) at h))
  | inr (f, found) ↦
      let (rest, resolved, listed) =
        (bind_ok (resolve_task_fields names) (λ fs. ok (f ∷ fs)) fields).0
          (rw (found, resolve_task_fields) at h) in
      let same : f ∷ rest ≡ fields = cc in
      rw (← same) (
        field_by_name-All Known task_fields name f task_fields-Known found,
        resolve-Known names rest resolved,
      )
]

task_tuple_ok :
    (t : Task) (fields : List EntityField)
    → All Known fields
    → (vs : List Value) × (task_tuple (task_row t) fields ≡ ok vs)
unfolding task_tuple Known
task_tuple_ok t [] h = ([], refl)
task_tuple_ok t (f ∷ fields) h =
    let (v, found) = h.0 t in
    let (vs, rest) = task_tuple_ok t fields h.1 in (v ∷ vs, rw (found, task_tuple, rest) refl)

task_tuples_ok :
    (rows : List Task) (fields : List EntityField)
    → All Known fields
    → (tuples : List (List Value)) × (task_tuples rows fields ≡ ok tuples)
unfolding task_tuples
task_tuples_ok [] fields h = ([], refl)
task_tuples_ok (t ∷ rows) fields h =
    let (vs, first) = task_tuple_ok t fields h in
    let (tuples, rest) = task_tuples_ok rows fields h in
    (vs ∷ tuples, rw (first, task_tuples, rest) refl)

-- A response to checked fields is no error.
respond_ok :
    (rows : List Task) (fields : List EntityField)
    → All Known fields
    → (response : InsertResponse) × (respond rows fields ≡ ok response)
      × (response.affected_rows ≡ length rows)
unfolding respond
respond_ok rows [] h = (record { affected_rows = length rows; generated_values = none }, refl, refl)
respond_ok rows (f ∷ fields) h =
    let (tuples, given) = task_tuples_ok rows (f ∷ fields) h in
    (
      record {
        affected_rows = length rows;
        generated_values = some (provider_fields (f ∷ fields), tuples);
      },
      rw (given, respond) refl,
      refl,
    )

pub argument_ok : {F A : Type 0} (m : Result F A) (a : A) → argument m ≡ ok a → m ≡ ok a
argument_ok (ok b) a h = ground arith
argument_ok (err e) a h = cc

-- An insertion that passes its checks has rows that were read, and fields of the entity.
check_insert_ok :
    (closed : Bool) (context : Option ℕ) (request : InsertRequest) (drafts : List Task)
    (fields : List EntityField)
    → check_insert closed context request ≡ ok (drafts, fields)
    → (parse_insert_rows request.rows ≡ ok drafts) × All Known fields
unfolding check_insert
check_insert_ok closed context request drafts fields h =
    let end = λ (ds : List Task) (fs : List EntityField). context_error context >> ok (ds, fs) in
    let resolved = λ (ds : List Task).
      argument (resolve_task_fields request.returning_fields) >>= λ fs. end ds fs in
    let read = argument (parse_insert_rows request.rows) >>= λ ds. resolved ds in
    let mutable = validate_mutable_task_entity request.entity in
    let (u0, p0, h0) = (bind_ok (lock_open closed) (λ _. mutable >> read) (drafts, fields)).0 h in
    let (u1, p1, h1) = (bind_ok mutable (λ _. read) (drafts, fields)).0 h0 in
    let (ds, p2, h2) =
      (bind_ok (argument (parse_insert_rows request.rows)) (λ ds. resolved ds) (drafts, fields)).0
        h1 in
    let (fs, p3, h3) =
      (bind_ok (argument (resolve_task_fields request.returning_fields)) (λ fs. end ds fs)
          (drafts, fields)).0
        h2 in
    let (u4, p4, h4) = (bind_ok (context_error context) (λ _. ok (ds, fs)) (drafts, fields)).0 h3 in
    let same_drafts : ds ≡ drafts = cc in
    let same_fields : fs ≡ fields = cc in
    (
      argument_ok (parse_insert_rows request.rows) drafts (rw (← same_drafts) p2),
      resolve-Known request.returning_fields fields (
          argument_ok (resolve_task_fields request.returning_fields) fields
            (rw (← same_fields) p3)),
    )

-- What an insertion into `before` answers and leaves: an error and the same store, or the rows that it
-- read, added, their number, and the rest as it was.
abbrev pub Inserts : InsertRequest → Store → Result Refusal InsertResponse × Store → Type 0
Inserts request before (err e, after) = after ≡ before
Inserts request before (ok response, after) =
    (drafts : List Task) × (rows : List Task) × (parse_insert_rows request.rows ≡ ok drafts)
    × (response.affected_rows ≡ length rows)
    × Adds drafts rows before.tasks after.tasks
    × (after.entities ≡ before.entities)

-- In a store where each task stands once, under its own identifier, an insertion that returns answers with
-- an error and leaves the store as it was, or adds exactly the rows that it read. Each of them then stands
-- under an identifier, its own if it had one, that was not in use; every task that was there is still the
-- same, the number that it answers with is theirs, and each task stands once, under its own identifier.
pub insert_rows-Inserts :
    (closed : Bool) (context : Option ℕ) (request : InsertRequest) (before : Store)
    (outcome : Result Refusal InsertResponse × Store)
    → IsStored before.tasks
    → insert_rows closed context before request ≡ some outcome
    → Inserts request before outcome
unfolding insert_rows
insert_rows-Inserts closed context request before outcome s h =
    elim (Result-cases (check_insert closed context request)) [
      | inr (e, refused) ↦
          let same : (err e, before) ≡ outcome = cc (rw (refused, insert_rows) at h) in
          rw (← same) refl
      | inl ((drafts, fields), checked) ↦
          let (read, known) = check_insert_ok closed context request drafts fields checked in
          elim (Option-cases (prepare_inserted_tasks before.tasks [] before.next_id drafts)) [
            | inl stuck ↦ absurd (cc (rw (checked, stuck, insert_rows) at h))
            | inr (prepared, found) ↦ elim (Result-cases prepared) [
              | inr (e, failed) ↦
                  let same : (err e, before) ≡ outcome =
                    cc (rw (checked, found, failed, insert_rows) at h) in
                  rw (← same) refl
              | inl ((rows, next), done) ↦
                  let (response, given, counted) = respond_ok rows fields known in
                  let after : Store = record before {
                    tasks = put_tasks rows before.tasks;
                    next_id = next;
                  } in
                  let same : (ok response, after) ≡ outcome =
                    cc (rw (checked, found, done, insert_rows, given) at h) in
                  rw (← same) (
                    drafts,
                    rows,
                    read,
                    counted,
                    prepare-Adds drafts rows before.tasks before.next_id next s (cc),
                    refl,
                  )
            ]
          ]
    ]

-- An insertion whose rows can be read returns, whatever identifiers are in use: the search for an identifier
-- that is free ends, as long as the stored tasks and the rows of the request are fewer than 2^64 together.
pub insert_rows_returns :
    (closed : Bool) (context : Option ℕ) (request : InsertRequest) (before : Store)
    (drafts : List Task)
    → IsStored before.tasks
    → before.next_id < u64_mod
    → parse_insert_rows request.rows ≡ ok drafts
    → length before.tasks + length drafts < u64_mod
    → insert_rows closed context before request ≢ none
unfolding insert_rows
insert_rows_returns closed context request before drafts s small read bound h =
    elim (Result-cases (check_insert closed context request)) [
      | inr (e, refused) ↦ cc (rw (refused, insert_rows) at h)
      | inl ((ds, fields), checked) ↦
          let same : ds ≡ drafts =
            ok_unique (parse_insert_rows request.rows) ds drafts
              (check_insert_ok closed context request ds fields checked).0 read in
          elim (Option-cases (prepare_inserted_tasks before.tasks [] before.next_id ds)) [
            | inl stuck ↦
                prepare_ends ds before.tasks [] before.next_id s.is_map tt small
                  (rw same (omega arith)) stuck
            | inr (prepared, found) ↦ elim (Result-cases prepared) [
              | inr (e, failed) ↦ cc (rw (checked, found, failed, insert_rows) at h)
              | inl ((rows, next), done) ↦ cc (rw (checked, found, done, insert_rows) at h)
            ]
          ]
    ]
