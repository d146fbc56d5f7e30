-- ===== src/InMemory/Mutation/Changed.antt =====
-- What an update and a deletion do to the store.
use kubling_providers.Base.{
  ℕ, suc, ◌+◌, ◌≡◌, refl, sym, ◌∙◌, ap, inl, inr, Bool, true, false, List, [], ◌∷◌, Option, none,
  some, Bytes, bytes_beq, bytes_beq_iff, bytes_eq, some_injective, subst, Map, lookup, insert,
  lookup-insert, IsMap, Result, ok, err, ◌>>=◌, bind_ok, length, All, if◌then◌else◌, Bool-cases,
  arith,
}
use kubling_providers.InMemory.Values.{Value}
use kubling_providers.InMemory.Expressions.{Expression}
use kubling_providers.InMemory.Model.{Refusal, Task, task_row}
use kubling_providers.InMemory.Evaluate.{evaluate_expression, evaluate_filter}
use kubling_providers.InMemory.Evaluate.Aggregates.{Library}
use kubling_providers.InMemory.Parse.{Assignment, assign_null, assign_some, assign_task_value}
use kubling_providers.InMemory.Mutation.{
  argument, context_error, apply_assignments, update_rows, put_all,
}
use kubling_providers.InMemory.Mutation.Answered.{argument_ok}
use kubling_providers.InMemory.Mutation.Stored.{Keyed}

assign_null_id :
    (name : Bytes) (row next : Task) → assign_null name row ≡ ok next → next.id ≡ row.id
unfolding assign_null
assign_null_id name row next h = ground arith

assign_some_id :
    (name : Bytes) (v : Value) (row next : Task)
    → assign_some name v row ≡ ok next
    → next.id ≡ row.id
unfolding assign_some
assign_some_id name v row next h = ground arith

module _ (lib : Library) where
  apply_assignments_id :
      (row so_far next : Task) (assignments : List Assignment)
      → apply_assignments lib row so_far assignments ≡ ok next
      → next.id ≡ so_far.id
  unfolding apply_assignments assign_task_value
  apply_assignments_id row so_far next [] h = ground arith
  apply_assignments_id row so_far next (a ∷ rest) h =
      let value = argument (evaluate_expression lib (task_row row) a.value) in
      let assigned = λ (v : Value). argument (assign_task_value a.field v so_far) in
      let continue = λ (t : Task). apply_assignments lib row t rest in
      let (v, p, h') = (bind_ok value (λ v. assigned v >>= continue) next).0 h in
      let (after, q, h'') = (bind_ok (assigned v) continue next).0 h' in
      let same : after.id ≡ so_far.id = ground (
        arith,
        argument_ok (assign_task_value a.field v so_far) after q,
        assign_null_id a.field so_far after,
        assign_some_id a.field v so_far after,
      ) in
      apply_assignments_id row after next rest h'' ∙ same

  -- The filter is true on the row; on a row where it fails it is taken as false.
  unfoldable pub selects : Expression → Task → Bool
  selects filter row = elim (evaluate_filter lib (task_row row) filter) [ ok b ↦ b | err e ↦ false ]

  -- The row with the assignments; as it is where they fail.
  unfoldable pub assigned : List Assignment → Task → Task
  assigned assignments row = elim (apply_assignments lib row row assignments) [
    | ok next ↦ next
    | err e ↦ row
  ]

  pub selects_ok :
      (filter : Expression) (row : Task) (b : Bool)
      → argument (evaluate_filter lib (task_row row) filter) ≡ ok b
      → selects filter row ≡ b
  unfolding selects
  selects_ok filter row b h =
      rw (argument_ok (evaluate_filter lib (task_row row) filter) b h, selects) refl

  assigned_ok :
      (assignments : List Assignment) (row next : Task)
      → apply_assignments lib row row assignments ≡ ok next
      → (assigned assignments row ≡ next) × (next.id ≡ row.id)
  unfolding assigned
  assigned_ok assignments row next h =
      (rw (h, assigned) refl, apply_assignments_id row row next assignments h)

  update_rows_cons :
      (context : ℕ → Option ℕ) (filter : Expression) (assignments : List Assignment) (id : Bytes)
      (row : Task) (tasks updated : Map Bytes Task)
      → update_rows lib context filter assignments ((id, row) ∷ tasks) ≡ ok updated
      → (rest : Map Bytes Task) × (update_rows lib (λ n. context (suc n)) filter assignments tasks
          ≡ ok rest)
        × (updated ≡ (if selects filter row then (id, assigned assignments row) ∷ rest else rest))
        × ((selects filter row ≡ true)
            → ((assigned assignments row).id ≡ row.id)
              × (apply_assignments lib row row assignments ≡ ok (assigned assignments row)))
  unfolding update_rows
  update_rows_cons context filter assignments id row tasks updated h =
      let rest = update_rows lib (λ n. context (suc n)) filter assignments tasks in
      let changed = apply_assignments lib row row assignments in
      let more : Task → Map Bytes Task → Result Refusal (Map Bytes Task) =
        λ next others. ok ((id, next) ∷ others) in
      let chosen = λ (matches : Bool). elim matches as (λ b. Result Refusal (Map Bytes Task)) [
        | false ↦ rest
        | true ↦ changed >>= λ next. rest >>= λ others. more next others
      ] in
      let matching = argument (evaluate_filter lib (task_row row) filter) in
      let (u, p, h0) =
        (bind_ok (context_error (context 0)) (λ _. matching >>= chosen) updated).0 h in
      let (b, q, h1) = (bind_ok matching chosen updated).0 h0 in
      elim (Bool-cases b) [
        | inr f ↦
            let h2 : rest ≡ ok updated = rw f at h1 in
            let s : selects filter row ≡ false = selects_ok filter row b q ∙ f in
            (updated, h2, rw s refl, λ t. absurd (cc))
        | inl t ↦
            let h2 : (changed >>= λ next. rest >>= λ others. more next others) ≡ ok updated =
              rw t at h1 in
            let s : selects filter row ≡ true = selects_ok filter row b q ∙ t in
            let (next, c, h3) =
              (bind_ok changed (λ next. rest >>= λ others. more next others) updated).0 h2 in
            let (others, r, h4) = (bind_ok rest (λ others. more next others) updated).0 h3 in
            let (same, kept) = assigned_ok assignments row next c in
            (others, r, rw (s, same) (cc), λ _. rw same (kept, c))
      ]

  -- What an update makes of what is stored under an identifier.
  abbrev pub revised : Expression → List Assignment → Option Task → Option Task
  revised filter assignments none = none
  revised filter assignments (some row) =
      some (if selects filter row then assigned assignments row else row)

  -- the task that an update writes, if it writes one
  abbrev pub written : Expression → List Assignment → Option Task → Option Task
  written filter assignments none = none
  written filter assignments (some row) =
      if selects filter row then some (assigned assignments row) else none

  unfoldable pub count_selected : Expression → Map Bytes Task → ℕ
  count_selected filter [] = 0
  count_selected filter ((id, row) ∷ tasks) =
      (if selects filter row then 1 else 0) + count_selected filter tasks

  pub lookup-update_rows :
      (context : ℕ → Option ℕ) (filter : Expression) (assignments : List Assignment)
      (tasks updated : Map Bytes Task) (id : Bytes)
      → IsMap tasks
      → update_rows lib context filter assignments tasks ≡ ok updated
      → lookup id updated ≡ written filter assignments (lookup id tasks)
  unfolding update_rows lookup
  lookup-update_rows context filter assignments [] updated id m h =
      let same : [] ≡ updated = ground arith in rw (← same) refl
  lookup-update_rows context filter assignments ((k, row) ∷ tasks) updated id m h =
      let (rest, others, e, kept) =
        update_rows_cons context filter assignments k row tasks updated h in
      let ih =
        lookup-update_rows (λ n. context (suc n)) filter assignments tasks rest id m.1 others in
      ground (arith, e, ih, bytes_beq_iff k id, m.0)

  -- An update that succeeds has carried out the assignments on each row that it selects.
  pub update_rows_applies :
      (context : ℕ → Option ℕ) (filter : Expression) (assignments : List Assignment)
      (tasks updated : Map Bytes Task) (id : Bytes) (row : Task)
      → update_rows lib context filter assignments tasks ≡ ok updated
      → lookup id tasks ≡ some row
      → selects filter row ≡ true
      → apply_assignments lib row row assignments ≡ ok (assigned assignments row)
  unfolding lookup
  update_rows_applies context filter assignments [] updated id row h found t = absurd (cc)
  update_rows_applies context filter assignments ((k, first) ∷ tasks) updated id row h found t =
      let (rest, others, e, kept) =
        update_rows_cons context filter assignments k first tasks updated h in
      elim (Bool-cases (bytes_beq k id)) [
        | inl hit ↦
            let same : first ≡ row = some_injective first row (rw hit at found) in
            subst (λ r. apply_assignments lib r r assignments ≡ ok (assigned assignments r)) same
              (kept (rw same t)).1
        | inr miss ↦
            update_rows_applies (λ n. context (suc n)) filter assignments tasks rest id row others
              (rw miss at found) t
      ]

  pub update_rows-IsMap :
      (context : ℕ → Option ℕ) (filter : Expression) (assignments : List Assignment)
      (tasks updated : Map Bytes Task)
      → IsMap tasks
      → All Keyed tasks
      → update_rows lib context filter assignments tasks ≡ ok updated
      → IsMap updated × All Keyed updated × (length updated ≡ count_selected filter tasks)
  unfolding update_rows count_selected
  update_rows-IsMap context filter assignments [] updated m k h =
      let same : [] ≡ updated = ground arith in rw (← same) (tt, tt, refl)
  update_rows-IsMap context filter assignments ((id, row) ∷ tasks) updated m k h =
      let (rest, others, e, kept) =
        update_rows_cons context filter assignments id row tasks updated h in
      let later = λ (n : ℕ). context (suc n) in
      let (is_map, keyed, counted) =
        update_rows-IsMap later filter assignments tasks rest m.1 k.1 others in
      let absent = lookup-update_rows later filter assignments tasks rest id m.1 others in
      elim (Bool-cases (selects filter row)) [
        | inr f ↦
            let e' : updated ≡ rest = rw f at e in
            rw (e', f) (is_map, keyed, omega (arith, counted))
        | inl t ↦
            let e' : updated ≡ (id, assigned assignments row) ∷ rest = rw t at e in
            rw (e', t)
              (
                (absent ∙ ap (written filter assignments) m.0, is_map),
                ((k.0.0 ∙ sym (kept t).0, λ z. k.0.1 (sym (kept t).0 ∙ z)), keyed),
                omega (arith, counted),
              )
      ]

abbrev pub or_else : Option Task → Option Task → Option Task
or_else none o = o
or_else (some t) o = some t

pub lookup-put_all :
    (updated tasks : Map Bytes Task) (id : Bytes)
    → IsMap updated
    → lookup id (put_all updated tasks) ≡ or_else (lookup id updated) (lookup id tasks)
unfolding put_all lookup
lookup-put_all [] tasks id m = refl
lookup-put_all ((k, row) ∷ updated) tasks id m = ground (
  arith,
  lookup-put_all updated (insert k row tasks) id m.1,
  lookup-insert k id row tasks,
  bytes_beq_iff k id,
  m.0,
)
