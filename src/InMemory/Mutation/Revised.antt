-- ===== src/InMemory/Mutation/Revised.antt =====
-- The task that the assignments of an update make of a row (Connection.Update,
-- providers/inmemory/mutation.go).
use kubling_providers.Base.{
  ◌≡◌, refl, ◌∙◌, subst, true, false, List, [], ◌∷◌, Bytes, codes, ok, ◌>>=◌, bind_ok, arith,
  Bool-cases, inl, inr,
}
use kubling_providers.InMemory.Values.{
  Value, string_value, boolean_value, integer_value, float_value, timestamp_value,
}
use kubling_providers.InMemory.Model.{Task, task_row, equal_name}
use kubling_providers.InMemory.Evaluate.{evaluate_expression}
use kubling_providers.InMemory.Evaluate.Aggregates.{Library}
use kubling_providers.InMemory.Parse.{Assignment, assign_task_value, assign_null, assign_some}
use kubling_providers.InMemory.Mutation.{argument, apply_assignments}
use kubling_providers.InMemory.Mutation.Answered.{argument_ok}
use kubling_providers.InMemory.Mutation.Assigned.{
  IsNullable, clob_of, assigned_project_id, kept_project_id, assigned_title, kept_title,
  assigned_description, kept_description, assigned_completed, kept_completed, assigned_priority,
  kept_priority, assigned_estimate_hours, kept_estimate_hours, assigned_due_at, kept_due_at,
}

kept_id :
    (name : Bytes) (v : Value) (before after : Task)
    → assign_task_value name v before ≡ ok after
    → after.id ≡ before.id
unfolding assign_task_value assign_null assign_some
kept_id name v before after h = ground arith

module _ (lib : Library) where
  -- What one field becomes: each assignment to it, in their order, has a value on the row as it was, and the
  -- field has that value; the other assignments leave it.
  abbrev pub After :
      {B : Type 0} → (Value → B → Type 0) → Bytes → Task → List Assignment → B → B → Type 0
  After Has name row [] old new = new ≡ old
  After {B} Has name row (a ∷ rest) old new = elim (equal_name a.field name) [
    | true ↦
        (v : Value) × (mid : B) × (evaluate_expression lib (task_row row) a.value ≡ ok v)
        × Has v mid
        × After Has name row rest mid new
    | false ↦ After Has name row rest old new
  ]

  After-cons :
      {B : Type 0} (Has : Value → B → Type 0) (name : Bytes) (row : Task) (a : Assignment)
      (rest : List Assignment) (v : Value) (old mid new : B)
      → evaluate_expression lib (task_row row) a.value ≡ ok v
      → (equal_name a.field name ≡ true → Has v mid)
      → (equal_name a.field name ≡ false → mid ≡ old)
      → After Has name row rest mid new
      → After Has name row (a ∷ rest) old new
  After-cons Has name row a rest v old mid new e has keeps more =
      elim (Bool-cases (equal_name a.field name)) [
        | inl hit ↦ rw (hit, After) (v, mid, e, has hit, more)
        | inr miss ↦ rw (miss, After) (subst (λ m. After Has name row rest m new) (keeps miss) more)
      ]

  -- `next` is `before` with the assignments of `row`, field by field.
  pub record IsAssigned (row before next : Task) (assignments : List Assignment) : Type 0 where
    pub id : next.id ≡ before.id
    pub project_id :
        After
          (λ v s. v ≡ string_value s)
          (codes "project_id")
          row
          assignments
          before.project_id
          next.project_id
    pub title :
        After (λ v s. v ≡ string_value s) (codes "title") row assignments before.title next.title
    pub description :
        After
          (IsNullable clob_of)
          (codes "description")
          row
          assignments
          before.description
          next.description
    pub completed :
        After
          (λ v s. v ≡ boolean_value s)
          (codes "completed")
          row
          assignments
          before.completed
          next.completed
    pub priority :
        After
          (λ v s. v ≡ integer_value s)
          (codes "priority")
          row
          assignments
          before.priority
          next.priority
    pub estimate_hours :
        After
          (IsNullable float_value)
          (codes "estimate_hours")
          row
          assignments
          before.estimate_hours
          next.estimate_hours
    pub due_at :
        After
          (IsNullable timestamp_value)
          (codes "due_at")
          row
          assignments
          before.due_at
          next.due_at

  pub apply_assignments-IsAssigned :
      (row before next : Task) (assignments : List Assignment)
      → apply_assignments lib row before assignments ≡ ok next
      → IsAssigned row before next assignments
  unfolding apply_assignments
  apply_assignments-IsAssigned row before next [] h =
      let same : before ≡ next = ground arith in
      rw (← same) (record {
        id = refl;
        project_id = refl;
        title = refl;
        description = refl;
        completed = refl;
        priority = refl;
        estimate_hours = refl;
        due_at = refl;
      })
  apply_assignments-IsAssigned row before next (a ∷ rest) h =
      let value = argument (evaluate_expression lib (task_row row) a.value) in
      let assigned = λ (v : Value). argument (assign_task_value a.field v before) in
      let continue = λ (t : Task). apply_assignments lib row t rest in
      let (v, p, h') = (bind_ok value (λ v. assigned v >>= continue) next).0 h in
      let (after, q, h'') = (bind_ok (assigned v) continue next).0 h' in
      let e = argument_ok (evaluate_expression lib (task_row row) a.value) v p in
      let done = argument_ok (assign_task_value a.field v before) after q in
      let g = apply_assignments-IsAssigned row after next rest h'' in
      record {
        id = g.id ∙ kept_id a.field v before after done;
        project_id =
            After-cons (λ v s. v ≡ string_value s) (codes "project_id") row a rest v
              before.project_id after.project_id next.project_id e
              (assigned_project_id a.field v before after done)
              (kept_project_id a.field v before after done) g.project_id;
        title =
            After-cons (λ v s. v ≡ string_value s) (codes "title") row a rest v before.title
              after.title next.title e (assigned_title a.field v before after done)
              (kept_title a.field v before after done) g.title;
        description =
            After-cons (IsNullable clob_of) (codes "description") row a rest v before.description
              after.description next.description e
              (assigned_description a.field v before after done)
              (kept_description a.field v before after done) g.description;
        completed =
            After-cons (λ v s. v ≡ boolean_value s) (codes "completed") row a rest v
              before.completed after.completed next.completed e
              (assigned_completed a.field v before after done)
              (kept_completed a.field v before after done) g.completed;
        priority =
            After-cons (λ v s. v ≡ integer_value s) (codes "priority") row a rest v before.priority
              after.priority next.priority e (assigned_priority a.field v before after done)
              (kept_priority a.field v before after done) g.priority;
        estimate_hours =
            After-cons (IsNullable float_value) (codes "estimate_hours") row a rest v
              before.estimate_hours after.estimate_hours next.estimate_hours e
              (assigned_estimate_hours a.field v before after done)
              (kept_estimate_hours a.field v before after done) g.estimate_hours;
        due_at =
            After-cons (IsNullable timestamp_value) (codes "due_at") row a rest v before.due_at
              after.due_at next.due_at e (assigned_due_at a.field v before after done)
              (kept_due_at a.field v before after done) g.due_at;
      }
