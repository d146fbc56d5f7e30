-- ===== src/InMemory/Mutation/Assigned.antt =====
-- The fields of a task after its assignments (Connection.Update and assignTaskValue,
-- providers/inmemory/mutation.go), each field told by itself.
use kubling_providers.Base.{
  ◌≡◌, ◌∙◌, ap, subst, ℤ, Bool, true, false, Option, none, some, Bytes, codes, bytes_beq,
  bytes_beq_iff, to_lower, lower_byte, Result, ok, arith, Bool-cases, inl, inr,
}
use kubling_providers.InMemory.Values.{
  Value, string_value, boolean_value, integer_value, clob_value, float_value, timestamp_value,
  is_null,
}
use kubling_providers.InMemory.Model.{Task, equal_name}
use kubling_providers.InMemory.Parse.{
  ParseFault, assign_null, assign_some, assign_task_value, string_from_value, boolean_from_value,
  integer_from_value, clob_from_value, float_from_value, timestamp_from_value,
}
use kubling_providers.InMemory.Mutation.Typed.{
  parsed_ok, string_from_value-same, boolean_from_value-same, integer_from_value-same,
  clob_from_value-same, float_from_value-same, timestamp_from_value-same,
}

-- A field that may be null has this value: null, or a content that `of` makes a value.
abbrev pub IsNullable : (Bytes → Value) → Value → Option Bytes → Type 0
IsNullable of v none = is_null v ≡ true
IsNullable of v (some s) = v ≡ of s

abbrev pub clob_of : Bytes → Value
clob_of s = clob_value (some s)

ok_same : (a b : Task) → ◌≡◌ {A = Result ParseFault Task} (ok a) (ok b) → a ≡ b
ok_same a b h = cc

abbrev project_id_of : Task → Bytes
project_id_of t = t.project_id

abbrev title_of : Task → Bytes
title_of t = t.title

abbrev description_of : Task → Option Bytes
description_of t = t.description

abbrev completed_of : Task → Bool
completed_of t = t.completed

abbrev priority_of : Task → ℤ
priority_of t = t.priority

abbrev estimate_hours_of : Task → Option Bytes
estimate_hours_of t = t.estimate_hours

abbrev due_at_of : Task → Option Bytes
due_at_of t = t.due_at

-- `project_id`, assigned and not
pub assigned_project_id :
    (name : Bytes) (v : Value) (before after : Task)
    → assign_task_value name v before ≡ ok after
    → equal_name name (codes "project_id") ≡ true
    → v ≡ string_value after.project_id
unfolding assign_task_value assign_null assign_some equal_name bytes_beq to_lower lower_byte
assigned_project_id name v before after h hit =
    let e = (bytes_beq_iff (to_lower name) (codes "project_id")).0 hit in
    elim (Bool-cases (is_null v)) [
      | inl nothing ↦ absurd (cc (rw (nothing, e, assign_task_value, assign_null, equal_name) at h))
      | inr there ↦
          let (s, q, same) =
            parsed_ok (string_from_value v) (λ s. record before { project_id = s }) after
              (rw (there, e, assign_task_value, assign_some, equal_name) at h) in
          string_from_value-same v s q ∙ ap string_value (ap project_id_of same)
    ]

pub kept_project_id :
    (name : Bytes) (v : Value) (before after : Task)
    → assign_task_value name v before ≡ ok after
    → equal_name name (codes "project_id") ≡ false
    → after.project_id ≡ before.project_id
unfolding assign_task_value assign_null assign_some
kept_project_id name v before after h miss = ground arith

-- `title`, assigned and not
pub assigned_title :
    (name : Bytes) (v : Value) (before after : Task)
    → assign_task_value name v before ≡ ok after
    → equal_name name (codes "title") ≡ true
    → v ≡ string_value after.title
unfolding assign_task_value assign_null assign_some equal_name bytes_beq to_lower lower_byte
assigned_title name v before after h hit =
    let e = (bytes_beq_iff (to_lower name) (codes "title")).0 hit in
    elim (Bool-cases (is_null v)) [
      | inl nothing ↦ absurd (cc (rw (nothing, e, assign_task_value, assign_null, equal_name) at h))
      | inr there ↦
          let (s, q, same) =
            parsed_ok (string_from_value v) (λ s. record before { title = s }) after
              (rw (there, e, assign_task_value, assign_some, equal_name) at h) in
          string_from_value-same v s q ∙ ap string_value (ap title_of same)
    ]

pub kept_title :
    (name : Bytes) (v : Value) (before after : Task)
    → assign_task_value name v before ≡ ok after
    → equal_name name (codes "title") ≡ false
    → after.title ≡ before.title
unfolding assign_task_value assign_null assign_some
kept_title name v before after h miss = ground arith

-- `description`, assigned and not
pub assigned_description :
    (name : Bytes) (v : Value) (before after : Task)
    → assign_task_value name v before ≡ ok after
    → equal_name name (codes "description") ≡ true
    → IsNullable clob_of v after.description
unfolding assign_task_value assign_null assign_some equal_name bytes_beq to_lower lower_byte
assigned_description name v before after h hit =
    let e = (bytes_beq_iff (to_lower name) (codes "description")).0 hit in
    elim (Bool-cases (is_null v)) [
      | inl nothing ↦
          let same : none ≡ after.description = ap description_of (
            ok_same (record before { description = none }) after
              (rw (nothing, e, assign_task_value, assign_null, equal_name) at h)) in
          subst (IsNullable clob_of v) same nothing
      | inr there ↦
          let (s, q, same) =
            parsed_ok (clob_from_value v) (λ s. record before { description = some s }) after
              (rw (there, e, assign_task_value, assign_some, equal_name) at h) in
          subst (IsNullable clob_of v) (ap description_of same) (clob_from_value-same v s q)
    ]

pub kept_description :
    (name : Bytes) (v : Value) (before after : Task)
    → assign_task_value name v before ≡ ok after
    → equal_name name (codes "description") ≡ false
    → after.description ≡ before.description
unfolding assign_task_value assign_null assign_some
kept_description name v before after h miss = ground arith

-- `completed`, assigned and not
pub assigned_completed :
    (name : Bytes) (v : Value) (before after : Task)
    → assign_task_value name v before ≡ ok after
    → equal_name name (codes "completed") ≡ true
    → v ≡ boolean_value after.completed
unfolding assign_task_value assign_null assign_some equal_name bytes_beq to_lower lower_byte
assigned_completed name v before after h hit =
    let e = (bytes_beq_iff (to_lower name) (codes "completed")).0 hit in
    elim (Bool-cases (is_null v)) [
      | inl nothing ↦ absurd (cc (rw (nothing, e, assign_task_value, assign_null, equal_name) at h))
      | inr there ↦
          let (s, q, same) =
            parsed_ok (boolean_from_value v) (λ s. record before { completed = s }) after
              (rw (there, e, assign_task_value, assign_some, equal_name) at h) in
          boolean_from_value-same v s q ∙ ap boolean_value (ap completed_of same)
    ]

pub kept_completed :
    (name : Bytes) (v : Value) (before after : Task)
    → assign_task_value name v before ≡ ok after
    → equal_name name (codes "completed") ≡ false
    → after.completed ≡ before.completed
unfolding assign_task_value assign_null assign_some
kept_completed name v before after h miss = ground arith

-- `priority`, assigned and not
pub assigned_priority :
    (name : Bytes) (v : Value) (before after : Task)
    → assign_task_value name v before ≡ ok after
    → equal_name name (codes "priority") ≡ true
    → v ≡ integer_value after.priority
unfolding assign_task_value assign_null assign_some equal_name bytes_beq to_lower lower_byte
assigned_priority name v before after h hit =
    let e = (bytes_beq_iff (to_lower name) (codes "priority")).0 hit in
    elim (Bool-cases (is_null v)) [
      | inl nothing ↦ absurd (cc (rw (nothing, e, assign_task_value, assign_null, equal_name) at h))
      | inr there ↦
          let (s, q, same) =
            parsed_ok (integer_from_value v) (λ s. record before { priority = s }) after
              (rw (there, e, assign_task_value, assign_some, equal_name) at h) in
          integer_from_value-same v s q ∙ ap integer_value (ap priority_of same)
    ]

pub kept_priority :
    (name : Bytes) (v : Value) (before after : Task)
    → assign_task_value name v before ≡ ok after
    → equal_name name (codes "priority") ≡ false
    → after.priority ≡ before.priority
unfolding assign_task_value assign_null assign_some
kept_priority name v before after h miss = ground arith

-- `estimate_hours`, assigned and not
pub assigned_estimate_hours :
    (name : Bytes) (v : Value) (before after : Task)
    → assign_task_value name v before ≡ ok after
    → equal_name name (codes "estimate_hours") ≡ true
    → IsNullable float_value v after.estimate_hours
unfolding assign_task_value assign_null assign_some equal_name bytes_beq to_lower lower_byte
assigned_estimate_hours name v before after h hit =
    let e = (bytes_beq_iff (to_lower name) (codes "estimate_hours")).0 hit in
    elim (Bool-cases (is_null v)) [
      | inl nothing ↦
          let same : none ≡ after.estimate_hours = ap estimate_hours_of (
            ok_same (record before { estimate_hours = none }) after
              (rw (nothing, e, assign_task_value, assign_null, equal_name) at h)) in
          subst (IsNullable float_value v) same nothing
      | inr there ↦
          let (s, q, same) =
            parsed_ok (float_from_value v) (λ s. record before { estimate_hours = some s }) after
              (rw (there, e, assign_task_value, assign_some, equal_name) at h) in
          subst (IsNullable float_value v) (ap estimate_hours_of same) (float_from_value-same v s q)
    ]

pub kept_estimate_hours :
    (name : Bytes) (v : Value) (before after : Task)
    → assign_task_value name v before ≡ ok after
    → equal_name name (codes "estimate_hours") ≡ false
    → after.estimate_hours ≡ before.estimate_hours
unfolding assign_task_value assign_null assign_some
kept_estimate_hours name v before after h miss = ground arith

-- `due_at`, assigned and not
pub assigned_due_at :
    (name : Bytes) (v : Value) (before after : Task)
    → assign_task_value name v before ≡ ok after
    → equal_name name (codes "due_at") ≡ true
    → IsNullable timestamp_value v after.due_at
unfolding assign_task_value assign_null assign_some equal_name bytes_beq to_lower lower_byte
assigned_due_at name v before after h hit =
    let e = (bytes_beq_iff (to_lower name) (codes "due_at")).0 hit in
    elim (Bool-cases (is_null v)) [
      | inl nothing ↦
          let same : none ≡ after.due_at = ap due_at_of (
            ok_same (record before { due_at = none }) after
              (rw (nothing, e, assign_task_value, assign_null, equal_name) at h)) in
          subst (IsNullable timestamp_value v) same nothing
      | inr there ↦
          let (s, q, same) =
            parsed_ok (timestamp_from_value v) (λ s. record before { due_at = some s }) after
              (rw (there, e, assign_task_value, assign_some, equal_name) at h) in
          subst (IsNullable timestamp_value v) (ap due_at_of same) (timestamp_from_value-same v s q)
    ]

pub kept_due_at :
    (name : Bytes) (v : Value) (before after : Task)
    → assign_task_value name v before ≡ ok after
    → equal_name name (codes "due_at") ≡ false
    → after.due_at ≡ before.due_at
unfolding assign_task_value assign_null assign_some
kept_due_at name v before after h miss = ground arith
