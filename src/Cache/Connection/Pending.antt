-- ===== src/Cache/Connection/Pending.antt =====
-- No invalidation that a connection's mutation owes is lost.
use kubling_providers.Base.{
  ◌≡◌, refl, sym, subst, ◌∙◌, ◌⊎◌, inl, inr, [], ◌∷◌, none, some, true, false, IsMap, Bytes,
  bytes_eq, In, Bool-cases, arith,
}
use kubling_providers.Messages.{
  outcome_unspecified, outcome_prepared, outcome_read_only, unknown_outcome, TransactionBranchState,
  state_unspecified, active, prepared, read_only, committed, rolled_back, heuristic_commit,
  heuristic_rollback, heuristic_mixed, heuristic_hazard, not_found, unknown_state,
}
use kubling_providers.Cache.State.{CacheState, EntitySet, members, invalidate_entities}
use kubling_providers.Cache.State.Expand.{is_empty}
use kubling_providers.Cache.State.Moved.{
  Moved, invalidate_all-Moved, invalidate_entities-Moved, members-insert,
}
use kubling_providers.Cache.State.Branches.{Held, retain-Held}
use kubling_providers.Cache.Connection.{
  CachedConnection, World, entity_name, record_mutation, mutate, invalidate_pending,
  branch_state_may_have_committed, begin, commit, rollback, in_transaction, close, prepare_branch,
  end_branch,
}
use kubling_providers.Cache.Connection.Operations.{
  Operation, mutates, begins, commits, rolls_back, asks, closes, prepares, ends, perform, IsClean,
}

-- The connection owes an invalidation of `e`.
abbrev pub Pending : CachedConnection → Bytes → Type 0
Pending c e = (c.pending_all ≡ true) ⊎ In e (members c.pending_entities)

pub invalidate_pending-Moved :
    (c : CachedConnection) (s : CacheState) (e : Bytes)
    → IsMap s.dependencies
    → is_empty e ≡ false
    → Pending c e
    → Moved s (invalidate_pending c s) e
unfolding invalidate_pending
invalidate_pending-Moved c s e m n owed = elim (Bool-cases c.pending_all) [
  | inl all ↦ rw all (invalidate_all-Moved s e)
  | inr some_only ↦ rw some_only (by_name c.pending_entities (named owed some_only))
]
  where
    named : Pending c e → c.pending_all ≡ false → In e (members c.pending_entities)
    named (inl all) p = absurd (ground arith)
    named (inr i) p = i

    by_name :
        (set : EntitySet)
        → In e (members set)
        → Moved s (elim set [ [] ↦ s | p ∷ rest ↦ invalidate_entities s (members (p ∷ rest)) ]) e
    by_name [] i = absurd i
    by_name (p ∷ rest) i = invalidate_entities-Moved s (members (p ∷ rest)) e m n i

-- The call retains the invalidation with its branch.
abbrev pub RetainedBy : Operation → CacheState → Bytes → Type 0
RetainedBy (prepares branch (some outcome_prepared)) s e = Held s branch e
RetainedBy _ s e = ⊥

-- A branch in this state has ended, and nothing of it was committed.
abbrev pub NothingCommitted : TransactionBranchState → Type 0
NothingCommitted read_only = Unit
NothingCommitted rolled_back = Unit
NothingCommitted heuristic_rollback = Unit
NothingCommitted _ = ⊥

-- The state does not tell how a branch ended: it has not ended, or the state is none that the cache knows.
abbrev pub IsUnresolved : TransactionBranchState → Type 0
IsUnresolved state_unspecified = Unit
IsUnresolved active = Unit
IsUnresolved prepared = Unit
IsUnresolved (unknown_state n) = Unit
IsUnresolved _ = ⊥

pub not_committed-cases :
    (state : TransactionBranchState)
    → branch_state_may_have_committed state ≡ false
    → NothingCommitted state ⊎ IsUnresolved state
unfolding branch_state_may_have_committed
not_committed-cases state_unspecified p = inr tt
not_committed-cases active p = inr tt
not_committed-cases prepared p = inr tt
not_committed-cases read_only p = inl tt
not_committed-cases committed p = absurd (ground arith)
not_committed-cases rolled_back p = inl tt
not_committed-cases heuristic_commit p = absurd (ground arith)
not_committed-cases heuristic_rollback p = inl tt
not_committed-cases heuristic_mixed p = absurd (ground arith)
not_committed-cases heuristic_hazard p = absurd (ground arith)
not_committed-cases not_found p = absurd (ground arith)
not_committed-cases (unknown_state n) p = inr tt

-- The source reports that nothing was committed.
abbrev pub ReportsNothing : Operation → Type 0
ReportsNothing (rolls_back true) = Unit
ReportsNothing (prepares branch (some outcome_read_only)) = Unit
ReportsNothing (ends (some state)) = NothingCommitted state
ReportsNothing _ = ⊥

-- The source answers the end of a branch with a state that is no end.
abbrev pub EndsUnresolved : Operation → Type 0
EndsUnresolved (ends (some state)) = IsUnresolved state
EndsUnresolved _ = ⊥

-- What one call does with an invalidation that is pending.
abbrev pub Accounts : World → Operation → Bytes → Type 0
Accounts w op e =
    Pending (perform w op).connection e
    ⊎ Moved w.state (perform w op).state e
    ⊎ RetainedBy op (perform w op).state e
    ⊎ ReportsNothing op
    ⊎ EndsUnresolved op

record_mutation-Pending :
    (w : World) (entity e : Bytes)
    → w.connection.transaction_active ≡ true
    → Pending w.connection e
    → Pending (record_mutation w entity).connection e
unfolding record_mutation
record_mutation-Pending w [] e busy owed = rw busy (inl refl)
record_mutation-Pending w (b ∷ bs) e busy owed =
    rw busy (elim (Bool-cases w.connection.pending_all) [
      | inl all ↦ rw all (inl refl)
      | inr named ↦ rw named (elim owed [
        | inl all ↦ inl (sym named ∙ all)
        | inr i ↦ inr (members-insert (b ∷ bs) e w.connection.pending_entities i)
      ])
    ])

-- A connection with something pending is in a transaction.
Pending-active :
    (c : CachedConnection) (e : Bytes) → IsClean c → Pending c e → c.transaction_active ≡ true
Pending-active c e v owed = elim (Bool-cases c.transaction_active) [
  | inl busy ↦ busy
  | inr idle ↦ absurd (nothing (v.idle idle) owed)
]
  where
    nothing : (c.pending_entities ≡ []) × (c.pending_all ≡ false) → Pending c e → ⊥
    nothing (p, q) (inl all) = ground arith
    nothing (p, q) (inr i) = subst (λ (m : EntitySet). In e (members m)) p i

-- Where the dependency map has each key once, an invalidation of an entity with a key that is
-- pending in a clean connection is, after any call, still pending, or carried out (a generation that
-- the entity's cached results are kept under has moved), or retained with the branch that was
-- prepared. It is dropped only where the source reports that nothing was committed: a rollback that
-- succeeded, a branch prepared as read-only, or a branch that ended read-only, rolled back or
-- heuristically rolled back; or where the source answers the end of a branch with a state that is no end:
-- unspecified, active, prepared or unknown.
pub perform-Accounts :
    (w : World) (op : Operation) (e : Bytes)
    → IsClean w.connection
    → IsMap w.state.dependencies
    → is_empty e ≡ false
    → Pending w.connection e
    → Accounts w op e
unfolding perform
perform-Accounts w (mutates reference false) e v m n owed = unfold mutate in inl owed
perform-Accounts w (mutates reference true) e v m n owed =
    unfold mutate in
    inl (
      record_mutation-Pending w (entity_name reference) e (Pending-active w.connection e v owed)
        owed)
perform-Accounts w (begins true) e v m n owed =
    unfold begin in inl (rw (Pending-active w.connection e v owed) owed)
perform-Accounts w (begins false) e v m n owed = unfold begin in inl owed
perform-Accounts w (commits true) e v m n owed =
    unfold commit in inr (inl (invalidate_pending-Moved w.connection w.state e m n owed))
perform-Accounts w (commits false) e v m n owed = unfold commit in inl owed
perform-Accounts w (rolls_back true) e v m n owed = inr (inr (inr (inl tt)))
perform-Accounts w (rolls_back false) e v m n owed = unfold rollback in inl owed
perform-Accounts w (asks none) e v m n owed = unfold in_transaction in inl owed
perform-Accounts w (asks (some true)) e v m n owed = unfold in_transaction in inl owed
perform-Accounts w (asks (some false)) e v m n owed =
    unfold in_transaction in
    inr (
      inl (
        rw (Pending-active w.connection e v owed)
          (invalidate_pending-Moved w.connection w.state e m n owed)))
perform-Accounts w closes e v m n owed =
    unfold close in
    inr (
      inl (
        rw (Pending-active w.connection e v owed)
          (invalidate_pending-Moved w.connection w.state e m n owed)))
perform-Accounts w (prepares branch none) e v m n owed = unfold prepare_branch in inl owed
perform-Accounts w (prepares branch (some outcome_prepared)) e v m n owed =
    unfold prepare_branch in
    inr (
      inr (
        inl (
          retain-Held w.state branch w.connection.pending_entities w.connection.pending_all e
            owed)))
perform-Accounts w (prepares branch (some outcome_read_only)) e v m n owed =
    inr (inr (inr (inl tt)))
perform-Accounts w (prepares branch (some outcome_unspecified)) e v m n owed =
    unfold prepare_branch in inl owed
perform-Accounts w (prepares branch (some (unknown_outcome k))) e v m n owed =
    unfold prepare_branch in inl owed
perform-Accounts w (ends none) e v m n owed = unfold end_branch in inl owed
perform-Accounts w (ends (some state)) e v m n owed =
    elim (Bool-cases (branch_state_may_have_committed state)) [
      | inl may ↦ inr (
          inl (
            unfold end_branch in rw may (invalidate_pending-Moved w.connection w.state e m n owed)))
      | inr never ↦ elim (not_committed-cases state never) [
        | inl nothing ↦ inr (inr (inr (inl nothing)))
        | inr open_yet ↦ inr (inr (inr (inr open_yet)))
      ]
    ]
