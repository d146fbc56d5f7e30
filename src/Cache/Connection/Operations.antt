-- ===== src/Cache/Connection/Operations.antt =====
-- The calls on a cached connection as one step function, and what it keeps.
use kubling_providers.Base.{
  ◌≡◌, refl, [], ◌∷◌, Option, none, some, Bool, true, false, Bytes, bytes_eq, arith,
}
use kubling_providers.Messages.{
  EntityReference, TransactionBranchId, TransactionBranchState, TransactionPrepareOutcome,
  outcome_unspecified, outcome_prepared, outcome_read_only, unknown_outcome,
}
use kubling_providers.Cache.Connection.{
  CachedConnection, World, entity_name, record_mutation, mutate, begin, commit, rollback,
  in_transaction, close, prepare_branch, end_branch,
}

pub data Operation : Type 0 where
  mutates : Option EntityReference → Bool → Operation
  begins commits rolls_back : Bool → Operation
  asks : Option Bool → Operation
  closes : Operation
  prepares : TransactionBranchId → Option TransactionPrepareOutcome → Operation
  ends : Option TransactionBranchState → Operation

unfoldable pub perform : World → Operation → World
perform w (mutates reference succeeded) = mutate w reference succeeded
perform w (begins succeeded) = begin w succeeded
perform w (commits succeeded) = commit w succeeded
perform w (rolls_back succeeded) = rollback w succeeded
perform w (asks reply) = in_transaction w reply
perform w closes = close w
perform w (prepares branch reply) = prepare_branch w branch reply
perform w (ends reply) = end_branch w reply

-- Outside a transaction nothing is pending, and "everything" stands alone.
pub record IsClean (c : CachedConnection) : Type 0 where
  pub idle : c.transaction_active ≡ false → (c.pending_entities ≡ []) × (c.pending_all ≡ false)
  pub alone : c.pending_all ≡ true → c.pending_entities ≡ []

record_mutation-IsClean :
    (w : World) (entity : Bytes)
    → IsClean w.connection
    → IsClean (record_mutation w entity).connection
unfolding record_mutation
record_mutation-IsClean w [] v = record {
  idle = ground (arith, v.idle);
  alone = ground (arith, v.alone);
}
record_mutation-IsClean w (b ∷ bs) v = record {
  idle = ground (arith, v.idle);
  alone = ground (arith, v.alone);
}

-- Every call on a clean connection leaves it clean: outside a transaction nothing is pending, and an
-- invalidation of everything stands alone.
pub perform-IsClean :
    (w : World) (op : Operation) → IsClean w.connection → IsClean (perform w op).connection
unfolding perform begin commit rollback in_transaction close prepare_branch end_branch
perform-IsClean w (mutates reference true) v =
    unfold mutate in record_mutation-IsClean w (entity_name reference) v
perform-IsClean w (mutates reference false) v = unfold mutate in v
perform-IsClean w (begins true) v = record { idle = ground arith; alone = ground (arith, v.alone) }
perform-IsClean w (begins false) v = v
perform-IsClean w (commits true) v = record { idle = λ _. (refl, refl); alone = λ _. refl }
perform-IsClean w (commits false) v = v
perform-IsClean w (rolls_back true) v = record { idle = λ _. (refl, refl); alone = λ _. refl }
perform-IsClean w (rolls_back false) v = v
perform-IsClean w (asks none) v = v
perform-IsClean w (asks (some true)) v = record { idle = λ e. cc; alone = v.alone }
perform-IsClean w (asks (some false)) v = record { idle = ground arith; alone = ground arith }
perform-IsClean w closes v = record { idle = ground arith; alone = ground arith }
perform-IsClean w (prepares branch none) v = v
perform-IsClean w (prepares branch (some outcome_prepared)) v = record {
  idle = λ _. (refl, refl);
  alone = λ _. refl;
}
perform-IsClean w (prepares branch (some outcome_read_only)) v = record {
  idle = λ _. (refl, refl);
  alone = λ _. refl;
}
perform-IsClean w (prepares branch (some outcome_unspecified)) v = v
perform-IsClean w (prepares branch (some (unknown_outcome n))) v = v
perform-IsClean w (ends none) v = v
perform-IsClean w (ends (some state)) v = record { idle = ground arith; alone = ground arith }
