-- ===== src/Cache/Connection.antt =====
-- A cached connection: mutations, local transactions and durable branches
-- (sdk-go/provider/cache/mutation.go, transaction.go, transaction_recovery.go). What the wrapped
-- connection or recovery manager replies is an argument of each call. A call runs under the
-- connection's mutex, so it is one step on the connection and on the shared state. A nil set of
-- pending entities is the empty one.
pub mod Operations
pub mod Pending
pub mod Retained
use kubling_providers.Base
use kubling_providers.Base.{
  List, [], ◌∷◌, Option, none, some, Bool, true, false, Bytes, bytes_eq, Result, ok, err,
  if◌then◌else◌,
}
use kubling_providers.Messages.{
  EntityReference, TransactionBranchId, TransactionBranchState, committed, heuristic_commit,
  heuristic_mixed, heuristic_hazard, not_found, TransactionPrepareOutcome, outcome_prepared,
  outcome_read_only,
}
use kubling_providers.Cache.State.{
  CacheState, EntitySet, members, invalidate_entities, invalidate_all, retain_branch_invalidation,
  resolve_branch_invalidation, discard_branch_invalidation,
}
use kubling_providers.Cache.Entities.{normalized_entity_key}

pub record CachedConnection : Type 0 where
  pub transaction_active : Bool
  pub pending_entities : EntitySet
  pub pending_all : Bool

-- one connection with the state that it shares
pub record World : Type 0 where
  pub connection : CachedConnection
  pub state : CacheState

unfoldable pub entity_name : Option EntityReference → Bytes
entity_name reference = elim (normalized_entity_key reference) [ ok key ↦ key | err _ ↦ [] ]

unfoldable pub record_mutation : World → Bytes → World
record_mutation w entity =
    let c = w.connection in
    if c.transaction_active
    then (elim entity [
      | [] ↦ record w { connection = record c { pending_all = true; pending_entities = [] } }
      | b ∷ bs ↦ if c.pending_all then w else record w {
        connection = record c { pending_entities = Base.insert (b ∷ bs) tt c.pending_entities };
      }
    ])
    else (elim entity [
      | [] ↦ record w { state = invalidate_all w.state }
      | b ∷ bs ↦ record w { state = invalidate_entities w.state ((b ∷ bs) ∷ []) }
    ])

-- Insert, Update and Delete: `succeeded` tells whether the wrapped call returned no error.
unfoldable pub mutate : World → Option EntityReference → Bool → World
unfolding entity_name record_mutation
mutate w reference succeeded = if succeeded then record_mutation w (entity_name reference) else w

unfoldable pub invalidate_pending : CachedConnection → CacheState → CacheState
invalidate_pending c s = if c.pending_all then invalidate_all s else (elim c.pending_entities [
  | [] ↦ s
  | p ∷ rest ↦ invalidate_entities s (members (p ∷ rest))
])

unfoldable pub clear_pending : CachedConnection → CachedConnection
clear_pending c = record c { pending_entities = []; pending_all = false }

-- the pending invalidations are carried out, and stay pending
abbrev pub invalidated : World → World
invalidated w = record w { state = invalidate_pending w.connection w.state }

-- the connection leaves its transaction
abbrev pub left : World → World
left w = record w {
  connection = clear_pending (record w.connection { transaction_active = false });
}

-- Begin and BeginBranch
unfoldable pub begin : World → Bool → World
unfolding clear_pending
begin w succeeded =
    let c = w.connection in
    let active = record c { transaction_active = true } in
    if succeeded
    then (if c.transaction_active
        then record w { connection = active }
        else record w { connection = clear_pending active })
    else w

unfoldable pub commit : World → Bool → World
unfolding invalidate_pending clear_pending
commit w succeeded = if succeeded then left (invalidated w) else invalidated w

unfoldable pub rollback : World → Bool → World
unfolding invalidate_pending clear_pending
rollback w succeeded = if succeeded then left w else invalidated w

-- InTransaction: the wrapped connection's answer, or `none` for its error.
unfoldable pub in_transaction : World → Option Bool → World
unfolding invalidate_pending clear_pending
in_transaction w none = w
in_transaction w (some true) = record w {
  connection = record w.connection { transaction_active = true };
}
in_transaction w (some false) =
    if w.connection.transaction_active then left (invalidated w) else left w

unfoldable pub close : World → World
unfolding invalidate_pending clear_pending
close w = if w.connection.transaction_active then left (invalidated w) else left w

unfoldable pub prepare_branch :
    World → TransactionBranchId → Option TransactionPrepareOutcome → World
unfolding invalidate_pending clear_pending
prepare_branch w branch none = invalidated w
prepare_branch w branch (some outcome_prepared) = left (record w {
  state =
      retain_branch_invalidation w.state branch w.connection.pending_entities
        w.connection.pending_all;
})
prepare_branch w branch (some outcome_read_only) = left w
prepare_branch w branch (some _) = invalidated w

unfoldable pub branch_state_may_have_committed : TransactionBranchState → Bool
branch_state_may_have_committed committed = true
branch_state_may_have_committed heuristic_commit = true
branch_state_may_have_committed heuristic_mixed = true
branch_state_may_have_committed heuristic_hazard = true
branch_state_may_have_committed not_found = true
branch_state_may_have_committed _ = false

-- CommitBranch and RollbackBranch of the connection: the state it reports, or `none` for an error.
unfoldable pub end_branch : World → Option TransactionBranchState → World
unfolding invalidate_pending clear_pending branch_state_may_have_committed
end_branch w none = invalidated w
end_branch w (some state) =
    if branch_state_may_have_committed state then left (invalidated w) else left w

-- CommitBranch and RollbackBranch of the recovery manager
unfoldable pub resolve_branch :
    CacheState → TransactionBranchId → Option TransactionBranchState → CacheState
unfolding branch_state_may_have_committed
resolve_branch s branch none = resolve_branch_invalidation s branch true
resolve_branch s branch (some state) =
    resolve_branch_invalidation s branch (branch_state_may_have_committed state)

-- ForgetBranch of the recovery manager
unfoldable pub forget_branch : CacheState → TransactionBranchId → Bool → CacheState
forget_branch s branch succeeded = if succeeded then discard_branch_invalidation s branch else s
