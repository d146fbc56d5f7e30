-- ===== src/Server/Examples/Branched.antt =====
-- Requests on transaction branches, and a recovery scan (sdk-go/provider/transaction_recovery.go).
use kubling_providers.Base.{
  ℕ, ◌≡◌, ◌↔◌, refl, List, [], ◌∷◌, map, Option, none, some, Bool, true, Bytes, codes, bytes_beq,
  trim_space, lookup, insert, Result, ok, All,
}
use kubling_providers.Messages.{
  TransactionBranchId, TransactionBranchState, prepared, committed, rolled_back,
  TransactionPrepareOutcome, outcome_prepared,
}
use kubling_providers.Cache.State.Reach.{Unique}
use kubling_providers.Server.Status.{returned, acquire_connection}
use kubling_providers.Server.Branches.{
  Call, on_connection, on_manager, prepare_transaction_branch, commit_transaction_branch,
  rollback_transaction_branch, valid_prepare_outcome, valid_resolution_state,
  validate_transaction_branch_id, valid_recovery_state,
}
use kubling_providers.Server.Branches.Routed.{
  ByConnection, CommitRoute, RollbackRoute, Answered, prepare-Answered, commit-Answered,
  rollback-Answered,
}
use kubling_providers.Server.Recovery.{
  TransactionBranch, ScanReply, gives, ends, scan, transaction_branch_key,
}
use kubling_providers.Server.Recovery.Snapshot.{
  IsInDoubt, as_given, branch_id_of, all_sent, batches_given, scan-IsInDoubt, scan_complete,
}

abbrev manager : Bytes
manager = codes "orders-db"

abbrev branch : ℕ → TransactionBranchId
branch n = record { resource_manager_id = manager; branch_id = n ∷ [] }

abbrev recovery : Option (Option Bytes)
recovery = some (some manager)

abbrev connections : Bytes → Option Bool
connections id = some true

-- a provider whose connections commit and whose manager rolls back
abbrev provider : Call → Result ℕ TransactionBranchState
provider (on_connection c b) = ok committed
provider (on_manager b) = ok rolled_back

abbrev preparer : Call → Result ℕ TransactionPrepareOutcome
preparer c = ok outcome_prepared

committed_one_phase :
    commit_transaction_branch recovery connections
      (some (branch 1))
      true
      (some (codes "c1"))
      provider
    ≡ ok committed
unfolding commit_transaction_branch bytes_beq trim_space acquire_connection
committed_one_phase = refl

prepare-Answered_example :
    (prepare_transaction_branch recovery connections (some (branch 1)) (codes "c1") preparer
      ≡ ok outcome_prepared)
    ↔ Answered recovery
        (some (branch 1))
        (ByConnection connections (some (codes "c1")))
        preparer
        valid_prepare_outcome
        outcome_prepared
prepare-Answered_example =
    prepare-Answered recovery connections (some (branch 1)) (codes "c1") preparer outcome_prepared

commit-Answered_example :
    (commit_transaction_branch recovery connections
        (some (branch 1))
        true
        (some (codes "c1"))
        provider
      ≡ ok committed)
    ↔ Answered recovery
        (some (branch 1))
        (CommitRoute connections true (some (codes "c1")))
        provider
        valid_resolution_state
        committed
commit-Answered_example =
    commit-Answered recovery connections (some (branch 1)) true (some (codes "c1")) provider
      committed

rollback-Answered_example :
    (rollback_transaction_branch recovery connections (some (branch 1)) none provider
      ≡ ok rolled_back)
    ↔ Answered recovery
        (some (branch 1))
        (RollbackRoute connections none)
        provider
        valid_resolution_state
        rolled_back
rollback-Answered_example =
    rollback-Answered recovery connections (some (branch 1)) none provider rolled_back

abbrev given : ℕ → Option TransactionBranch
given n = some (record { branch = some (branch n); state = prepared })

abbrev replies : List ScanReply
replies = gives (given 1 ∷ given 2 ∷ []) none ∷ gives (given 3 ∷ []) none ∷ ends ∷ []

finished : (scan manager [] replies).1 ≡ returned none
unfolding scan bytes_beq trim_space valid_recovery_state validate_transaction_branch_id lookup
    insert transaction_branch_key
finished = refl

-- the second batch has a branch of the first
stopped :
    all_sent
      (scan manager [] (gives (given 1 ∷ []) none ∷ gives (given 2 ∷ given 1 ∷ []) none ∷ [])).0
    ≡ record { branch = branch 1; state = prepared } ∷ []
unfolding scan bytes_beq trim_space valid_recovery_state validate_transaction_branch_id lookup
    insert transaction_branch_key
stopped = refl

scan-IsInDoubt_example :
    All (IsInDoubt manager) (all_sent (scan manager [] replies).0)
    × Unique (map branch_id_of (all_sent (scan manager [] replies).0))
scan-IsInDoubt_example = scan-IsInDoubt manager replies

scan_complete_example : map (map as_given) (scan manager [] replies).0 ≡ batches_given replies
scan_complete_example = scan_complete manager replies finished
