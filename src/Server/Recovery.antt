-- ===== src/Server/Recovery.antt =====
-- The recovery scan: the snapshot of branches in doubt that the server streams
-- (sdk-go/provider/transaction_recovery.go, RecoverTransactionBranches). The replies of the recovery
-- manager's stream and of the transport are arguments.
pub mod Snapshot
use kubling_providers.Base.{
  ℕ, List, [], ◌∷◌, ◌++◌, Option, none, some, Bool, true, false, not, Map, Bytes, bytes_eq, Result,
  ok, err, ◌>>=◌, ◌>>◌, reject_if, lookup, insert,
}
use kubling_providers.Messages.{TransactionBranchId, TransactionBranchState}
use kubling_providers.Server.Status.{
  Fault, internal, foreign, Standing, waits, returned, with_close,
}
use kubling_providers.Server.Branches.{
  validate_transaction_branch_id, validate_requested_resource_manager, with_code,
  transaction_recovery_manager, valid_recovery_state,
}

pub record TransactionBranch : Type 0 where
  pub branch : Option TransactionBranchId
  pub state : TransactionBranchState

-- a branch as it is sent
pub record InDoubt : Type 0 where
  pub branch : TransactionBranchId
  pub state : TransactionBranchState

-- A reply of the manager's stream: the end, an error, or a batch of branches, which may be nil, with
-- the error of sending them on, if there is one.
pub data ScanReply : Type 0 where
  gives : List (Option TransactionBranch) → Option ℕ → ScanReply
  ends : ScanReply
  fails : ℕ → ScanReply

-- `branch.GetResourceManagerId() + "\x00" + string(branch.GetBranchId())`
unfoldable pub transaction_branch_key : TransactionBranchId → Bytes
transaction_branch_key branch = branch.resource_manager_id ++ 0 ∷ branch.branch_id

abbrev pub Seen : Type 0
Seen = Map Bytes (Unit {0})

-- one turn of the inner loop: the branch to send
unfoldable pub check_recovered : Bytes → Seen → Option TransactionBranch → Result Fault InDoubt
check_recovered manager seen none = err internal
check_recovered manager seen (some recovered) =
    reject_if (not (valid_recovery_state recovered.state)) internal
    >> with_code internal (validate_transaction_branch_id recovered.branch manager)
    >>= λ branch. elim (lookup (transaction_branch_key branch) seen) [
      | some _ ↦ err internal
      | none ↦ ok (record { branch = branch; state = recovered.state })
    ]

-- the inner loop, over one batch: what is seen after it, and the branches to send
unfoldable pub check_batch :
    Bytes → Seen → List (Option TransactionBranch) → Result Fault (Seen × List InDoubt)
check_batch manager seen [] = ok (seen, [])
check_batch manager seen (recovered ∷ rest) = elim (check_recovered manager seen recovered) [
  | err e ↦ err e
  | ok b ↦ elim (check_batch manager (insert (transaction_branch_key b.branch) tt seen) rest) [
    | err e ↦ err e
    | ok (seen', bs) ↦ ok (seen', b ∷ bs)
  ]
]

-- what was sent, batch by batch
unfoldable pub scan : Bytes → Seen → List ScanReply → List (List InDoubt) × Standing
unfolding check_batch check_recovered
scan manager seen [] = ([], waits)
scan manager seen (ends ∷ replies) = ([], returned none)
scan manager seen (fails e ∷ replies) = ([], returned (some (foreign e)))
scan manager seen (gives [] sending ∷ replies) = ([], returned (some internal))
scan manager seen (gives (recovered ∷ rest) sending ∷ replies) =
    elim (check_batch manager seen (recovered ∷ rest)) [
      | err e ↦ ([], returned (some e))
      | ok (seen', bs) ↦ elim sending [
        | some e ↦ ([], returned (some (foreign e)))
        | none ↦ let (sent, standing) = scan manager seen' replies in (bs ∷ sent, standing)
      ]
    ]

-- RecoverTransactionBranches; `opening` is what RecoverBranches gives: an error, a nil stream, or the
-- replies of the stream and of its Close.
unfoldable pub recover_transaction_branches :
    Option (Option Bytes)
    → Bytes
    → Result ℕ (Option (List ScanReply × Option ℕ))
    → List (List InDoubt) × Standing
unfolding scan transaction_recovery_manager validate_requested_resource_manager
recover_transaction_branches recovery requested opening =
    elim (transaction_recovery_manager recovery >>= λ manager.
    validate_requested_resource_manager requested manager >> ok manager) [
      | err e ↦ ([], returned (some e))
      | ok manager ↦ elim opening [
        | err e ↦ ([], returned (some (foreign e)))
        | ok none ↦ ([], returned (some internal))
        | ok (some (replies, closing)) ↦
            let (sent, standing) = scan manager [] replies in (sent, with_close standing closing)
      ]
    ]
