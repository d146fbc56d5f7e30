-- ===== src/Server/Branches.antt =====
-- Durable transaction branches: validation and the request handlers
-- (sdk-go/provider/transaction_recovery.go). `recovery` is the provider's recovery manager: none where
-- the provider has no such interface, `some none` where it gives a nil manager, and otherwise the
-- manager's identifier. `connections` tells of a registered connection whether it can host branches.
-- What the provider answers to a call is an argument.
pub mod Accepted
pub mod Routed
use kubling_providers.Base.{
  ℕ, List, [], ◌∷◌, Option, none, some, Bool, true, false, not, ◌||◌, Bytes, bytes_beq, Result, ok,
  err, ◌>>=◌, ◌>>◌, reject_if, length, ltb, if◌then◌else◌, trim_space,
}
use kubling_providers.Messages.{
  TransactionBranchId, TransactionBranchState, state_unspecified, prepared, read_only, committed,
  rolled_back, heuristic_commit, heuristic_rollback, heuristic_mixed, heuristic_hazard, not_found,
  unknown_state, active, TransactionPrepareOutcome, outcome_prepared, outcome_read_only,
}
use kubling_providers.Cache.State.Expand.{is_empty}
use kubling_providers.Server.Status.{
  Fault, invalid_argument, internal, unimplemented, failed_precondition, foreign,
  acquire_connection,
}

abbrev pub max_transaction_branch_id_bytes : ℕ
max_transaction_branch_id_bytes = 256

abbrev pub max_resource_manager_id_bytes : ℕ
max_resource_manager_id_bytes = 256

pub data BranchFault : Type 0 where
  branch_required not_canonical manager_too_long manager_differs : BranchFault
  branch_id_required branch_id_too_long : BranchFault

unfoldable pub validate_resource_manager_id : Bytes → Result BranchFault (Unit {0})
validate_resource_manager_id value =
    reject_if (is_empty value || not (bytes_beq (trim_space value) value)) not_canonical
    >> reject_if (ltb max_resource_manager_id_bytes (length value)) manager_too_long

unfoldable pub validate_transaction_branch_id :
    Option TransactionBranchId → Bytes → Result BranchFault TransactionBranchId
unfolding validate_resource_manager_id
validate_transaction_branch_id none expected = err branch_required
validate_transaction_branch_id (some branch) expected =
    validate_resource_manager_id branch.resource_manager_id
    >> reject_if (not (bytes_beq branch.resource_manager_id expected)) manager_differs
    >> reject_if (is_empty branch.branch_id) branch_id_required
    >> reject_if (ltb max_transaction_branch_id_bytes (length branch.branch_id)) branch_id_too_long
    >> ok branch

-- a fault of validation, under the status code that its caller gives it
abbrev pub with_code : {A : Type 0} → Fault → Result BranchFault A → Result Fault A
with_code code (ok a) = ok a
with_code code (err e) = err code

unfoldable pub validate_requested_resource_manager : Bytes → Bytes → Result Fault (Unit {0})
unfolding validate_resource_manager_id
validate_requested_resource_manager requested expected =
    with_code invalid_argument (validate_resource_manager_id requested)
    >> reject_if (not (bytes_beq requested expected)) failed_precondition

unfoldable pub valid_prepare_outcome : TransactionPrepareOutcome → Bool
valid_prepare_outcome outcome_prepared = true
valid_prepare_outcome outcome_read_only = true
valid_prepare_outcome _ = false

unfoldable pub valid_reported_state : TransactionBranchState → Bool
valid_reported_state (unknown_state n) = false
valid_reported_state state_unspecified = false
valid_reported_state _ = true

unfoldable pub valid_resolution_state : TransactionBranchState → Bool
valid_resolution_state not_found = true
valid_resolution_state read_only = true
valid_resolution_state committed = true
valid_resolution_state rolled_back = true
valid_resolution_state heuristic_commit = true
valid_resolution_state heuristic_rollback = true
valid_resolution_state heuristic_mixed = true
valid_resolution_state heuristic_hazard = true
valid_resolution_state _ = false

unfoldable pub valid_recovery_state : TransactionBranchState → Bool
valid_recovery_state prepared = true
valid_recovery_state heuristic_commit = true
valid_recovery_state heuristic_rollback = true
valid_recovery_state heuristic_mixed = true
valid_recovery_state heuristic_hazard = true
valid_recovery_state _ = false

unfoldable pub transaction_recovery_manager : Option (Option Bytes) → Result Fault Bytes
unfolding validate_resource_manager_id
transaction_recovery_manager none = err unimplemented
transaction_recovery_manager (some none) = err unimplemented
transaction_recovery_manager (some (some manager)) =
    with_code internal (validate_resource_manager_id manager) >> ok manager

unfoldable pub prepare_transaction_branch_request :
    Option (Option Bytes) → Option TransactionBranchId → Result Fault TransactionBranchId
unfolding transaction_recovery_manager validate_transaction_branch_id
prepare_transaction_branch_request recovery requested =
    transaction_recovery_manager recovery >>= λ manager.
    with_code invalid_argument (validate_transaction_branch_id requested manager)

-- Which operation of the provider a request calls: one of the connection that it names, or one of the
-- recovery manager.
pub data Call : Type 0 where
  on_connection : Bytes → TransactionBranchId → Call
  on_manager : TransactionBranchId → Call

-- an error of the provider, or a reply that is checked
abbrev pub checked : {A : Type 0} → (A → Bool) → Result ℕ A → Result Fault A
checked valid (err e) = err (foreign e)
checked valid (ok a) = if valid a then ok a else err internal

-- the connection of that identifier, if it can host branches
unfoldable pub branch_connection :
    (Bytes → Option Bool) → Bytes → TransactionBranchId → Result Fault Call
branch_connection connections id branch = acquire_connection connections id >>= λ hosts.
    if hosts then ok (on_connection id branch) else err unimplemented

-- a connection identifier that is present and not empty
abbrev pub commit_route :
    (Bytes → Option Bool) → Bool → Option Bytes → TransactionBranchId → Result Fault Call
commit_route connections true none branch = err invalid_argument
commit_route connections true (some []) branch = err invalid_argument
commit_route connections true (some (b ∷ bs)) branch = branch_connection connections (b ∷ bs) branch
commit_route connections false none branch = ok (on_manager branch)
commit_route connections false (some id) branch = err invalid_argument

abbrev pub rollback_route :
    (Bytes → Option Bool) → Option Bytes → TransactionBranchId → Result Fault Call
rollback_route connections none branch = ok (on_manager branch)
rollback_route connections (some []) branch = err invalid_argument
rollback_route connections (some (b ∷ bs)) branch = branch_connection connections (b ∷ bs) branch

module _ (recovery : Option (Option Bytes)) (connections : Bytes → Option Bool) where
  -- BeginTransactionBranch; the provider answers with an error or with none.
  unfoldable pub begin_transaction_branch :
      Option TransactionBranchId
      → Bytes
      → (Call → Result ℕ (Unit {0}))
      → Result Fault TransactionBranchState
  unfolding prepare_transaction_branch_request branch_connection
  begin_transaction_branch requested id provider =
      prepare_transaction_branch_request recovery requested >>= λ branch.
      branch_connection connections id branch >>= λ call.
      checked (λ _. true) (provider call) >>= λ _. ok active

  unfoldable pub prepare_transaction_branch :
      Option TransactionBranchId
      → Bytes
      → (Call → Result ℕ TransactionPrepareOutcome)
      → Result Fault TransactionPrepareOutcome
  unfolding prepare_transaction_branch_request branch_connection valid_prepare_outcome
  prepare_transaction_branch requested id provider =
      prepare_transaction_branch_request recovery requested >>= λ branch.
      branch_connection connections id branch >>= λ call.
      checked valid_prepare_outcome (provider call)

  unfoldable pub commit_transaction_branch :
      Option TransactionBranchId
      → Bool
      → Option Bytes
      → (Call → Result ℕ TransactionBranchState)
      → Result Fault TransactionBranchState
  unfolding prepare_transaction_branch_request branch_connection valid_resolution_state
  commit_transaction_branch requested one_phase id provider =
      prepare_transaction_branch_request recovery requested >>= λ branch.
      commit_route connections one_phase id branch >>= λ call.
      checked valid_resolution_state (provider call)

  unfoldable pub rollback_transaction_branch :
      Option TransactionBranchId
      → Option Bytes
      → (Call → Result ℕ TransactionBranchState)
      → Result Fault TransactionBranchState
  unfolding prepare_transaction_branch_request branch_connection valid_resolution_state
  rollback_transaction_branch requested id provider =
      prepare_transaction_branch_request recovery requested >>= λ branch.
      rollback_route connections id branch >>= λ call.
      checked valid_resolution_state (provider call)

  unfoldable pub get_transaction_branch_status :
      Option TransactionBranchId
      → (Call → Result ℕ TransactionBranchState)
      → Result Fault TransactionBranchState
  unfolding prepare_transaction_branch_request valid_reported_state
  get_transaction_branch_status requested provider =
      prepare_transaction_branch_request recovery requested >>= λ branch.
      checked valid_reported_state (provider (on_manager branch))

  unfoldable pub forget_transaction_branch :
      Option TransactionBranchId → (Call → Result ℕ (Unit {0})) → Result Fault (Unit {0})
  unfolding prepare_transaction_branch_request
  forget_transaction_branch requested provider =
      prepare_transaction_branch_request recovery requested >>= λ branch.
      checked (λ _. true) (provider (on_manager branch))
