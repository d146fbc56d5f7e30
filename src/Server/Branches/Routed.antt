-- ===== src/Server/Branches/Routed.antt =====
-- Which operation of the provider a request on a transaction branch calls, and with what reply it
-- succeeds.
use kubling_providers.Base.{
  ℕ, ◌≡◌, ◌↔◌, ◌⊎◌, inl, inr, refl, sym, ap, [], ◌∷◌, Option, none, some, Bool, true, false, Bytes,
  Result, ok, err, ◌>>=◌, bind_ok, ok_not_err, Option-cases, Bool-cases, arith,
}
use kubling_providers.Messages.{
  TransactionBranchId, TransactionBranchState, TransactionPrepareOutcome,
}
use kubling_providers.Cache.State.Expand.{is_empty}
use kubling_providers.Server.Status.{Fault, acquire_connection, foreign}
use kubling_providers.Server.Branches.{
  prepare_transaction_branch_request, valid_resolution_state, valid_prepare_outcome, Call,
  on_connection, on_manager, checked, branch_connection, commit_transaction_branch, commit_route,
  rollback_transaction_branch, rollback_route, prepare_transaction_branch,
}
use kubling_providers.Server.Branches.Accepted.{Accepts, request-Accepts}

-- The call goes to the connection that the request names, which is registered and can host branches.
abbrev pub ByConnection : (Bytes → Option Bool) → Option Bytes → TransactionBranchId → Call → Type 0
ByConnection connections none branch call = ⊥
ByConnection connections (some c) branch call =
    (is_empty c ≡ false) × (connections c ≡ some true) × (call ≡ on_connection c branch)

-- The call goes to the recovery manager, and the request names no connection.
abbrev pub ByManager : Option Bytes → TransactionBranchId → Call → Type 0
ByManager id branch call = (id ≡ none) × (call ≡ on_manager branch)

-- A one-phase commit goes to its connection, and the commit of a prepared branch to the manager.
abbrev pub CommitRoute :
    (Bytes → Option Bool) → Bool → Option Bytes → TransactionBranchId → Call → Type 0
CommitRoute connections true id branch call = ByConnection connections id branch call
CommitRoute connections false id branch call = ByManager id branch call

abbrev pub RollbackRoute :
    (Bytes → Option Bool) → Option Bytes → TransactionBranchId → Call → Type 0
RollbackRoute connections id branch call =
    ByConnection connections id branch call ⊎ ByManager id branch call

checked_ok :
    {A : Type 0} (valid : A → Bool) (r : Result ℕ A) (a : A)
    → (checked valid r ≡ ok a) ↔ ((r ≡ ok a) × (valid a ≡ true))
checked_ok valid (err e) a = (
  λ p. absurd (ok_not_err (err (foreign e)) a (foreign e) p refl),
  λ w. absurd (ok_not_err (err e) a e w.0 refl),
)
checked_ok valid (ok x) a = elim (Bool-cases (valid x)) [
  | inl good ↦ rw good (λ p. ground (arith, good), λ w. ground (arith, w))
  | inr bad ↦ rw bad (λ p. absurd (ground arith), λ w. absurd (ground (arith, bad, w)))
]

branch_connection-ByConnection :
    (connections : Bytes → Option Bool) (c : Bytes) (branch : TransactionBranchId) (call : Call)
    → (branch_connection connections c branch ≡ ok call)
      ↔ ByConnection connections (some c) branch call
unfolding branch_connection acquire_connection
branch_connection-ByConnection connections [] branch call =
    (λ p. absurd (ground arith), λ w. absurd (ground (arith, w.0)))
branch_connection-ByConnection connections (b ∷ bs) branch call =
    elim (Option-cases (connections (b ∷ bs))) [
      | inl e ↦
          rw (e, branch_connection) (λ p. absurd (ground arith), λ w. absurd (ground (arith, w.1)))
      | inr (true, e) ↦ rw (e, branch_connection) (λ p. ground arith, λ w. ground (arith, w.2))
      | inr (false, e) ↦
          rw (e, branch_connection) (λ p. absurd (ground arith), λ w. absurd (ground (arith, w.1)))
    ]

commit_route-CommitRoute :
    (connections : Bytes → Option Bool) (one_phase : Bool) (id : Option Bytes)
    (branch : TransactionBranchId) (call : Call)
    → (commit_route connections one_phase id branch ≡ ok call)
      ↔ CommitRoute connections one_phase id branch call
commit_route-CommitRoute connections true none branch call = (λ p. ground arith, λ w. absurd w)
commit_route-CommitRoute connections true (some []) branch call =
    (λ p. absurd (ground arith), λ w. absurd (ground (arith, w.0)))
commit_route-CommitRoute connections true (some (b ∷ bs)) branch call =
    branch_connection-ByConnection connections (b ∷ bs) branch call
commit_route-CommitRoute connections false none branch call =
    (λ p. (refl, ground arith), λ w. ground (arith, w.1))
commit_route-CommitRoute connections false (some id) branch call =
    (λ p. absurd (ground arith), λ w. absurd (ground (arith, w.0)))

rollback_route-RollbackRoute :
    (connections : Bytes → Option Bool) (id : Option Bytes) (branch : TransactionBranchId)
    (call : Call)
    → (rollback_route connections id branch ≡ ok call) ↔ RollbackRoute connections id branch call
rollback_route-RollbackRoute connections none branch call =
    (λ p. inr (refl, ground arith), λ w. elim w [ inl n ↦ absurd n | inr (p, q) ↦ ap ok (sym q) ])
rollback_route-RollbackRoute connections (some []) branch call =
    (λ p. absurd (ground arith), λ w. absurd (ground (arith, w)))
rollback_route-RollbackRoute connections (some (b ∷ bs)) branch call =
    let route = branch_connection-ByConnection connections (b ∷ bs) branch call in
    (λ p. inl (route.0 p), λ w. elim w [ inl n ↦ route.1 n | inr (p, q) ↦ absurd (ground arith) ])

-- The request is answered with `reply`: it is accepted for a branch, routed to a call, and the
-- provider's reply to that call is `reply`, which is valid.
abbrev pub Answered :
    {A : Type 0}
    → Option (Option Bytes)
    → Option TransactionBranchId
    → (TransactionBranchId → Call → Type 0)
    → (Call → Result ℕ A)
    → (A → Bool)
    → A
    → Type 0
Answered recovery requested Route provider valid reply =
    (branch : TransactionBranchId) × Accepts recovery requested branch
    × ((call : Call) × Route branch call × (provider call ≡ ok reply) × (valid reply ≡ true))

handled :
    {A : Type 0} (recovery : Option (Option Bytes)) (requested : Option TransactionBranchId)
    (route : TransactionBranchId → Result Fault Call) (Route : TransactionBranchId → Call → Type 0)
    (provider : Call → Result ℕ A) (valid : A → Bool) (reply : A)
    → ((branch : TransactionBranchId) (call : Call) → (route branch ≡ ok call) ↔ Route branch call)
    → ((prepare_transaction_branch_request recovery requested >>= λ branch.
          route branch >>= λ call. checked valid (provider call))
        ≡ ok reply)
      ↔ Answered recovery requested Route provider valid reply
handled recovery requested route Route provider valid reply routes =
    let at_branch =
      bind_ok (prepare_transaction_branch_request recovery requested)
        (λ branch. route branch >>= λ call. checked valid (provider call)) reply in
    let at_call = λ (branch : TransactionBranchId).
      bind_ok (route branch) (λ call. checked valid (provider call)) reply in
    (
      λ p.
          let (branch, accepted, p1) = at_branch.0 p in
          let (call, routed, p2) = (at_call branch).0 p1 in
          let (replied, good) = (checked_ok valid (provider call) reply).0 p2 in
          (
            branch,
            (request-Accepts recovery requested branch).0 accepted,
            (call, (routes branch call).0 routed, replied, good),
          ),
      λ w.
          let (branch, accepted, (call, routed, replied, good)) = w in
          at_branch.1 (
            branch,
            (request-Accepts recovery requested branch).1 accepted,
            (at_call branch).1 (
              call,
              (routes branch call).1 routed,
              (checked_ok valid (provider call) reply).1 (replied, good),
            ),
          ),
    )

module _ (recovery : Option (Option Bytes)) (connections : Bytes → Option Bool)
    (requested : Option TransactionBranchId) where
  -- A branch is prepared with an outcome exactly if the request is accepted, its connection prepares
  -- the branch with that outcome, and the outcome is prepared or read-only.
  pub prepare-Answered :
      (id : Bytes) (provider : Call → Result ℕ TransactionPrepareOutcome)
      (outcome : TransactionPrepareOutcome)
      → (prepare_transaction_branch recovery connections requested id provider ≡ ok outcome)
        ↔ Answered recovery requested
            (ByConnection connections (some id))
            provider
            valid_prepare_outcome
            outcome
  unfolding prepare_transaction_branch
  prepare-Answered id provider outcome =
      handled recovery requested (branch_connection connections id)
        (ByConnection connections (some id)) provider valid_prepare_outcome outcome
        (branch_connection-ByConnection connections id)

  -- A commit succeeds with a state exactly if the request is accepted, a one-phase commit is answered
  -- with that state by its connection and any other by the recovery manager, and the state is one
  -- that a resolution can have.
  pub commit-Answered :
      (one_phase : Bool) (id : Option Bytes) (provider : Call → Result ℕ TransactionBranchState)
      (state : TransactionBranchState)
      → (commit_transaction_branch recovery connections requested one_phase id provider ≡ ok state)
        ↔ Answered recovery requested
            (CommitRoute connections one_phase id)
            provider
            valid_resolution_state
            state
  unfolding commit_transaction_branch
  commit-Answered one_phase id provider state =
      handled recovery requested (commit_route connections one_phase id)
        (CommitRoute connections one_phase id) provider valid_resolution_state state
        (commit_route-CommitRoute connections one_phase id)

  -- A rollback succeeds with a state exactly if the request is accepted, the connection that it names,
  -- or without one the recovery manager, answers with that state, and the state is one that a
  -- resolution can have.
  pub rollback-Answered :
      (id : Option Bytes) (provider : Call → Result ℕ TransactionBranchState)
      (state : TransactionBranchState)
      → (rollback_transaction_branch recovery connections requested id provider ≡ ok state)
        ↔ Answered recovery requested
            (RollbackRoute connections id)
            provider
            valid_resolution_state
            state
  unfolding rollback_transaction_branch
  rollback-Answered id provider state =
      handled recovery requested (rollback_route connections id) (RollbackRoute connections id)
        provider valid_resolution_state state (rollback_route-RollbackRoute connections id)
