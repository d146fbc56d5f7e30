-- ===== src/Server/Recovery/Snapshot.antt =====
-- What a recovery scan sends.
use kubling_providers.Base.{
  ◌≡◌, refl, ap, subst, inl, inr, List, [], ◌∷◌, ◌++◌, map, Option, none, some, true, not, Bytes,
  bytes_eq, Result, ok, err, ◌>>=◌, bind_ok, reject_ok, Result-cases, Option-cases, lookup, insert,
  lookup-insert, lookup-insert_self, All, All-append, In, arith,
}
use kubling_providers.Messages.{TransactionBranchId, TransactionBranchState}
use kubling_providers.Cache.State.Reach.{Unique}
use kubling_providers.Server.Status.{Fault, internal, returned}
use kubling_providers.Server.Branches.{
  validate_transaction_branch_id, with_code, valid_recovery_state,
}
use kubling_providers.Server.Branches.Accepted.{IsBranchOf, validate-IsBranchOf, with_code_ok}
use kubling_providers.Server.Recovery.{
  TransactionBranch, InDoubt, ScanReply, gives, ends, fails, transaction_branch_key, Seen,
  check_recovered, check_batch, scan,
}

-- A branch of the manager in a state of doubt.
pub record IsInDoubt (manager : Bytes) (b : InDoubt) : Type 0 where
  pub of_manager : IsBranchOf manager b.branch
  pub in_doubt : valid_recovery_state b.state ≡ true

-- the branch as the manager's stream gave it
abbrev pub as_given : InDoubt → Option TransactionBranch
as_given b = some (record { branch = some b.branch; state = b.state })

abbrev pub branch_id_of : InDoubt → Bytes
branch_id_of b = b.branch.branch_id

-- None of the branches is seen, or comes twice.
abbrev Fresh : Seen → List InDoubt → Type 0
Fresh seen [] = Unit
Fresh seen (b ∷ bs) =
    (lookup (transaction_branch_key b.branch) seen ≡ none)
    × Fresh (insert (transaction_branch_key b.branch) tt seen) bs

abbrev seen_after : Seen → List InDoubt → Seen
seen_after seen [] = seen
seen_after seen (b ∷ bs) = seen_after (insert (transaction_branch_key b.branch) tt seen) bs

Fresh-append :
    (seen : Seen) (bs cs : List InDoubt)
    → Fresh seen bs
    → Fresh (seen_after seen bs) cs
    → Fresh seen (bs ++ cs)
Fresh-append seen [] cs f g = g
Fresh-append seen (b ∷ bs) cs f g =
    (f.0, Fresh-append (insert (transaction_branch_key b.branch) tt seen) bs cs f.1 g)

check_recovered-IsInDoubt :
    (manager : Bytes) (seen : Seen) (recovered : Option TransactionBranch) (b : InDoubt)
    → check_recovered manager seen recovered ≡ ok b
    → IsInDoubt manager b
      × (recovered ≡ as_given b)
      × (lookup (transaction_branch_key b.branch) seen ≡ none)
unfolding check_recovered
check_recovered-IsInDoubt manager seen none b p = absurd (ground arith)
check_recovered-IsInDoubt manager seen (some r) b p =
    let (good, p1) =
      (reject_ok (not (valid_recovery_state r.state)) internal
          (with_code internal (validate_transaction_branch_id r.branch manager) >>= judge r.state)
          b).0
        p in
    let (branch, at_branch, p2) =
      (bind_ok (with_code internal (validate_transaction_branch_id r.branch manager))
          (judge r.state) b).0
        p1 in
    let (named, proper) = (validate-IsBranchOf r.branch manager branch).0 (
      (with_code_ok internal (validate_transaction_branch_id r.branch manager) branch).0
        at_branch) in
    elim (Option-cases (lookup (transaction_branch_key branch) seen)) [
      | inr (u, old) ↦ absurd (ground (arith, old, p2))
      | inl new ↦
          let q : record { branch = branch; state = r.state } ≡ b = ground (arith, new, p2) in
          subst
            (λ x.
              IsInDoubt manager x
              × (◌≡◌ {A = Option TransactionBranch} (some r) (as_given x))
              × (lookup (transaction_branch_key x.branch) seen ≡ none))
            q (record { of_manager = proper; in_doubt = ground arith }, same_branch named, new)
    ]
  where
    judge : TransactionBranchState → TransactionBranchId → Result Fault InDoubt
    judge state branch = elim (lookup (transaction_branch_key branch) seen) [
      | some _ ↦ err internal
      | none ↦ ok (record { branch = branch; state = state })
    ]

    same_branch :
        {branch : TransactionBranchId}
        → r.branch ≡ some branch
        → ◌≡◌ {A = Option TransactionBranch}
            (some r)
            (some (record { branch = some branch; state = r.state }))
    same_branch e = ap (λ o. some (record { branch = o; state = r.state })) e

record IsBatch (manager : Bytes) (seen : Seen) (given : List (Option TransactionBranch))
    (seen' : Seen) (bs : List InDoubt) : Type 0 where
  in_doubt : All (IsInDoubt manager) bs
  same : given ≡ map as_given bs
  fresh : Fresh seen bs
  after : seen' ≡ seen_after seen bs

check_batch-IsBatch :
    (manager : Bytes) (seen : Seen) (given : List (Option TransactionBranch)) (seen' : Seen)
    (bs : List InDoubt)
    → check_batch manager seen given ≡ ok (seen', bs)
    → IsBatch manager seen given seen' bs
unfolding check_batch
check_batch-IsBatch manager seen [] seen' [] p = record {
  in_doubt = tt;
  same = refl;
  fresh = tt;
  after = ground arith;
}
check_batch-IsBatch manager seen [] seen' (b ∷ bs) p = absurd (ground arith)
check_batch-IsBatch manager seen (recovered ∷ rest) seen' bs p =
    elim (Result-cases (check_recovered manager seen recovered)) [
      | inr (e, q) ↦ absurd (ground (arith, q, p))
      | inl (b, q) ↦
          elim (Result-cases
            (check_batch manager (insert (transaction_branch_key b.branch) tt seen) rest)) [
              | inr (e, t) ↦ absurd (ground (arith, q, t, p))
              | inl ((later, cs), t) ↦
                  let (proper, given, new) = check_recovered-IsInDoubt manager seen recovered b q in
                  let v =
                    check_batch-IsBatch manager (insert (transaction_branch_key b.branch) tt seen)
                      rest later cs t in
                  let e : (later, b ∷ cs) ≡ (seen', bs) = ground (arith, q, t, p) in
                  subst
                    (λ (x : Seen × List InDoubt). IsBatch manager seen (recovered ∷ rest) x.0 x.1) e
                    (record {
                      in_doubt = (proper, v.in_doubt);
                      same = cc (given, v.same);
                      fresh = (new, v.fresh);
                      after = v.after;
                    })
            ]
    ]

abbrev pub all_sent : List (List InDoubt) → List InDoubt
all_sent [] = []
all_sent (bs ∷ sent) = bs ++ all_sent sent

-- The batches that the manager's stream gives before its end.
abbrev pub batches_given : List ScanReply → List (List (Option TransactionBranch))
batches_given (gives given sending ∷ replies) = given ∷ batches_given replies
batches_given _ = []

module _ (manager : Bytes) where
  scan-Fresh :
      (seen : Seen) (replies : List ScanReply)
      → All (IsInDoubt manager) (all_sent (scan manager seen replies).0)
        × Fresh seen (all_sent (scan manager seen replies).0)
  unfolding scan
  scan-Fresh seen [] = (tt, tt)
  scan-Fresh seen (ends ∷ replies) = (tt, tt)
  scan-Fresh seen (fails e ∷ replies) = (tt, tt)
  scan-Fresh seen (gives [] sending ∷ replies) = (tt, tt)
  scan-Fresh seen (gives (x ∷ xs) (some e) ∷ replies) =
      elim (Result-cases (check_batch manager seen (x ∷ xs))) [
        | inr (f, q) ↦ rw (q, scan) (tt, tt)
        | inl ((seen', bs), q) ↦ rw (q, scan) (tt, tt)
      ]
  scan-Fresh seen (gives (x ∷ xs) none ∷ replies) =
      elim (Result-cases (check_batch manager seen (x ∷ xs))) [
        | inr (e, q) ↦ rw (q, scan) (tt, tt)
        | inl ((seen', bs), q) ↦
            let v = check_batch-IsBatch manager seen (x ∷ xs) seen' bs q in
            let (proper, fresh) = scan-Fresh seen' replies in
            let later = all_sent (scan manager seen' replies).0 in
            rw (q, scan)
              (
                All-append (IsInDoubt manager) bs later v.in_doubt proper,
                Fresh-append seen bs later v.fresh (subst (λ m. Fresh m later) v.after fresh),
              )
      ]

  Fresh-new :
      (seen : Seen) (bs : List InDoubt) (id : Bytes)
      → All (IsInDoubt manager) bs
      → Fresh seen bs
      → In id (map branch_id_of bs)
      → lookup (manager ++ 0 ∷ id) seen ≡ none
  unfolding transaction_branch_key
  Fresh-new seen [] id v f i = absurd i
  Fresh-new seen (b ∷ bs) id v f (inl e) =
      subst (λ k. lookup k seen ≡ none) (cc (v.0.of_manager.same_manager, e)) f.0
  Fresh-new seen (b ∷ bs) id v f (inr i) = ground (
    arith,
    Fresh-new (insert (transaction_branch_key b.branch) tt seen) bs id v.1 f.1 i,
    lookup-insert (transaction_branch_key b.branch) (manager ++ 0 ∷ id) tt seen,
  )

  Fresh-Unique :
      (seen : Seen) (bs : List InDoubt)
      → All (IsInDoubt manager) bs
      → Fresh seen bs
      → Unique (map branch_id_of bs)
  unfolding transaction_branch_key
  Fresh-Unique seen [] v f = tt
  Fresh-Unique seen (b ∷ bs) v f = (
    λ i.
        let key : transaction_branch_key b.branch ≡ manager ++ 0 ∷ b.branch.branch_id =
          cc (v.0.of_manager.same_manager) in
        absurd (
          ground (
            arith,
            Fresh-new (insert (transaction_branch_key b.branch) tt seen) bs b.branch.branch_id v.1
                f.1 i,
            lookup-insert_self (transaction_branch_key b.branch) tt seen,
            key,
          )),
    Fresh-Unique (insert (transaction_branch_key b.branch) tt seen) bs v.1 f.1,
  )

  -- Whatever the manager's stream replies, each branch that a scan sends on belongs to the manager and
  -- is in a state of doubt, and no branch is sent twice, in one batch or in two.
  pub scan-IsInDoubt :
      (replies : List ScanReply)
      → All (IsInDoubt manager) (all_sent (scan manager [] replies).0)
        × Unique (map branch_id_of (all_sent (scan manager [] replies).0))
  scan-IsInDoubt replies =
      let (proper, fresh) = scan-Fresh [] replies in
      (proper, Fresh-Unique [] (all_sent (scan manager [] replies).0) proper fresh)

  scan-given :
      (seen : Seen) (replies : List ScanReply)
      → (scan manager seen replies).1 ≡ returned none
      → map (map as_given) (scan manager seen replies).0 ≡ batches_given replies
  unfolding scan
  scan-given seen [] p = absurd (ground arith)
  scan-given seen (ends ∷ replies) p = refl
  scan-given seen (fails e ∷ replies) p = refl
  scan-given seen (gives [] sending ∷ replies) p = absurd (ground arith)
  scan-given seen (gives (x ∷ xs) (some e) ∷ replies) p =
      elim (Result-cases (check_batch manager seen (x ∷ xs))) [
        | inr (f, q) ↦ absurd (ground (arith, q, p))
        | inl ((seen', bs), q) ↦ absurd (ground (arith, q, p))
      ]
  scan-given seen (gives (x ∷ xs) none ∷ replies) p =
      elim (Result-cases (check_batch manager seen (x ∷ xs))) [
        | inr (e, q) ↦ absurd (ground (arith, q, p))
        | inl ((seen', bs), q) ↦
            let v = check_batch-IsBatch manager seen (x ∷ xs) seen' bs q in
            let rest = scan-given seen' replies (ground (arith, q, p)) in
            rw (q, scan) (cc (v.same, rest))
      ]

  -- A scan that returns without an error has sent exactly the batches that the manager's stream gave,
  -- branch for branch, in order.
  pub scan_complete :
      (replies : List ScanReply)
      → (scan manager [] replies).1 ≡ returned none
      → map (map as_given) (scan manager [] replies).0 ≡ batches_given replies
  scan_complete replies p = scan-given [] replies p
