-- ===== src/Server/Branches/Accepted.antt =====
-- Which requests on transaction branches succeed.
use kubling_providers.Base.{
  ◌≡◌, ◌↔◌, ◌≤◌, refl, sym, ap, subst, Option, none, some, false, not, ◌||◌, Bytes, bytes_beq,
  bytes_beq_iff, Result, ok, err, ◌>>◌, reject_if, bind_ok, reject_ok, ok_unique, ok_not_err,
  length, ltb, trim_space, arith,
}
use kubling_providers.Messages.{TransactionBranchId}
use kubling_providers.Cache.State.Expand.{is_empty}
use kubling_providers.Server.Status.{Fault, internal, invalid_argument}
use kubling_providers.Server.Branches.{
  BranchFault, validate_resource_manager_id, validate_transaction_branch_id, with_code,
  transaction_recovery_manager, prepare_transaction_branch_request, not_canonical, manager_differs,
  branch_id_required, branch_id_too_long, max_transaction_branch_id_bytes,
}

-- An identifier of a resource manager: not empty, without space around it, and at most 256 bytes.
pub record IsManagerId (value : Bytes) : Type 0 where
  pub filled : is_empty value ≡ false
  pub trimmed : trim_space value ≡ value
  pub short : length value ≤ 256

-- A branch of that manager.
pub record IsBranchOf (manager : Bytes) (branch : TransactionBranchId) : Type 0 where
  pub same_manager : branch.resource_manager_id ≡ manager
  pub manager_id : IsManagerId manager
  pub filled : is_empty branch.branch_id ≡ false
  pub short : length branch.branch_id ≤ 256

pub validate_resource_manager_id-IsManagerId :
    (value : Bytes) → (validate_resource_manager_id value ≡ ok tt) ↔ IsManagerId value
unfolding validate_resource_manager_id
validate_resource_manager_id-IsManagerId value = (
  λ p.
      let (a, b) =
        (reject_ok (is_empty value || not (bytes_beq (trim_space value) value)) not_canonical _
            tt).0
          p in
      record {
        filled = ground arith;
        trimmed = (bytes_beq_iff (trim_space value) value).0 (ground arith);
        short = ground arith;
      },
  λ v. ground (arith, v.filled, v.trimmed, v.short, bytes_beq_iff (trim_space value) value),
)

-- A branch identifier passes validation, as it is, exactly if it is a branch of the manager.
pub validate-IsBranchOf :
    (requested : Option TransactionBranchId) (manager : Bytes) (branch : TransactionBranchId)
    → (validate_transaction_branch_id requested manager ≡ ok branch)
      ↔ ((requested ≡ some branch) × IsBranchOf manager branch)
unfolding validate_transaction_branch_id
validate-IsBranchOf none manager branch =
    (λ p. absurd (ground arith), λ w. absurd (ground (arith, w.0)))
validate-IsBranchOf (some b) manager branch =
    let checks =
      reject_if (not (bytes_beq b.resource_manager_id manager)) manager_differs
      >> reject_if (is_empty b.branch_id) branch_id_required
      >> reject_if (ltb max_transaction_branch_id_bytes (length b.branch_id)) branch_id_too_long
      >> ok b in
    let step0 = bind_ok (validate_resource_manager_id b.resource_manager_id) (λ _. checks) branch in
    let step1 =
      reject_ok (not (bytes_beq b.resource_manager_id manager)) manager_differs
        (reject_if (is_empty b.branch_id) branch_id_required
          >> reject_if (ltb max_transaction_branch_id_bytes (length b.branch_id)) branch_id_too_long
          >> ok b)
        branch in
    let step2 =
      reject_ok (is_empty b.branch_id) branch_id_required
        (reject_if (ltb max_transaction_branch_id_bytes (length b.branch_id)) branch_id_too_long
          >> ok b)
        branch in
    let step3 =
      reject_ok (ltb max_transaction_branch_id_bytes (length b.branch_id)) branch_id_too_long (ok b)
        branch in
    (
      λ p.
          let (u, at_id, p1) = step0.0 p in
          let (same, p2) = step1.0 p1 in
          let (filled, p3) = step2.0 p2 in
          let (short, p4) = step3.0 p3 in
          let q : b ≡ branch = ok_unique (ok b) b branch refl p4 in
          let m : b.resource_manager_id ≡ manager =
            (bytes_beq_iff b.resource_manager_id manager).0 (ground arith) in
          (
            ap some q,
            subst (λ x. IsBranchOf manager x) q
                (record {
                  same_manager = m;
                  manager_id =
                      subst IsManagerId m
                        ((validate_resource_manager_id-IsManagerId b.resource_manager_id).0 at_id);
                  filled = filled;
                  short = ground arith;
                }),
          ),
      λ w.
          let q : branch ≡ b = cc (w.0) in
          let v : IsBranchOf manager b = subst (λ x. IsBranchOf manager x) q w.1 in
          step0.1 (
            tt,
            (validate_resource_manager_id-IsManagerId b.resource_manager_id).1
                (subst IsManagerId (sym v.same_manager) v.manager_id),
            step1.1 (
              ground (arith, v.same_manager, bytes_beq_iff b.resource_manager_id manager),
              step2.1 (v.filled, step3.1 (ground (arith, v.short), ap ok (sym q))),
            ),
          ),
    )

pub with_code_ok :
    {A : Type 0} (code : Fault) (r : Result BranchFault A) (a : A)
    → (with_code code r ≡ ok a) ↔ (r ≡ ok a)
with_code_ok code (ok x) a =
    (λ p. ap ok (ok_unique (ok x) x a refl p), λ p. ap ok (ok_unique (ok x) x a refl p))
with_code_ok code (err e) a =
    (λ p. absurd (ok_not_err (err code) a code p refl), λ p. absurd (ok_not_err (err e) a e p refl))

transaction_recovery_manager-IsManagerId :
    (recovery : Option (Option Bytes)) (manager : Bytes)
    → (transaction_recovery_manager recovery ≡ ok manager)
      ↔ ((recovery ≡ some (some manager)) × IsManagerId manager)
unfolding transaction_recovery_manager
transaction_recovery_manager-IsManagerId none manager =
    (λ p. absurd (ground arith), λ w. absurd (ground (arith, w.0)))
transaction_recovery_manager-IsManagerId (some none) manager =
    (λ p. absurd (ground arith), λ w. absurd (ground (arith, w.0)))
transaction_recovery_manager-IsManagerId (some (some m)) manager =
    let split = bind_ok (with_code internal (validate_resource_manager_id m)) (λ _. ok m) manager in
    (
      λ p.
          let (u, at_id, e) = split.0 p in
          let q = ok_unique (ok m) m manager refl e in
          (
            ap (λ x. some (some x)) q,
            subst IsManagerId q (
                (validate_resource_manager_id-IsManagerId m).0
                  ((with_code_ok internal (validate_resource_manager_id m) u).0 at_id)),
          ),
      λ w.
          let q : manager ≡ m = cc (w.0) in
          split.1 (
            tt,
            (with_code_ok internal (validate_resource_manager_id m) tt).1
                ((validate_resource_manager_id-IsManagerId m).1 (subst IsManagerId q w.1)),
            ap ok (sym q),
          ),
    )

-- The provider has a recovery manager with a proper identifier, and the request names a branch of it.
abbrev pub Accepts :
    Option (Option Bytes) → Option TransactionBranchId → TransactionBranchId → Type 0
Accepts recovery requested branch =
    (manager : Bytes) × (recovery ≡ some (some manager))
    × (requested ≡ some branch)
    × IsBranchOf manager branch

pub request-Accepts :
    (recovery : Option (Option Bytes)) (requested : Option TransactionBranchId)
    (branch : TransactionBranchId)
    → (prepare_transaction_branch_request recovery requested ≡ ok branch)
      ↔ Accepts recovery requested branch
unfolding prepare_transaction_branch_request
request-Accepts recovery requested branch =
    let split =
      bind_ok (transaction_recovery_manager recovery)
        (λ manager. with_code invalid_argument (validate_transaction_branch_id requested manager))
        branch in
    (
      λ p.
          let (manager, at_manager, at_branch) = split.0 p in
          let (known, _) =
            (transaction_recovery_manager-IsManagerId recovery manager).0 at_manager in
          let (named, proper) = (validate-IsBranchOf requested manager branch).0 (
            (with_code_ok invalid_argument (validate_transaction_branch_id requested manager)
                branch).0
              at_branch) in
          (manager, known, named, proper),
      λ w. split.1 (
        w.0,
        (transaction_recovery_manager-IsManagerId recovery w.0).1 (w.1, w.3.manager_id),
        (with_code_ok invalid_argument (validate_transaction_branch_id requested w.0) branch).1
            ((validate-IsBranchOf requested w.0 branch).1 (w.2, w.3)),
      ),
    )
