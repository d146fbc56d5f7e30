-- ===== src/Cache/Connection/Retained.antt =====
-- What happens to an invalidation that a prepared branch retains, until the branch is resolved.
use kubling_providers.Base
use kubling_providers.Base.{
  ℕ, ◌≡◌, ◌≢◌, refl, sym, ap, subst, ◌∙◌, ◌⊎◌, inl, inr, List, [], ◌∷◌, ◌++◌, Option, none, some,
  Bool, true, false, IsMap, Bytes, bytes_eq, bytes_beq, bytes_beq_iff, In, Bool-cases,
  if◌then◌else◌, append_same_length, arith,
}
use kubling_providers.Messages.{TransactionBranchId, TransactionBranchState}
use kubling_providers.Cache.State.{
  CacheState, EntitySet, cached_branch_key, retain_branch_invalidation, resolve_branch_invalidation,
  invalidate_entities, invalidate_all,
}
use kubling_providers.Cache.State.Expand.{is_empty}
use kubling_providers.Cache.State.Moved.{Moved}
use kubling_providers.Cache.State.Branches.{
  Covers, Held, retain-keeps-Held, resolve-Moved, resolve-keeps-Held, delete-keeps-Held,
}
use kubling_providers.Cache.Connection.Pending.{NothingCommitted, IsUnresolved, not_committed-cases}
use kubling_providers.Cache.Connection.{
  branch_state_may_have_committed, resolve_branch, forget_branch,
}

-- The keys of two branches of one resource manager are equal only if the branches are.
pub cached_branch_key-injective :
    (manager left right : Bytes)
    → cached_branch_key (record { resource_manager_id = manager; branch_id = left })
      ≡ cached_branch_key (record { resource_manager_id = manager; branch_id = right })
    → left ≡ right
unfolding cached_branch_key
cached_branch_key-injective manager left right p =
    same_tail (append_same_length manager manager (0 ∷ left) (0 ∷ right) refl p).1
  where
    same_tail : ◌≡◌ {A = Bytes} (0 ∷ left) (0 ∷ right) → left ≡ right
    same_tail q = cc

-- The events that touch the shared state after a branch was prepared.
pub data BranchEvent : Type 0 where
  resolves : TransactionBranchId → Option TransactionBranchState → BranchEvent
  forgets : TransactionBranchId → Bool → BranchEvent
  retains : TransactionBranchId → EntitySet → Bool → BranchEvent
  invalidates : List Bytes → BranchEvent
  invalidates_all : BranchEvent

unfoldable pub apply : CacheState → BranchEvent → CacheState
apply s (resolves branch reply) = resolve_branch s branch reply
apply s (forgets branch succeeded) = forget_branch s branch succeeded
apply s (retains branch entities all) = retain_branch_invalidation s branch entities all
apply s (invalidates entities) = invalidate_entities s entities
apply s invalidates_all = invalidate_all s

-- The event ends the branch with nothing committed, or forgets it.
abbrev pub EndsQuietly : BranchEvent → TransactionBranchId → Type 0
EndsQuietly (resolves other (some state)) branch =
    (cached_branch_key other ≡ cached_branch_key branch) × NothingCommitted state
EndsQuietly (forgets other succeeded) branch =
    (cached_branch_key other ≡ cached_branch_key branch) × (succeeded ≡ true)
EndsQuietly _ branch = ⊥

-- The branch is asked to end, and the answer is a state that is no end.
abbrev pub StaysUnresolved : BranchEvent → TransactionBranchId → Type 0
StaysUnresolved (resolves other (some state)) branch =
    (cached_branch_key other ≡ cached_branch_key branch) × IsUnresolved state
StaysUnresolved _ branch = ⊥

-- either the retained entry is the branch's own, or it stays
resolve_either :
    (s : CacheState) (other branch : TransactionBranchId) (may : Bool) (e : Bytes)
    → IsMap s.dependencies
    → is_empty e ≡ false
    → Held s branch e
    → Held (resolve_branch_invalidation s other may) branch e
      ⊎ Moved s (resolve_branch_invalidation s other may) e
      ⊎ ((cached_branch_key other ≡ cached_branch_key branch) × (may ≡ false))
resolve_either s other branch may e m n h =
    elim (Bool-cases (bytes_beq (cached_branch_key other) (cached_branch_key branch))) [
      | inr ne ↦ inl (
          resolve-keeps-Held s other branch may e
            (λ p.
              ground (arith, bytes_beq_iff (cached_branch_key other) (cached_branch_key branch)))
            h)
      | inl same ↦
          let p = (bytes_beq_iff (cached_branch_key other) (cached_branch_key branch)).0 same in
          elim (Bool-cases may) [
            | inr quiet ↦ inr (inr (p, quiet))
            | inl committed ↦ rw committed (inr (inl (resolve-Moved s other e m n (inl (own p h)))))
          ]
    ]
  where
    own : cached_branch_key other ≡ cached_branch_key branch → Held s branch e → Held s other e
    own p k = subst (λ key. Covers (Base.lookup key s.branch_invalidations) e) (sym p) k

-- Where the dependency map has each key once, an invalidation of an entity with a key, retained for
-- a branch, stays retained through any event, or is carried out, unless the event is that the branch
-- was forgotten, or ended with nothing committed (read-only, rolled back or heuristically rolled back), or
-- that its manager answered with a state that is no end (unspecified, active, prepared or unknown).
pub apply-keeps :
    (s : CacheState) (event : BranchEvent) (branch : TransactionBranchId) (e : Bytes)
    → IsMap s.dependencies
    → is_empty e ≡ false
    → Held s branch e
    → Held (apply s event) branch e
      ⊎ Moved s (apply s event) e
      ⊎ EndsQuietly event branch
      ⊎ StaysUnresolved event branch
unfolding apply
apply-keeps s (resolves other none) branch e m n h =
    unfold resolve_branch in
    elim (resolve_either s other branch true e m n h) [
      | inl k ↦ inl k
      | inr (inl k) ↦ inr (inl k)
      | inr (inr (p, q)) ↦ absurd (true_false q)
    ]
  where
    true_false : true ≡ false → ⊥
    true_false q = cc
apply-keeps s (resolves other (some state)) branch e m n h =
    unfold resolve_branch in
    elim (resolve_either s other branch (branch_state_may_have_committed state) e m n h) [
      | inl k ↦ inl k
      | inr (inl k) ↦ inr (inl k)
      | inr (inr (p, q)) ↦ elim (not_committed-cases state q) [
        | inl nothing ↦ inr (inr (inl (p, nothing)))
        | inr open_yet ↦ inr (inr (inr (p, open_yet)))
      ]
    ]
apply-keeps s (forgets other true) branch e m n h =
    unfold forget_branch in
    elim (Bool-cases (bytes_beq (cached_branch_key other) (cached_branch_key branch))) [
      | inl same ↦ inr (
          inr (
            inl
              ((bytes_beq_iff (cached_branch_key other) (cached_branch_key branch)).0 same, refl)))
      | inr ne ↦ inl (
          delete-keeps-Held s other branch e
            (λ p.
              ground (arith, bytes_beq_iff (cached_branch_key other) (cached_branch_key branch)))
            h)
    ]
apply-keeps s (forgets other false) branch e m n h = unfold forget_branch in inl h
apply-keeps s (retains other entities all) branch e m n h =
    inl (retain-keeps-Held s other branch entities all e h)
apply-keeps s (invalidates entities) branch e m n h = unfold invalidate_entities in inl h
apply-keeps s invalidates_all branch e m n h = unfold invalidate_all in inl h
