-- ===== src/Cache/State/Branches.antt =====
-- The invalidations retained with prepared branches.
use kubling_providers.Base
use kubling_providers.Base.{
  ◌≡◌, ◌≢◌, refl, sym, ap, subst, ◌∙◌, ◌⊎◌, inl, inr, List, [], ◌∷◌, ◌++◌, Option, none, some, Bool,
  true, false, ◌||◌, IsMap, Bytes, bytes_eq, bytes_beq, bytes_beq_iff, In, Bool-cases, Option-cases,
  if◌then◌else◌, arith,
}
use kubling_providers.Messages.{TransactionBranchId}
use kubling_providers.Cache.State.{
  generation, BranchInvalidation, CacheState, EntitySet, members, add_all, or_none_pending,
  cached_branch_key, retain_branch_invalidation, apply_pending, resolve_branch_invalidation,
  discard_branch_invalidation, invalidate_all, invalidate_entities,
}
use kubling_providers.Cache.State.Expand.{is_empty}
use kubling_providers.Cache.State.Moved.{
  Moved, invalidate_all-Moved, invalidate_entities-Moved, members-add_all,
}

abbrev pub Covers : Option BranchInvalidation → Bytes → Type 0
Covers none e = ⊥
Covers (some b) e = (b.all ≡ true) ⊎ In e b.entities

-- The branch's retained invalidation covers `e`.
abbrev pub Held : CacheState → TransactionBranchId → Bytes → Type 0
Held s branch e = Covers (Base.lookup (cached_branch_key branch) s.branch_invalidations) e

retained : BranchInvalidation → EntitySet → Bool → BranchInvalidation
retained previous entities all =
    if all || previous.all then record { entities = []; all = true } else record {
      entities = members (add_all (add_all [] previous.entities) (members entities));
      all = false;
    }

retain-lookup :
    (s : CacheState) (branch : TransactionBranchId) (entities : EntitySet) (all : Bool)
    (key : Bytes)
    → Base.lookup key (retain_branch_invalidation s branch entities all).branch_invalidations ≡ (
        if bytes_beq (cached_branch_key branch) key
        then some (
            retained
              (or_none_pending (Base.lookup (cached_branch_key branch) s.branch_invalidations))
              entities
              all)
        else Base.lookup key s.branch_invalidations)
unfolding retain_branch_invalidation retained
retain-lookup s branch entities all key = ground (
  arith,
  Base.lookup-insert (cached_branch_key branch) key (record { entities = []; all = true })
      s.branch_invalidations,
  Base.lookup-insert (cached_branch_key branch) key
      (record {
        entities = members (
            add_all
              (add_all []
                (or_none_pending
                  (Base.lookup (cached_branch_key branch) s.branch_invalidations)).entities)
              (members entities));
        all = false;
      })
      s.branch_invalidations,
)

retained-Covers :
    (o : Option BranchInvalidation) (entities : EntitySet) (all : Bool) (e : Bytes)
    → Covers o e ⊎ ((all ≡ true) ⊎ In e (members entities))
    → Covers (some (retained (or_none_pending o) entities all)) e
unfolding retained
retained-Covers o entities all e h = elim (Bool-cases (all || (or_none_pending o).all)) [
  | inl every ↦ rw every (inl refl)
  | inr named ↦ rw named (
      inr (
        members-add_all (add_all [] (or_none_pending o).entities) (members entities) e
          (listed o h (ground arith) (ground arith))))
]
  where
    listed :
        (o : Option BranchInvalidation)
        → Covers o e ⊎ ((all ≡ true) ⊎ In e (members entities))
        → all ≡ false
        → (or_none_pending o).all ≡ false
        → In e (members (add_all [] (or_none_pending o).entities)) ⊎ In e (members entities)
    listed none (inl h) p q = absurd h
    listed (some b) (inl (inl every)) p q = absurd (ground arith)
    listed (some b) (inl (inr i)) p q = inl (members-add_all [] b.entities e (inr i))
    listed o (inr (inl every)) p q = absurd (ground arith)
    listed o (inr (inr i)) p q = inr i

-- What is retained covers the connection's pending invalidations.
pub retain-Held :
    (s : CacheState) (branch : TransactionBranchId) (entities : EntitySet) (all : Bool) (e : Bytes)
    → (all ≡ true) ⊎ In e (members entities)
    → Held (retain_branch_invalidation s branch entities all) branch e
retain-Held s branch entities all e h =
    let key = cached_branch_key branch in
    rw (retain-lookup s branch entities all key, Base.eq_self key)
      (retained-Covers (Base.lookup key s.branch_invalidations) entities all e (inr h))

-- Retaining more, for any branch, keeps what was retained.
pub retain-keeps-Held :
    (s : CacheState) (branch other : TransactionBranchId) (entities : EntitySet) (all : Bool)
    (e : Bytes)
    → Held s other e
    → Held (retain_branch_invalidation s branch entities all) other e
retain-keeps-Held s branch other entities all e h =
    let key = cached_branch_key branch in
    let key' = cached_branch_key other in
    elim (Bool-cases (bytes_beq key key')) [
      | inl same ↦
          rw (retain-lookup s branch entities all key', same)
            (retained-Covers (Base.lookup key s.branch_invalidations) entities all e (
              inl (
                subst (λ k. Covers (Base.lookup k s.branch_invalidations) e)
                  (sym ((bytes_beq_iff key key').0 same)) h)))
      | inr ne ↦ rw (retain-lookup s branch entities all key', ne) h
    ]

apply_pending-Moved :
    (s : CacheState) (o : Option BranchInvalidation) (e : Bytes)
    → IsMap s.dependencies
    → is_empty e ≡ false
    → Covers o e
    → Moved s (apply_pending s o) e
unfolding apply_pending
apply_pending-Moved s none e m n h = absurd h
apply_pending-Moved s (some b) e m n h = elim (Bool-cases b.all) [
  | inl every ↦ rw every (invalidate_all-Moved s e)
  | inr named ↦ rw named (by_name b.entities (listed h named))
]
  where
    listed : Covers (some b) e → b.all ≡ false → In e b.entities
    listed (inl every) p = absurd (ground arith)
    listed (inr i) p = i

    by_name :
        (es : List Bytes)
        → In e es
        → Moved s (elim es [ [] ↦ s | x ∷ xs ↦ invalidate_entities s (x ∷ xs) ]) e
    by_name [] i = absurd i
    by_name (x ∷ xs) i = invalidate_entities-Moved s (x ∷ xs) e m n i

-- Where the dependency map has each key once, resolving a branch whose changes may have been
-- committed moves a generation of each entity with a key that its retained invalidation covers, and
-- of every entity where nothing is retained for the branch.
pub resolve-Moved :
    (s : CacheState) (branch : TransactionBranchId) (e : Bytes)
    → IsMap s.dependencies
    → is_empty e ≡ false
    → Held s branch e ⊎ (Base.lookup (cached_branch_key branch) s.branch_invalidations ≡ none)
    → Moved s (resolve_branch_invalidation s branch true) e
unfolding resolve_branch_invalidation
resolve-Moved s branch e m n (inl h) =
    let key = cached_branch_key branch in
    unfold generation in
    apply_pending-Moved (record s { branch_invalidations = Base.delete key s.branch_invalidations })
      (Base.lookup key s.branch_invalidations) e m n h
resolve-Moved s branch e m n (inr unknown) =
    rw unknown (unfold apply_pending invalidate_all in inl refl)

-- Invalidations leave the retained entries alone.
apply_pending-branches :
    (s : CacheState) (o : Option BranchInvalidation)
    → (apply_pending s o).branch_invalidations ≡ s.branch_invalidations
unfolding apply_pending
apply_pending-branches s none = refl
apply_pending-branches s (some b) = elim (Bool-cases b.all) [
  | inl every ↦ rw every refl
  | inr named ↦ rw named (by_name b.entities)
]
  where
    by_name :
        (es : List Bytes)
        → (elim es as (λ _. CacheState) [
          | [] ↦ s
          | x ∷ xs ↦ invalidate_entities s (x ∷ xs)
        ]).branch_invalidations
          ≡ s.branch_invalidations
    by_name [] = refl
    by_name (x ∷ xs) = refl

deleted-Covers :
    (key key' : Bytes) (m : Base.Map Bytes BranchInvalidation) (e : Bytes)
    → key ≢ key'
    → Covers (Base.lookup key' m) e
    → Covers (Base.lookup key' (Base.delete key m)) e
deleted-Covers key key' m e ne h = elim (Bool-cases (bytes_beq key key')) [
  | inl same ↦ absurd (ne ((bytes_beq_iff key key').0 same))
  | inr apart ↦ rw (Base.lookup-delete key key' m, apart) h
]

-- Resolving one branch, or forgetting it, keeps what is retained for another.
pub delete-keeps-Held :
    (s : CacheState) (branch other : TransactionBranchId) (e : Bytes)
    → cached_branch_key branch ≢ cached_branch_key other
    → Held s other e
    → Held (discard_branch_invalidation s branch) other e
unfolding discard_branch_invalidation
delete-keeps-Held s branch other e ne h =
    deleted-Covers (cached_branch_key branch) (cached_branch_key other) s.branch_invalidations e ne
      h

pub resolve-keeps-Held :
    (s : CacheState) (branch other : TransactionBranchId) (may : Bool) (e : Bytes)
    → cached_branch_key branch ≢ cached_branch_key other
    → Held s other e
    → Held (resolve_branch_invalidation s branch may) other e
unfolding resolve_branch_invalidation
resolve-keeps-Held s branch other false e ne h =
    deleted-Covers (cached_branch_key branch) (cached_branch_key other) s.branch_invalidations e ne
      h
resolve-keeps-Held s branch other true e ne h =
    rw
      (apply_pending-branches
        (record s {
          branch_invalidations = Base.delete (cached_branch_key branch) s.branch_invalidations;
        })
        (Base.lookup (cached_branch_key branch) s.branch_invalidations))
      (deleted-Covers (cached_branch_key branch) (cached_branch_key other) s.branch_invalidations e
        ne h)
