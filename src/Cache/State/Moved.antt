-- ===== src/Cache/State/Moved.antt =====
-- What an invalidation does to the generations, and sets of entities.
use kubling_providers.Base
use kubling_providers.Base.{
  ◌≡◌, refl, sym, ◌∙◌, subst, ◌⊎◌, inl, inr, List, [], ◌∷◌, IsMap, Bytes, bytes_eq, bytes_beq,
  bytes_beq_iff, In, Bool-cases, true, false, arith,
}
use kubling_providers.Cache.State.{
  CacheState, EntitySet, members, add_all, next_u64, generation, invalidate_entities,
  invalidate_all,
}
use kubling_providers.Cache.State.Expand.{is_empty}
use kubling_providers.Cache.State.Reach.{root}
use kubling_providers.Cache.State.Generations.{generation-invalidate_entities}

-- The generation that cached results of `e` are kept under has moved on.
abbrev pub Moved : CacheState → CacheState → Bytes → Type 0
Moved s s' e =
    (s'.global_generation ≡ next_u64 s.global_generation)
    ⊎ ((generation s' e).entity_generation ≡ next_u64 (generation s e).entity_generation)

pub invalidate_all-Moved : (s : CacheState) (e : Bytes) → Moved s (invalidate_all s) e
unfolding invalidate_all
invalidate_all-Moved s e = inl refl

pub invalidate_entities-Moved :
    (s : CacheState) (es : List Bytes) (e : Bytes)
    → IsMap s.dependencies
    → is_empty e ≡ false
    → In e es
    → Moved s (invalidate_entities s es) e
invalidate_entities-Moved s es e m n i = elim (generation-invalidate_entities s es e m) [
  | inl (never, _) ↦ absurd (never (root e i n))
  | inr (_, p) ↦ inr (ground (arith, p))
]

members-delete :
    (k e : Bytes) (m : EntitySet) → In e (members m) → (k ≡ e) ⊎ In e (members (Base.delete k m))
unfolding Base.delete
members-delete k e [] i = absurd i
members-delete k e ((j, u) ∷ m) (inl p) = elim (Bool-cases (bytes_beq j k)) [
  | inl q ↦ inl (sym ((bytes_beq_iff j k).0 q) ∙ p)
  | inr q ↦ rw q (inr (inl p))
]
members-delete k e ((j, u) ∷ m) (inr i) = elim (members-delete k e m i) [
  | inl p ↦ inl p
  | inr r ↦ elim (Bool-cases (bytes_beq j k)) [ inl q ↦ rw q (inr r) | inr q ↦ rw q (inr (inr r)) ]
]

pub members-insert :
    (k e : Bytes) (m : EntitySet) → In e (members m) → In e (members (Base.insert k tt m))
unfolding Base.insert
members-insert k e m i = members-delete k e m i

pub members-insert_self : (k : Bytes) (m : EntitySet) → In k (members (Base.insert k tt m))
unfolding Base.insert
members-insert_self k m = inl refl

pub members-add_all :
    (m : EntitySet) (es : List Bytes) (e : Bytes)
    → In e (members m) ⊎ In e es
    → In e (members (add_all m es))
members-add_all m [] e (inl i) = i
members-add_all m [] e (inr i) = absurd i
members-add_all m (x ∷ es) e (inl i) =
    members-add_all (Base.insert x tt m) es e (inl (members-insert x e m i))
members-add_all m (x ∷ es) e (inr (inl p)) =
    members-add_all (Base.insert x tt m) es e
      (inl (subst (λ y. In y (members (Base.insert x tt m))) p (members-insert_self x m)))
members-add_all m (x ∷ es) e (inr (inr i)) = members-add_all (Base.insert x tt m) es e (inr i)
