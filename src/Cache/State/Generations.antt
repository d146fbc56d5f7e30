-- ===== src/Cache/State/Generations.antt =====
-- How the methods move the generations, and what they keep of the stored elements.
use kubling_providers.Base
use kubling_providers.Base.{
  ℕ, zero, suc, ◌+◌, ◌≤◌, ◌<◌, ◌≡◌, refl, sym, ap, subst, ◌∙◌, ◌⊎◌, inl, inr, List, [], ◌∷◌, Option,
  none, some, Map, IsMap, Bytes, bytes_eq, bytes_beq, bytes_beq_iff, lookup-insert, In, All,
  Bool-cases, Option-cases, ltb, arith,
}
use kubling_providers.Cache.Keys.{Generation, QueryKey, CachedResult, key_eq}
use kubling_providers.Cache.Memory
use kubling_providers.Cache.Memory.{
  Element, MemoryStore, All-unlink, All_found, remove, evict, over_limit, back, drop_existing,
  push_front, find_handle, get_element, get_handle, unlink,
}
use kubling_providers.Cache.State.{
  CacheState, u64_mod, next_u64, or_zero, generation, bump, bump_all, expand_entities,
  invalidate_entities, invalidate_all,
}
use kubling_providers.Cache.State.Expand.{expand_from}
use kubling_providers.Cache.State.Reach.{Unique, Reach, expand_from-IsExpansion}

bump_all_out :
    (g : Map Bytes ℕ) (es : List Bytes) (e : Bytes)
    → ¬ In e es
    → Base.lookup e (bump_all g es) ≡ Base.lookup e g
unfolding bump_all
bump_all_out g [] e n = refl
bump_all_out g (x ∷ es) e n = ground (
  arith,
  bump_all_out (bump g x) es e (λ h. n (inr h)),
  lookup-insert x e (next_u64 (or_zero (Base.lookup x g))) g,
  bytes_beq_iff x e,
  λ (p : x ≡ e). n (inl p),
)

-- Bumping distinct entities moves each of them by one, and no other.
bump_all_either :
    (g : Map Bytes ℕ) (es : List Bytes) (e : Bytes)
    → Unique es
    → ((¬ In e es) × (Base.lookup e (bump_all g es) ≡ Base.lookup e g))
      ⊎ (In e es × (or_zero (Base.lookup e (bump_all g es)) ≡ next_u64 (or_zero (Base.lookup e g))))
unfolding bump_all
bump_all_either g [] e u = inl (λ h. h, refl)
bump_all_either g (x ∷ es) e u = elim (Bool-cases (bytes_beq x e)) [
  | inl same ↦ inr (
    inl ((bytes_beq_iff x e).0 same),
    rw
        (bump_all_out (bump g x) es e
          (λ h. u.0 (subst (λ y. In y es) (sym ((bytes_beq_iff x e).0 same)) h)))
        (ground
          (arith, lookup-insert x e (next_u64 (or_zero (Base.lookup x g))) g, bytes_beq_iff x e)),
  )
  | inr ne ↦
      let kept : Base.lookup e (bump g x) ≡ Base.lookup e g =
        unfold bump in ground (arith, lookup-insert x e (next_u64 (or_zero (Base.lookup x g))) g) in
      elim (bump_all_either (bump g x) es e u.1) [
        | inl (n, p) ↦
            inl (λ h. elim h [ inl q ↦ ground (arith, bytes_beq_iff x e) | inr k ↦ n k ], p ∙ kept)
        | inr (i, p) ↦ inr (inr i, p ∙ ap (λ o. next_u64 (or_zero o)) kept)
      ]
]

-- Where the dependency map has each key once, an invalidation moves the generation of exactly the
-- entities that are reached from the given ones.
pub generation-invalidate_entities :
    (s : CacheState) (es : List Bytes) (e : Bytes)
    → IsMap s.dependencies
    → ((¬ Reach s.dependencies es e) × (generation (invalidate_entities s es) e ≡ generation s e))
      ⊎ (Reach s.dependencies es e
          × (generation (invalidate_entities s es) e ≡ record {
            global = (generation s e).global;
            entity_generation = next_u64 (generation s e).entity_generation;
          }))
unfolding generation invalidate_entities expand_entities
generation-invalidate_entities s es e m =
    let x = expand_from-IsExpansion s.dependencies es m in
    elim (bump_all_either s.entity_generations (expand_from s.dependencies es) e x.unique) [
      | inl (n, p) ↦ inl (λ r. n (x.complete e r), ground (arith, p))
      | inr (i, p) ↦ inr (x.sound e i, ground (arith, p))
    ]

-- No counter has passed `n`.
pub record Within (n : ℕ) (s : CacheState) : Type 0 where
  pub global : s.global_generation ≤ n
  pub entity : (e : Bytes) → (generation s e).entity_generation ≤ n

abbrev pub GenLe : Generation → Generation → Type 0
GenLe g h = (g.global ≤ h.global) × (g.entity_generation ≤ h.entity_generation)

-- Below the wrap-around the generations only grow.
pub invalidate_entities-Within :
    (n : ℕ) (s : CacheState) (es : List Bytes)
    → IsMap s.dependencies
    → suc n < u64_mod
    → Within n s
    → Within (suc n) (invalidate_entities s es)
      × ((e : Bytes) → GenLe (generation s e) (generation (invalidate_entities s es) e))
invalidate_entities-Within n s es m h w = (
  record {
    global = unfold invalidate_entities in omega (arith, w.global);
    entity = λ e. ground (arith, moved e, w.entity e);
  },
  λ e. ground (arith, moved e, w.entity e),
)
  where
    moved :
        (e : Bytes)
        → (generation (invalidate_entities s es) e ≡ generation s e)
          ⊎ (generation (invalidate_entities s es) e ≡ record {
            global = (generation s e).global;
            entity_generation = next_u64 (generation s e).entity_generation;
          })
    moved e = elim (generation-invalidate_entities s es e m) [
      | inl (_, p) ↦ inl p
      | inr (_, p) ↦ inr p
    ]

pub invalidate_all-Within :
    (n : ℕ) (s : CacheState)
    → suc n < u64_mod
    → Within n s
    → Within (suc n) (invalidate_all s)
      × ((e : Bytes) → GenLe (generation s e) (generation (invalidate_all s) e))
unfolding invalidate_all generation
invalidate_all-Within n s h w = (
  record { global = omega (arith, w.global); entity = λ e. omega (arith, w.entity e) },
  λ e. (omega (arith, w.global), omega arith),
)

-- What holds of all stored elements is kept by reads, and by writes of such an element.
module _ (Q : QueryKey → CachedResult → Type 0) where
  abbrev pub AllStored : MemoryStore → Type 0
  AllStored s = All (λ (el : Element). Q el.key el.result) s.recency

  remove-AllStored : (s : MemoryStore) (o : Option Element) → AllStored s → AllStored (remove s o)
  unfolding remove
  remove-AllStored s none a = a
  remove-AllStored s (some el) a = All-unlink (λ x. Q x.key x.result) el.handle s.recency a

  evict-AllStored : (fuel : ℕ) (s : MemoryStore) → AllStored s → AllStored (evict fuel s)
  unfolding evict
  evict-AllStored zero s a = a
  evict-AllStored (suc fuel) s a = elim (Bool-cases (over_limit s)) [
    | inl e ↦ rw (e, evict) (evict-AllStored fuel _ (remove-AllStored s (back s.recency) a))
    | inr e ↦ rw (e, evict) a
  ]

  drop_existing-AllStored :
      (s : MemoryStore) (o : Option ℕ) → AllStored s → AllStored (drop_existing s o)
  unfolding drop_existing
  drop_existing-AllStored s none a = a
  drop_existing-AllStored s (some h) a = remove-AllStored s (find_handle h s.recency) a

  pub set-AllStored :
      (s : MemoryStore) (now : ℕ) (key : QueryKey) (result : CachedResult)
      → Q key result
      → AllStored s
      → AllStored (Memory.set s now key result)
  set-AllStored s now key result q a = elim (Bool-cases (ltb s.max_bytes result.size)) [
    | inl e ↦ unfold Memory.set in rw e a
    | inr e ↦
        let p = push_front (drop_existing s (Base.lookup key s.entries)) now key result in
        unfold Memory.set in
        rw e (
          evict-AllStored (Base.length p.recency) p
            (unfold push_front in (q, drop_existing-AllStored s (Base.lookup key s.entries) a)))
  ]

  get_element-AllStored :
      (s : MemoryStore) (now h : ℕ) (o : Option Element)
      → find_handle h s.recency ≡ o
      → AllStored s
      → AllStored (get_element s now o).0
  unfolding get_element
  get_element-AllStored s now h none e a = a
  get_element-AllStored s now h (some el) e a = elim (Bool-cases (ltb now el.expires_at)) [
    | inl live ↦ rw live (
      All_found (λ x. Q x.key x.result) h el s.recency a e,
      All-unlink (λ x. Q x.key x.result) el.handle s.recency a,
    )
    | inr over ↦ rw over (remove-AllStored s (some el) a)
  ]

  pub get-AllStored :
      (s : MemoryStore) (now : ℕ) (key : QueryKey)
      → AllStored s
      → AllStored (Memory.get s now key).0
  unfolding Memory.get get_handle
  get-AllStored s now key a = elim (Option-cases (Base.lookup key s.entries)) [
    | inl e ↦ rw (e, get_handle) a
    | inr (h, e) ↦ rw (e, get_handle) (get_element-AllStored s now h _ refl a)
  ]
