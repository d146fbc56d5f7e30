-- ===== src/Cache/Memory/Eviction.antt =====
-- The eviction loop ends within the limits, and drops the least recently used elements only.
use kubling_providers.Base.{
  ℕ, zero, suc, ◌+◌, ◌≤◌, ◌<◌, ◌≡◌, refl, ap, sym, subst, ◌∙◌, ◌⊎◌, inl, inr, true, false, List, [],
  ◌∷◌, ◌++◌, Option, none, some, lookup, length, length-append, Bool-cases, Option-cases, ltb,
  arith,
}
use mathlib.Core.List.{append_assoc, append-nil}
use kubling_providers.Cache.Keys.{QueryKey, CachedResult, key_eq}
use kubling_providers.Cache.Memory.{
  Element, find_handle, unlink, back, total_size, Distinct, length-unlink, find_back, back-none,
  MemoryStore, remove, drop_existing, push_front, over_limit, evict, set,
}
use kubling_providers.Cache.Memory.Invariant.{
  IsLinked, IsBounded, back-IsLinked, evict-IsLinked, drop_existing-IsLinked, push_front-IsLinked,
  set-IsLinked,
}

total_size-append : (xs ys : List Element) → total_size (xs ++ ys) ≡ total_size xs + total_size ys
unfolding total_size
total_size-append [] ys = omega arith
total_size-append (x ∷ xs) ys = omega (arith, total_size-append xs ys)

-- Taking the back element off leaves what stands before it.
unlink-back :
    (el : Element) (xs : List Element)
    → Distinct xs
    → back xs ≡ some el
    → unlink el.handle xs ++ el ∷ [] ≡ xs
unfolding unlink back find_handle
unlink-back el [] d p = cc
unlink-back el (x ∷ []) d p = ground arith
unlink-back el (x ∷ y ∷ xs) d p =
    ground (arith, unlink-back el (y ∷ xs) d.2 p, find_back el (y ∷ xs) d.2 p, d.0)

over_limit-false :
    (s : MemoryStore)
    → over_limit s ≡ false
    → (length s.entries ≤ s.max_entries) × (s.bytes ≤ s.max_bytes)
unfolding over_limit
over_limit-false s h = ground arith

empty_within : (s : MemoryStore) → IsLinked s → s.recency ≡ [] → over_limit s ≡ false
unfolding over_limit total_size
empty_within s l e = ground (arith, l.same_length, l.counted, ap length e, ap total_size e)

-- one turn of the loop, while the limits are passed
back_there :
    (s : MemoryStore)
    → IsLinked s
    → over_limit s ≡ true
    → (el : Element) × (back s.recency ≡ some el)
back_there s l over = elim (Option-cases (back s.recency)) [
  | inl e ↦ absurd (ground (arith, empty_within s l (back-none s.recency e)))
  | inr found ↦ found
]

pub evict_within :
    (fuel : ℕ) (s : MemoryStore)
    → IsLinked s
    → length s.recency ≤ fuel
    → over_limit (evict fuel s) ≡ false
unfolding evict
evict_within zero s l h = empty_within s l (nothing s.recency h)
  where
    nothing : (xs : List Element) → length xs ≤ 0 → xs ≡ []
    nothing [] h = refl
    nothing (x ∷ xs) h = absurd (omega arith)
evict_within (suc fuel) s l h = elim (Bool-cases (over_limit s)) [
  | inr e ↦ rw (e, evict) e
  | inl e ↦
      let (el, b) = back_there s l e in
      rw (e, evict)
        (evict_within fuel (remove s (back s.recency)) (back-IsLinked s l) (
          rw b (
            unfold remove in
            omega (
              arith,
              length-unlink el.handle el s.recency l.distinct (find_back el s.recency l.distinct b),
            ))))
]

-- What an eviction keeps is the longest run of newest elements that the limits allow.
pub record Evicts (s t : MemoryStore) : Type 0 where
  pub dropped : List Element
  pub kept : s.recency ≡ t.recency ++ dropped
  pub longest :
      (el : Element) (rest : List Element)
      → dropped ≡ el ∷ rest
      → (s.max_entries < suc (length t.recency))
        ⊎ (s.max_bytes < total_size t.recency + el.result.size)

over_sides :
    (s : MemoryStore)
    → IsLinked s
    → over_limit s ≡ true
    → (s.max_entries < length s.recency) ⊎ (s.max_bytes < total_size s.recency)
unfolding over_limit
over_sides s l over = ground (arith, l.same_length, l.counted)

Evicts-refl : (s : MemoryStore) → Evicts s s
Evicts-refl s = record {
  dropped = [];
  kept = sym (append-nil s.recency);
  longest = λ el rest e. absurd (nil_cons e);
}
  where
    nil_cons : {el : Element} {rest : List Element} → [] ≡ el ∷ rest → ⊥
    nil_cons e = cc

-- the element dropped first was over the limit with all that stood before it
last_dropped :
    (s t : MemoryStore) (el : Element) (ds : List Element)
    → IsLinked s
    → over_limit s ≡ true
    → s.recency ≡ (t.recency ++ ds) ++ el ∷ []
    → ((d : Element) (rest : List Element)
        → ds ≡ d ∷ rest
        → (s.max_entries < suc (length t.recency))
          ⊎ (s.max_bytes < total_size t.recency + d.result.size))
    → (d : Element) (rest : List Element) → ds ++ el ∷ [] ≡ d ∷ rest
    → (s.max_entries < suc (length t.recency))
      ⊎ (s.max_bytes < total_size t.recency + d.result.size)
unfolding total_size
last_dropped s t el (x ∷ xs) l over e longest d rest p = longest d xs (ground arith)
last_dropped s t el [] l over e longest d rest p = ground (
  arith,
  over_sides s l over,
  ap length e,
  ap total_size e,
  append-nil t.recency,
  length-append t.recency (el ∷ []),
  total_size-append t.recency (el ∷ []),
)

evict_more :
    (s t : MemoryStore) (el : Element)
    → IsLinked s
    → over_limit s ≡ true
    → back s.recency ≡ some el
    → Evicts (remove s (some el)) t
    → Evicts s t
unfolding remove
evict_more s t el l over b k = record {
  dropped = k.dropped ++ el ∷ [];
  kept = e ∙ append_assoc t.recency k.dropped (el ∷ []);
  longest = last_dropped s t el k.dropped l over e k.longest;
}
  where
    e : s.recency ≡ (t.recency ++ k.dropped) ++ el ∷ []
    e = sym (unlink-back el s.recency l.distinct b) ∙ ap (λ xs. xs ++ el ∷ []) k.kept

pub evict-Evicts : (fuel : ℕ) (s : MemoryStore) → IsLinked s → Evicts s (evict fuel s)
unfolding evict
evict-Evicts zero s l = Evicts-refl s
evict-Evicts (suc fuel) s l = elim (Bool-cases (over_limit s)) [
  | inr e ↦ rw (e, evict) (Evicts-refl s)
  | inl e ↦
      let (el, b) = back_there s l e in
      let rest = evict-Evicts fuel (remove s (back s.recency)) (back-IsLinked s l) in
      rw (e, evict)
        (evict_more s _ el l e b
          (subst (λ o. Evicts (remove s o) (evict fuel (remove s (back s.recency)))) b rest))
]

-- The store with its new element in front, before the loop.
abbrev pub pushed : MemoryStore → ℕ → QueryKey → CachedResult → MemoryStore
pushed s now key result = push_front (drop_existing s (lookup key s.entries)) now key result

pub pushed-IsLinked :
    (s : MemoryStore) (now : ℕ) (key : QueryKey) (result : CachedResult)
    → IsLinked s
    → IsLinked (pushed s now key result)
pushed-IsLinked s now key result l =
    let (dropped, missing) = drop_existing-IsLinked s key l in
    push_front-IsLinked _ now key result dropped missing

pub drop_existing_limits :
    (s : MemoryStore) (o : Option ℕ)
    → ((drop_existing s o).max_entries ≡ s.max_entries)
      × ((drop_existing s o).max_bytes ≡ s.max_bytes)
      × ((drop_existing s o).ttl ≡ s.ttl)
unfolding drop_existing
drop_existing_limits s none = (refl, refl, refl)
drop_existing_limits s (some h) = remove_limits (find_handle h s.recency)
  where
    remove_limits :
        (o : Option Element)
        → ((remove s o).max_entries ≡ s.max_entries)
          × ((remove s o).max_bytes ≡ s.max_bytes)
          × ((remove s o).ttl ≡ s.ttl)
    remove_limits none = (refl, refl, refl)
    remove_limits (some el) = (refl, refl, refl)

remove_same_limits :
    (s : MemoryStore) (o : Option Element)
    → ((remove s o).max_entries ≡ s.max_entries) × ((remove s o).max_bytes ≡ s.max_bytes)
unfolding remove
remove_same_limits s none = (refl, refl)
remove_same_limits s (some el) = (refl, refl)

evict_limits :
    (fuel : ℕ) (s : MemoryStore)
    → ((evict fuel s).max_entries ≡ s.max_entries) × ((evict fuel s).max_bytes ≡ s.max_bytes)
unfolding evict
evict_limits zero s = (refl, refl)
evict_limits (suc fuel) s =
    ground
      (arith, evict_limits fuel (remove s (back s.recency)), remove_same_limits s (back s.recency))

pub set_limits :
    (s : MemoryStore) (now : ℕ) (key : QueryKey) (result : CachedResult)
    → ((set s now key result).max_entries ≡ s.max_entries)
      × ((set s now key result).max_bytes ≡ s.max_bytes)
unfolding set push_front
set_limits s now key result = ground (
  arith,
  evict_limits (length (pushed s now key result).recency) (pushed s now key result),
  drop_existing_limits s (lookup key s.entries),
)

pub within-IsBounded : (s : MemoryStore) → IsLinked s → over_limit s ≡ false → IsBounded s
within-IsBounded s l h = record {
  entries_fit = omega (arith, (over_limit-false s h).0, l.same_length);
  bytes_fit = omega (arith, (over_limit-false s h).1, l.counted);
}

-- Writing into a linked store within its limits gives a linked store within the same limits: the
-- eviction loop ends by its own test.
pub set-IsBounded :
    (s : MemoryStore) (now : ℕ) (key : QueryKey) (result : CachedResult)
    → IsLinked s
    → IsBounded s
    → IsLinked (set s now key result)
      × IsBounded (set s now key result)
      × ((set s now key result).max_entries ≡ s.max_entries)
      × ((set s now key result).max_bytes ≡ s.max_bytes)
set-IsBounded s now key result l b = (
  set-IsLinked s now key result l,
  unfold set in
      elim (Bool-cases (ltb s.max_bytes result.size)) [
        | inl e ↦ rw e b
        | inr e ↦
            let p = pushed s now key result in
            let pl : IsLinked p = pushed-IsLinked s now key result l in
            rw e (
              within-IsBounded (evict (length p.recency) p) (evict-IsLinked (length p.recency) p pl)
                (evict_within (length p.recency) p pl (omega arith)))
      ],
  (set_limits s now key result).0,
  (set_limits s now key result).1,
)

pub set-Evicts :
    (s : MemoryStore) (now : ℕ) (key : QueryKey) (result : CachedResult)
    → IsLinked s
    → result.size ≤ s.max_bytes
    → Evicts (pushed s now key result) (set s now key result)
unfolding set
set-Evicts s now key result l fits = elim (Bool-cases (ltb s.max_bytes result.size)) [
  | inl e ↦ absurd (ground arith)
  | inr e ↦ rw e (
      evict-Evicts (length (pushed s now key result).recency) (pushed s now key result)
        (pushed-IsLinked s now key result l))
]
