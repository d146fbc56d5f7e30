-- ===== src/Cache/Memory/Newest.antt =====
-- What a write into the store keeps (memoryStore.set, sdk-go/provider/cache/memory.go).
use kubling_providers.Base.{
  ℕ, suc, ◌+◌, ◌≤◌, ◌<◌, ◌≡◌, refl, sym, ◌∙◌, ap, ◌⊎◌, inl, inr, List, [], ◌∷◌, ◌++◌, none, some,
  lookup, length, Bool-cases, Option-cases, ltb, if◌then◌else◌, ◌==◌, arith,
}
use kubling_providers.Cache.Keys.{QueryKey, CachedResult, key_eq, key_beq_iff}
use kubling_providers.Cache.Memory.{
  Element, find_key, unlink, total_size, Distinct, find_key_found, unlink_missing, MemoryStore,
  remove, drop_existing, push_front, evict, set,
}
use kubling_providers.Cache.Memory.Invariant.{IsLinked, IsBounded, indexed_found, evict-IsLinked}
use kubling_providers.Cache.Memory.Eviction.{
  set-Evicts, evict_within, within-IsBounded, pushed, pushed-IsLinked, drop_existing_limits,
  set_limits,
}

-- The elements with another key, in their order.
unfoldable pub without : QueryKey → List Element → List Element
without k [] = []
without k (x ∷ xs) = let rest = without k xs in if x.key == k then rest else x ∷ rest

without-missing : (k : QueryKey) (xs : List Element) → find_key k xs ≡ none → without k xs ≡ xs
unfolding find_key without
without-missing k [] p = refl
without-missing k (x ∷ xs) p = ground (arith, without-missing k xs)

unlink-without :
    (k : QueryKey) (el : Element) (xs : List Element)
    → Distinct xs
    → find_key k xs ≡ some el
    → unlink el.handle xs ≡ without k xs
unfolding find_key without unlink
unlink-without k el [] d p = absurd (cc)
unlink-without k el (x ∷ xs) d p = elim (Bool-cases (x.key == k)) [
  | inl hit ↦ ground (
    arith,
    p,
    hit,
    d.0,
    d.1,
    key_beq_iff x.key k,
    unlink_missing x.handle xs,
    without-missing k xs,
  )
  | inr miss ↦ ground (arith, p, miss, d.0, find_key_found k el xs d.2, unlink-without k el xs d.2)
]

drop_existing-without :
    (s : MemoryStore) (key : QueryKey)
    → IsLinked s
    → (drop_existing s (lookup key s.entries)).recency ≡ without key s.recency
unfolding drop_existing remove
drop_existing-without s key l = elim (Option-cases (lookup key s.entries)) [
  | inl e ↦
      rw (e, drop_existing) (sym (without-missing key s.recency (ground (arith, l.indexed key, e))))
  | inr (h, e) ↦
      let (el, at_h, at_key, same_key, same_handle) = indexed_found s l key h e in
      rw (e, drop_existing, at_h) (unlink-without key el s.recency l.distinct at_key)
]

abbrev new : ℕ → QueryKey → CachedResult → ℕ → Element
new handle key result deadline = record {
  handle = handle;
  key = key;
  result = result;
  expires_at = deadline;
}

-- `t` holds a new element in front, and of the other elements of `s`, less those with the key, the longest
-- run of newest ones that the limits allow.
pub record KeepsNewest (key : QueryKey) (result : CachedResult) (deadline : ℕ) (s t : MemoryStore)
    : Type 0 where
  pub front : Element
  pub is_new : (front.key ≡ key) × (front.result ≡ result) × (front.expires_at ≡ deadline)
  pub dropped : List Element
  pub kept : front ∷ without key s.recency ≡ t.recency ++ dropped
  pub fits : (length t.recency ≤ s.max_entries) × (total_size t.recency ≤ s.max_bytes)
  pub longest :
      (el : Element) (rest : List Element)
      → dropped ≡ el ∷ rest
      → (s.max_entries < suc (length t.recency))
        ⊎ (s.max_bytes < total_size t.recency + el.result.size)

set-fits :
    (s : MemoryStore) (now : ℕ) (key : QueryKey) (result : CachedResult)
    → IsLinked s
    → result.size ≤ s.max_bytes
    → IsBounded (set s now key result)
unfolding set
set-fits s now key result l fits = elim (Bool-cases (ltb s.max_bytes result.size)) [
  | inl e ↦ absurd (ground arith)
  | inr e ↦
      let p = pushed s now key result in
      let pl : IsLinked p = pushed-IsLinked s now key result l in
      rw e (
        within-IsBounded (evict (length p.recency) p) (evict-IsLinked (length p.recency) p pl)
          (evict_within (length p.recency) p pl (omega arith)))
]

-- In a linked store, the write of a result that fits offers to the limits a new element with the key, the
-- result and the deadline that the store's retention gives it, before the other elements in their order,
-- less an older one with the same key. What the store then holds is within its limits, and it is the longest
-- run of these from the front on that is.
pub set-KeepsNewest :
    (s : MemoryStore) (now : ℕ) (key : QueryKey) (result : CachedResult)
    → IsLinked s
    → result.size ≤ s.max_bytes
    → KeepsNewest key result (now + s.ttl) s (set s now key result)
unfolding push_front
set-KeepsNewest s now key result l fits =
    let g = set-Evicts s now key result l fits in
    let b = set-fits s now key result l fits in
    let dropping = drop_existing s (lookup key s.entries) in
    let limits = drop_existing_limits s (lookup key s.entries) in
    let (same_entries, same_bytes) = set_limits s now key result in
    record {
      front = new dropping.next_handle key result (now + dropping.ttl);
      is_new = (refl, refl, ap (λ n. now + n) limits.2);
      dropped = g.dropped;
      kept =
          ap (λ xs. new dropping.next_handle key result (now + dropping.ttl) ∷ xs)
            (sym (drop_existing-without s key l))
          ∙ g.kept;
      fits = (omega (arith, b.entries_fit, same_entries), omega (arith, b.bytes_fit, same_bytes));
      longest = λ el rest e. elim (g.longest el rest e) [
        | inl many ↦ inl (omega (arith, many, limits.0))
        | inr large ↦ inr (omega (arith, large, limits.1))
      ];
    }
