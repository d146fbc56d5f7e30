-- ===== src/Cache/Memory/Hits.antt =====
-- When the store answers, and with what.
use kubling_providers.Base.{
  ℕ, suc, ◌+◌, ◌≤◌, ◌<◌, ◌≡◌, ◌⊎◌, refl, ap, sym, ◌∙◌, inl, inr, false, List, [], ◌∷◌, ◌++◌, Option,
  none, some, lookup, length, Option-cases, ltb, if◌then◌else◌, arith, ◌==◌,
}
use kubling_providers.Cache.Keys.{QueryKey, CachedResult, key_eq, key_beq_iff}
use kubling_providers.Cache.Memory.{
  Element, find_key, find_key-unlink, total_size, MemoryStore, remove, get, get_handle, get_element,
  drop_existing, push_front, set,
}
use kubling_providers.Cache.Memory.Invariant.{IsLinked, indexed_found, set-IsLinked}
use kubling_providers.Cache.Memory.Eviction.{drop_existing_limits, pushed, Evicts, set-Evicts}

-- The result of an element before its deadline.
abbrev pub live : ℕ → Option Element → Option CachedResult
live now none = none
live now (some el) = if ltb now el.expires_at then some el.result else none

-- A read of a linked store answers with the result of the newest element under the key, exactly
-- before that element's deadline, and with nothing where the key has no element.
pub get-eq-live :
    (s : MemoryStore) (now : ℕ) (key : QueryKey)
    → IsLinked s
    → (get s now key).1 ≡ live now (find_key key s.recency)
unfolding get get_handle get_element
get-eq-live s now key l = elim (Option-cases (lookup key s.entries)) [
  | inl e ↦ rw (e, get_handle) (ground (arith, l.indexed key))
  | inr (h, e) ↦
      let (el, at_h, at_key, same_key, same_handle) = indexed_found s l key h e in
      rw (e, get_handle, at_h, at_key) (ground arith)
]

-- Of the elements kept, a key finds the one it found before, or none.
find_key-append :
    (k : QueryKey) (xs ys : List Element)
    → (find_key k xs ≡ find_key k (xs ++ ys)) ⊎ (find_key k xs ≡ none)
unfolding find_key
find_key-append k [] ys = inr refl
find_key-append k (x ∷ xs) ys = ground (arith, find_key-append k xs ys)

drop_existing_other :
    (s : MemoryStore) (key j : QueryKey)
    → IsLinked s
    → (key == j) ≡ false
    → find_key j (drop_existing s (lookup key s.entries)).recency ≡ find_key j s.recency
unfolding drop_existing
drop_existing_other s key j l ne = elim (Option-cases (lookup key s.entries)) [
  | inl e ↦ rw (e, drop_existing) refl
  | inr (h, e) ↦
      let (el, at_h, at_key, same_key, same_handle) = indexed_found s l key h e in
      rw (e, drop_existing, at_h)
        (unfold remove in
          ground (
            arith,
            find_key-unlink j el.handle el s.recency l.distinct (ground (arith, at_h)),
            key_beq_iff key j,
            key_beq_iff el.key j,
          ))
]

-- the new element survives the loop
kept_front :
    (s t : MemoryStore) (el : Element) (rest : List Element)
    → s.recency ≡ el ∷ rest
    → el.result.size ≤ s.max_bytes
    → 0 < s.max_entries
    → Evicts s t
    → (kept : List Element) × (t.recency ≡ el ∷ kept)
kept_front s t el rest e fits room k = front t.recency k.dropped (sym k.kept ∙ e) k.longest
  where
    front :
        (xs ds : List Element)
        → xs ++ ds ≡ el ∷ rest
        → ((d : Element) (ds' : List Element)
            → ds ≡ d ∷ ds'
            → (s.max_entries < suc (length xs)) ⊎ (s.max_bytes < total_size xs + d.result.size))
        → (kept : List Element) × (xs ≡ el ∷ kept)
    front (x ∷ xs) ds p h = (xs, ground arith)
    front [] ds p h = absurd (no_room (h el rest p))
      where
        no_room : (s.max_entries < 1) ⊎ (s.max_bytes < total_size [] + el.result.size) → ⊥
        no_room (inl a) = omega arith
        no_room (inr b) = unfold total_size in omega arith

-- the element that a write puts in front
abbrev written : MemoryStore → ℕ → QueryKey → CachedResult → Element
written s now key result = record {
  handle = (drop_existing s (lookup key s.entries)).next_handle;
  key = key;
  result = result;
  expires_at = now + (drop_existing s (lookup key s.entries)).ttl;
}

set_front :
    (s : MemoryStore) (now : ℕ) (key : QueryKey) (result : CachedResult)
    → IsLinked s
    → result.size ≤ s.max_bytes
    → 0 < s.max_entries
    → (kept : List Element) × ((set s now key result).recency ≡ written s now key result ∷ kept)
unfolding push_front
set_front s now key result l fits room =
    let limits = drop_existing_limits s (lookup key s.entries) in
    kept_front (pushed s now key result) (set s now key result) (written s now key result)
      (drop_existing s (lookup key s.entries)).recency refl (omega arith) (omega arith)
      (set-Evicts s now key result l fits)

-- In a linked store that may hold an entry, a result that fits is what a later read of its key
-- finds, before its deadline and not after.
pub get-set_self :
    (s : MemoryStore) (now later : ℕ) (key : QueryKey) (result : CachedResult)
    → IsLinked s
    → result.size ≤ s.max_bytes
    → 0 < s.max_entries
    → (get (set s now key result) later key).1
      ≡ (if ltb later (now + s.ttl) then some result else none)
unfolding find_key
get-set_self s now later key result l fits room =
    let (kept, e) = set_front s now key result l fits room in
    rw (get-eq-live (set s now key result) later key (set-IsLinked s now key result l), e)
      (ground (arith, key_beq_iff key key, drop_existing_limits s (lookup key s.entries)))

pushed_other :
    (s : MemoryStore) (now : ℕ) (key j : QueryKey) (result : CachedResult)
    → IsLinked s
    → (key == j) ≡ false
    → find_key j (pushed s now key result).recency ≡ find_key j s.recency
unfolding push_front find_key
pushed_other s now key j result l ne = rw ne (drop_existing_other s key j l ne)

live_kept :
    (now : ℕ) (k : QueryKey) (xs ys zs : List Element)
    → find_key k (xs ++ ys) ≡ find_key k zs
    → (live now (find_key k xs) ≡ live now (find_key k zs)) ⊎ (live now (find_key k xs) ≡ none)
live_kept now k xs ys zs e = elim (find_key-append k xs ys) [
  | inl same ↦ inl (ap (live now) (same ∙ e))
  | inr gone ↦ inr (ap (live now) gone)
]

-- In a linked store, writing a result that fits changes no other key's answer, save that it may
-- evict its element.
pub get-set_other :
    (s : MemoryStore) (now later : ℕ) (key j : QueryKey) (result : CachedResult)
    → IsLinked s
    → result.size ≤ s.max_bytes
    → (key == j) ≡ false
    → ((get (set s now key result) later j).1 ≡ (get s later j).1)
      ⊎ ((get (set s now key result) later j).1 ≡ none)
get-set_other s now later key j result l fits ne =
    let k = set-Evicts s now key result l fits in
    rw
      (
        get-eq-live (set s now key result) later j (set-IsLinked s now key result l),
        get-eq-live s later j l,
      )
      (live_kept later j (set s now key result).recency k.dropped s.recency
        (ap (find_key j) (sym k.kept) ∙ pushed_other s now key j result l ne))
