-- ===== src/Cache/Memory/Invariant.antt =====
-- The map and the recency list of the store agree, and the limits hold.
use kubling_providers.Base.{
  ℕ, zero, suc, ◌≤◌, ◌<◌, ◌≡◌, refl, ap, ◌∷◌, Option, none, some, inl, inr, lookup, IsMap, length,
  All, lookup-delete, lookup-insert, delete-IsMap, insert-IsMap, length-delete, delete_missing,
  insert, Bool-cases, Option-cases, ltb, arith,
}
use kubling_providers.Cache.Keys.{QueryKey, CachedResult, key_eq, key_beq_iff}
use kubling_providers.Cache.Memory.{
  Element, find_handle, find_key, unlink, back, total_size, Distinct, find_handle-unlink,
  unlink-Distinct, find_key-unlink, length-unlink, total_size-unlink, find_handle_found,
  find_key_found, find_back, find_handle_fresh, All_found, All-unlink, All-mono, MemoryStore,
  new_memory_store, remove, get, get_element, get_handle, drop_existing, push_front, over_limit,
  evict, set,
}

abbrev handle_of : Option Element → Option ℕ
handle_of none = none
handle_of (some el) = some el.handle

-- The two structures hold the same elements, and the byte count is theirs.
pub record IsLinked (s : MemoryStore) : Type 0 where
  pub distinct : Distinct s.recency
  pub is_map : IsMap s.entries
  pub indexed : (k : QueryKey) → lookup k s.entries ≡ handle_of (find_key k s.recency)
  pub same_length : length s.entries ≡ length s.recency
  pub counted : s.bytes ≡ total_size s.recency
  pub fresh : All (λ x. x.handle < s.next_handle) s.recency

pub record IsBounded (s : MemoryStore) : Type 0 where
  pub entries_fit : length s.recency ≤ s.max_entries
  pub bytes_fit : total_size s.recency ≤ s.max_bytes

pub new_memory_store-IsLinked : (n b t : ℕ) → IsLinked (new_memory_store n b t)
unfolding new_memory_store find_key total_size lookup
new_memory_store-IsLinked n b t = record {
  distinct = tt;
  is_map = tt;
  indexed = λ k. refl;
  same_length = refl;
  counted = refl;
  fresh = tt;
}

module _ (s : MemoryStore) (l : IsLinked s) (el : Element)
    (found : find_handle el.handle s.recency ≡ some el) where
  entry_there : lookup el.key s.entries ≡ some el.handle
  entry_there =
      ground (arith, l.indexed el.key, find_handle_found el.handle el s.recency l.distinct found)

  pub remove-IsLinked : IsLinked (remove s (some el))
  unfolding remove
  remove-IsLinked = record {
    distinct = unlink-Distinct el.handle s.recency l.distinct;
    is_map = delete-IsMap el.key s.entries l.is_map;
    indexed = λ k. ground (
      arith,
      lookup-delete el.key k s.entries,
      find_key-unlink k el.handle el s.recency l.distinct found,
      l.indexed k,
    );
    same_length = omega (
      arith,
      length-delete el.key el.handle s.entries l.is_map entry_there,
      length-unlink el.handle el s.recency l.distinct found,
      l.same_length,
    );
    counted = omega (arith, total_size-unlink el.handle el s.recency l.distinct found, l.counted);
    fresh = All-unlink (λ x. x.handle < s.next_handle) el.handle s.recency l.fresh;
  }

  to_front-IsLinked : IsLinked (record s { recency = el ∷ unlink el.handle s.recency })
  unfolding find_key total_size
  to_front-IsLinked = record {
    distinct = (
      rw (find_handle-unlink el.handle el.handle s.recency) (ground arith),
      rw (find_key-unlink el.key el.handle el s.recency l.distinct found)
          (ground (arith, key_beq_iff el.key el.key)),
      unlink-Distinct el.handle s.recency l.distinct,
    );
    is_map = l.is_map;
    indexed = λ k. ground (
      arith,
      find_key-unlink k el.handle el s.recency l.distinct found,
      l.indexed k,
      key_beq_iff el.key k,
      find_handle_found el.handle el s.recency l.distinct found,
    );
    same_length =
        omega (arith, length-unlink el.handle el s.recency l.distinct found, l.same_length);
    counted = omega (arith, total_size-unlink el.handle el s.recency l.distinct found, l.counted);
    fresh = (
      All_found (λ x. x.handle < s.next_handle) el.handle el s.recency l.fresh found,
      All-unlink (λ x. x.handle < s.next_handle) el.handle s.recency l.fresh,
    );
  }

-- A hit moves its element to the front; an expired element goes; a miss changes nothing.
get_element-IsLinked :
    (s : MemoryStore) (now : ℕ)
    → IsLinked s
    → (o : Option Element)
    → ((el : Element) → o ≡ some el → find_handle el.handle s.recency ≡ some el)
    → IsLinked (get_element s now o).0
unfolding get_element
get_element-IsLinked s now l none f = l
get_element-IsLinked s now l (some el) f = elim (Bool-cases (ltb now el.expires_at)) [
  | inl e ↦ rw e (to_front-IsLinked s l el (f el refl))
  | inr e ↦ rw e (remove-IsLinked s l el (f el refl))
]

pub found_itself :
    (s : MemoryStore) (l : IsLinked s) (h : ℕ) (el : Element)
    → find_handle h s.recency ≡ some el
    → find_handle el.handle s.recency ≡ some el
found_itself s l h el p = ground (arith, find_handle_found h el s.recency l.distinct p)

pub get-IsLinked :
    (s : MemoryStore) (now : ℕ) (key : QueryKey) → IsLinked s → IsLinked (get s now key).0
unfolding get get_handle
get-IsLinked s now key l = elim (Option-cases (lookup key s.entries)) [
  | inl e ↦ rw (e, get_handle) l
  | inr (h, e) ↦ rw (e, get_handle) (get_element-IsLinked s now l _ (found_itself s l h))
]

-- What the map points to is an element with that key.
pub indexed_found :
    (s : MemoryStore) (l : IsLinked s) (key : QueryKey) (h : ℕ)
    → lookup key s.entries ≡ some h
    → (el : Element) × (find_handle h s.recency ≡ some el)
      × (find_key key s.recency ≡ some el)
      × (el.key ≡ key)
      × (el.handle ≡ h)
indexed_found s l key h e = elim (Option-cases (find_key key s.recency)) [
  | inl m ↦ absurd (ground (arith, l.indexed key))
  | inr (el, m) ↦
      let (same_key, there) = find_key_found key el s.recency l.distinct m in
      let same_handle : el.handle ≡ h = ground (arith, l.indexed key) in
      (el, ground (arith, there), m, same_key, same_handle)
]

pub drop_existing-IsLinked :
    (s : MemoryStore) (key : QueryKey)
    → IsLinked s
    → IsLinked (drop_existing s (lookup key s.entries))
      × (lookup key (drop_existing s (lookup key s.entries)).entries ≡ none)
unfolding drop_existing
drop_existing-IsLinked s key l = elim (Option-cases (lookup key s.entries)) [
  | inl e ↦ rw (e, drop_existing) (l, e)
  | inr (h, e) ↦
      let (el, at_h, at_key, same_key, same_handle) = indexed_found s l key h e in
      rw (e, drop_existing, at_h)
        (
          remove-IsLinked s l el (found_itself s l h el at_h),
          unfold remove in ground (arith, lookup-delete el.key key s.entries, key_beq_iff key key),
        )
]

pub push_front-IsLinked :
    (s : MemoryStore) (now : ℕ) (key : QueryKey) (result : CachedResult)
    → IsLinked s
    → lookup key s.entries ≡ none
    → IsLinked (push_front s now key result)
unfolding push_front find_key total_size insert
push_front-IsLinked s now key result l missing = record {
  distinct = (
    find_handle_fresh s.next_handle s.recency l.fresh,
    ground (arith, l.indexed key),
    l.distinct,
  );
  is_map = insert-IsMap key s.next_handle s.entries l.is_map;
  indexed = λ k. ground (arith, lookup-insert key k s.next_handle s.entries, l.indexed k);
  same_length = omega (arith, ap length (delete_missing key s.entries missing), l.same_length);
  counted = omega (arith, l.counted);
  fresh = (omega arith, All-mono s.next_handle s.recency l.fresh);
}

pub back-IsLinked : (s : MemoryStore) → IsLinked s → IsLinked (remove s (back s.recency))
unfolding remove
back-IsLinked s l = elim (Option-cases (back s.recency)) [
  | inl e ↦ rw (e, remove) l
  | inr (el, e) ↦ rw (e, remove) (remove-IsLinked s l el (find_back el s.recency l.distinct e))
]

pub evict-IsLinked : (fuel : ℕ) (s : MemoryStore) → IsLinked s → IsLinked (evict fuel s)
unfolding evict
evict-IsLinked zero s l = l
evict-IsLinked (suc fuel) s l = elim (Bool-cases (over_limit s)) [
  | inl e ↦ rw (e, evict) (evict-IsLinked fuel _ (back-IsLinked s l))
  | inr e ↦ rw (e, evict) l
]

pub set-IsLinked :
    (s : MemoryStore) (now : ℕ) (key : QueryKey) (result : CachedResult)
    → IsLinked s
    → IsLinked (set s now key result)
unfolding set
set-IsLinked s now key result l = elim (Bool-cases (ltb s.max_bytes result.size)) [
  | inl e ↦ rw e l
  | inr e ↦
      let (dropped, missing) = drop_existing-IsLinked s key l in
      rw e (
        evict-IsLinked
          (length (push_front (drop_existing s (lookup key s.entries)) now key result).recency) _
          (push_front-IsLinked _ now key result dropped missing))
]
