-- ===== src/Cache/Memory.antt =====
-- The bounded store with expiry and least-recently-used eviction
-- (sdk-go/provider/cache/memory.go). A list element is known by its handle, the pointer of the
-- source: `entries` maps a key to a handle, and `recency` holds the elements, newest first.
-- The clock's reading is an argument. Sizes are counted without a bound.
mod Elements
pub mod Invariant
pub mod Eviction
pub mod Newest
pub mod Hits
unfoldable pub use Elements.*
use kubling_providers.Base.{
  ℕ, zero, suc, ◌+◌, ◌-◌, ◌≡◌, Bool, true, false, ◌||◌, List, [], ◌∷◌, Option, none, some, Map,
  lookup, insert, delete, length, ltb, if◌then◌else◌,
}
use kubling_providers.Cache.Keys.{QueryKey, CachedResult, key_eq}

pub record MemoryStore : Type 0 where
  pub entries : Map QueryKey ℕ
  pub recency : List Element
  pub bytes : ℕ
  pub max_entries : ℕ
  pub max_bytes : ℕ
  pub ttl : ℕ
  pub next_handle : ℕ

unfoldable pub new_memory_store : ℕ → ℕ → ℕ → MemoryStore
new_memory_store max_entries max_bytes ttl = record {
  entries = [];
  recency = [];
  bytes = 0;
  max_entries = max_entries;
  max_bytes = max_bytes;
  ttl = ttl;
  next_handle = 0;
}

unfoldable pub remove : MemoryStore → Option Element → MemoryStore
remove s none = s
remove s (some element) = record s {
  entries = delete element.key s.entries;
  recency = unlink element.handle s.recency;
  bytes = s.bytes - element.result.size;
}

unfoldable pub get_element : MemoryStore → ℕ → Option Element → MemoryStore × Option CachedResult
unfolding remove
get_element s now none = (s, none)
get_element s now (some element) =
    if ltb now element.expires_at
    then (record s { recency = element ∷ unlink element.handle s.recency }, some element.result)
    else (remove s (some element), none)

unfoldable pub get_handle : MemoryStore → ℕ → Option ℕ → MemoryStore × Option CachedResult
unfolding get_element
get_handle s now none = (s, none)
get_handle s now (some handle) = get_element s now (find_handle handle s.recency)

unfoldable pub get : MemoryStore → ℕ → QueryKey → MemoryStore × Option CachedResult
unfolding get_handle
get s now key = get_handle s now (lookup key s.entries)

-- `if existing, found := s.entries[key]; found { s.remove(existing) }`
unfoldable pub drop_existing : MemoryStore → Option ℕ → MemoryStore
unfolding remove
drop_existing s none = s
drop_existing s (some handle) = remove s (find_handle handle s.recency)

unfoldable pub push_front : MemoryStore → ℕ → QueryKey → CachedResult → MemoryStore
push_front s now key result = record s {
  entries = insert key s.next_handle s.entries;
  recency =
      record { handle = s.next_handle; key = key; result = result; expires_at = now + s.ttl }
      ∷ s.recency;
  bytes = s.bytes + result.size;
  next_handle = suc s.next_handle;
}

unfoldable pub over_limit : MemoryStore → Bool
over_limit s = ltb s.max_entries (length s.entries) || ltb s.max_bytes s.bytes

-- `for len(s.entries) > s.maxEntries || s.bytes > s.maxBytes { s.remove(s.recency.Back()) }`
unfoldable pub evict : ℕ → MemoryStore → MemoryStore
evict zero s = s
evict (suc fuel) s = elim (over_limit s) [
  | true ↦ evict fuel (remove s (back s.recency))
  | false ↦ s
]

unfoldable pub set : MemoryStore → ℕ → QueryKey → CachedResult → MemoryStore
unfolding drop_existing push_front evict
set s now key result =
    if ltb s.max_bytes result.size
    then s
    else (let pushed = push_front (drop_existing s (lookup key s.entries)) now key result in
        evict (length pushed.recency) pushed)
