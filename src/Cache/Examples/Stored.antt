-- ===== src/Cache/Examples/Stored.antt =====
-- Runs of the bounded store (sdk-go/provider/cache/memory.go).
use kubling_providers.Base
use kubling_providers.Base.{
  ◌≡◌, ◌≢◌, ◌≤◌, ◌<◌, ◌⊎◌, ℕ, ◌+◌, refl, some, none, true, false, [], ◌∷◌, codes, arith, ltb, ◌==◌,
  if◌then◌else◌,
}
use kubling_providers.Cache.Keys.{QueryKey, CachedResult, key_beq, key_eq}
use kubling_providers.Cache.Memory
use kubling_providers.Cache.Memory.{MemoryStore, new_memory_store}
use kubling_providers.Cache.Memory.Invariant.{
  IsLinked, IsBounded, new_memory_store-IsLinked, set-IsLinked,
}
use kubling_providers.Cache.Memory.Eviction.{set-IsBounded}
use kubling_providers.Cache.Memory.Newest.{KeepsNewest, set-KeepsNewest}
use kubling_providers.Cache.Memory.Hits.{live, get-eq-live, get-set_self}

abbrev pub key_of : ℕ → QueryKey
key_of n = record {
  entity = codes "3:ns1/1:T";
  digest = n ∷ [];
  generation = record { global = 0; entity_generation = 0 };
}

abbrev pub sized : ℕ → CachedResult
sized n = record { batches = []; outcome = none; size = n }

abbrev small : MemoryStore
small = new_memory_store 2 10 30

filled : MemoryStore
unfolding Memory.set new_memory_store
filled = Memory.set (Memory.set small 0 (key_of 1) (sized 4)) 1 (key_of 2) (sized 5)

small-IsBounded : IsBounded small
unfolding new_memory_store Memory.total_size
small-IsBounded = record { entries_fit = omega arith; bytes_fit = omega arith }

filled-IsLinked : IsLinked filled
unfolding filled
filled-IsLinked =
    set-IsLinked (Memory.set small 0 (key_of 1) (sized 4)) 1 (key_of 2) (sized 5)
      (set-IsLinked small 0 (key_of 1) (sized 4) (new_memory_store-IsLinked 2 10 30))

filled-IsBounded : IsBounded filled
unfolding filled
filled-IsBounded =
    let (l, b, _, _) =
      set-IsBounded small 0 (key_of 1) (sized 4) (new_memory_store-IsLinked 2 10 30)
        small-IsBounded in
    (set-IsBounded (Memory.set small 0 (key_of 1) (sized 4)) 1 (key_of 2) (sized 5) l b).1

evicted : (Memory.get (Memory.set filled 2 (key_of 3) (sized 4)) 3 (key_of 1)).1 ≡ none
unfolding filled Memory.set Memory.get Memory.evict Memory.over_limit key_beq Base.lookup
    Base.insert Memory.back
evicted = refl

held : (Memory.get filled 3 (key_of 1)).1 ≡ some (sized 4)
unfolding filled Memory.set Memory.get Memory.evict Memory.over_limit key_beq Base.lookup
    Base.insert Memory.find_handle
held = refl

filled_limit : (sized 4).size ≤ filled.max_bytes
unfolding filled Memory.set Memory.evict Memory.over_limit key_beq Base.lookup Base.insert
filled_limit = omega arith

filled_room : 0 < filled.max_entries
unfolding filled Memory.set Memory.evict Memory.over_limit key_beq Base.lookup Base.insert
filled_room = omega arith

apart : (key_of 3 == key_of 2) ≡ false
unfolding key_beq
apart = refl

set-IsBounded_example :
    IsLinked (Memory.set filled 2 (key_of 3) (sized 4))
    × IsBounded (Memory.set filled 2 (key_of 3) (sized 4))
    × ((Memory.set filled 2 (key_of 3) (sized 4)).max_entries ≡ filled.max_entries)
    × ((Memory.set filled 2 (key_of 3) (sized 4)).max_bytes ≡ filled.max_bytes)
set-IsBounded_example = set-IsBounded filled 2 (key_of 3) (sized 4) filled-IsLinked filled-IsBounded

set-KeepsNewest_example :
    KeepsNewest
      (key_of 3)
      (sized 4)
      (2 + filled.ttl)
      filled
      (Memory.set filled 2 (key_of 3) (sized 4))
set-KeepsNewest_example = set-KeepsNewest filled 2 (key_of 3) (sized 4) filled-IsLinked filled_limit

get-eq-live_example :
    (Memory.get filled 3 (key_of 1)).1 ≡ live 3 (Memory.find_key (key_of 1) filled.recency)
get-eq-live_example = get-eq-live filled 3 (key_of 1) filled-IsLinked

get-set_self_example :
    (Memory.get (Memory.set filled 2 (key_of 3) (sized 4)) 31 (key_of 3)).1
    ≡ (if ltb 31 (2 + filled.ttl) then some (sized 4) else none)
get-set_self_example =
    get-set_self filled 2 31 (key_of 3) (sized 4) filled-IsLinked filled_limit filled_room
