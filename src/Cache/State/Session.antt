-- ===== src/Cache/State/Session.antt =====
-- Interleavings of the clients of one cache (sdk-go/provider/cache/query.go, cache.go): a query
-- that misses keeps its captured key while it runs, and its result is offered to the cache when its
-- stream is closed, with any other events in between.
use kubling_providers.Base.{ℕ, List, [], ◌∷◌, ◌++◌, Option, none, some, Bytes, get_elem?}
use kubling_providers.Cache.Keys.{QueryKey, CachedResult}
use kubling_providers.Cache.State
use kubling_providers.Cache.State.{
  CacheState, NormalizedConfig, new_cache_state, store_if_current, invalidate_entities,
  invalidate_all, query_key,
}

pub record Session : Type 0 where
  pub cache : CacheState
  pub running : List QueryKey

pub data Event : Type 0 where
  -- a query begins, at a time, on an entity, with a digest
  begin : ℕ → Bytes → Bytes → Event
  -- the query of that number ends, at a time, with a complete result
  finish : ℕ → ℕ → CachedResult → Event
  invalidate : List Bytes → Event
  invalidate_everything : Event

abbrev pub record_miss : List QueryKey → QueryKey → Option CachedResult → List QueryKey
record_miss running key none = running ++ key ∷ []
record_miss running key (some r) = running

abbrev pub offer : CacheState → ℕ → Option QueryKey → CachedResult → CacheState
offer s now none r = s
offer s now (some capture) r = store_if_current s now capture r

unfoldable pub step : Session → Event → Session
step t (begin now entity digest) =
    let (cache', key, result) = State.lookup t.cache now entity digest in
    record { cache = cache'; running = record_miss t.running key result }
step t (finish now number result) = record t {
  cache = offer t.cache now (get_elem? t.running number) result;
}
step t (invalidate entities) = record t { cache = invalidate_entities t.cache entities }
step t invalidate_everything = record t { cache = invalidate_all t.cache }

unfoldable pub run : Session → List Event → Session
run t [] = t
run t (event ∷ events) = run (step t event) events

-- a new cache with no query running
unfoldable pub new_session : NormalizedConfig → Session
unfolding new_cache_state
new_session config = record { cache = new_cache_state config; running = [] }
