-- ===== src/Cache/Client.antt =====
-- What a client of the cache calls: queries on a connection (sdk-go/provider/cache/query.go), and
-- the controller's invalidations (sdk-go/provider/cache/cache.go).
pub mod Requested
use kubling_providers.Base
use kubling_providers.Base.{
  ℕ, List, [], ◌∷◌, Option, none, some, Bool, true, false, Bytes, Result, ok, err, if◌then◌else◌,
}
use kubling_providers.Messages.{EntityReference}
use kubling_providers.Cache.Keys.{QueryKey, CachedResult}
use kubling_providers.Cache.State
use kubling_providers.Cache.State.{CacheState, invalidate_entities, invalidate_all}
use kubling_providers.Cache.Entities.{EntityError, normalized_entity_key}
use kubling_providers.Cache.Connection.{World}

-- What a query gets: the wrapped connection's own stream, an error, a replay, or the wrapped
-- connection's stream (if it gives one), recorded under the captured key.
pub data Queried : Type 0 where
  passed_on key_failed : Queried
  replays : CachedResult → Queried
  records : QueryKey → Queried

-- Query on a request, which may be nil; `digest` is none where the request cannot be encoded.
unfoldable pub query : World → ℕ → Option (Option EntityReference) → Option Bytes → World × Queried
query w now none digest = (w, passed_on)
query w now (some reference) digest =
    if w.connection.transaction_active then (w, passed_on) else (elim digest [
      | none ↦ (w, key_failed)
      | some d ↦ elim (normalized_entity_key reference) [
        | err _ ↦ (w, passed_on)
        | ok entity ↦
            let (state', capture, result) = State.lookup w.state now entity d in
            (
              record w { state = state' },
              elim result [ some r ↦ replays r | none ↦ records capture ],
            )
      ]
    ])

pub data ControllerError : Type 0 where
  context_ended no_entities : ControllerError
  bad_entity : EntityError → ControllerError

unfoldable pub entity_keys : List (Option EntityReference) → Result EntityError (List Bytes)
entity_keys [] = ok []
entity_keys (reference ∷ rest) = elim (normalized_entity_key reference) [
  | err e ↦ err e
  | ok key ↦ elim (entity_keys rest) [ err e ↦ err e | ok keys ↦ ok (key ∷ keys) ]
]

-- Controller.Invalidate; `live` tells whether the context is still live.
unfoldable pub controller_invalidate :
    CacheState → Bool → List (Option EntityReference) → CacheState × Option ControllerError
unfolding entity_keys
controller_invalidate s false references = (s, some context_ended)
controller_invalidate s true [] = (s, some no_entities)
controller_invalidate s true (reference ∷ rest) = elim (entity_keys (reference ∷ rest)) [
  | err e ↦ (s, some (bad_entity e))
  | ok keys ↦ (invalidate_entities s keys, none)
]

-- Controller.InvalidateAll
unfoldable pub controller_invalidate_all : CacheState → Bool → CacheState × Option ControllerError
controller_invalidate_all s live =
    if live then (invalidate_all s, none) else (s, some context_ended)
