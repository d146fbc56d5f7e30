-- ===== src/Cache/Examples/Invalidated.antt =====
-- Runs of the cache's shared state (sdk-go/provider/cache/state.go).
use kubling_providers.Base
use kubling_providers.Base.{
  ◌≡◌, ◌⊎◌, ℕ, refl, inl, inr, some, none, true, false, List, [], ◌∷◌, codes, arith, Map, IsMap,
  Bytes, bytes_eq, bytes_beq, All, length,
}
use kubling_providers.Messages.{TransactionBranchId, EntityReference}
use kubling_providers.Cache.Entities.{normalized_entity_key}
use kubling_providers.Cache.Client.{ControllerError, controller_invalidate}
use kubling_providers.Cache.Client.Requested.{controller_invalidate-Moved}
use kubling_providers.Base.{Option, ok}
use kubling_providers.Cache.Keys.{CachedResult, key_beq, generation_beq}
use kubling_providers.Cache.Memory
use kubling_providers.Cache.Memory.{new_memory_store}
use kubling_providers.Cache.State
use kubling_providers.Cache.State.{
  CacheState, NormalizedConfig, u64_mod, next_u64, generation, new_cache_state, invalidate_entities,
  retain_branch_invalidation, resolve_branch_invalidation, cached_branch_key, store_if_current,
}
use kubling_providers.Cache.State.Expand.{expand_from}
use kubling_providers.Cache.State.Reach.{
  Reach, root, dependent, IsExpansion, expand_from-IsExpansion,
}
use kubling_providers.Cache.State.Generations.{generation-invalidate_entities}
use kubling_providers.Cache.State.Session.{
  Event, begin, finish, invalidate, Session, step, run, new_session,
}
use kubling_providers.Cache.State.Freshness.{LaterHas}
use kubling_providers.Cache.State.Served.{served_after_invalidation}
use kubling_providers.Cache.State.Moved.{Moved}
use kubling_providers.Cache.State.Branches.{Held, retain-Held, resolve-Moved}

abbrev orders : Bytes
orders = codes "0:/6:ORDERS"

abbrev totals : Bytes
totals = codes "0:/6:TOTALS"

-- each of the two depends on the other
abbrev cyclic : Map Bytes (List Bytes)
cyclic = (orders, totals ∷ []) ∷ (totals, orders ∷ []) ∷ []

cyclic-IsMap : IsMap cyclic
unfolding Base.lookup bytes_beq
cyclic-IsMap = (refl, (refl, tt))

expanded : expand_from cyclic (orders ∷ []) ≡ orders ∷ totals ∷ []
unfolding expand_from Base.lookup Base.insert bytes_beq
expanded = refl

abbrev config : NormalizedConfig
config = record {
  ttl = 30;
  max_entries = 4;
  max_bytes = 100;
  max_entry_bytes = 50;
  dependencies = cyclic;
}

abbrev result : ℕ → CachedResult
result n = record { batches = []; outcome = none; size = n }

expand_from-IsExpansion_example :
    IsExpansion cyclic (orders ∷ []) (expand_from cyclic (orders ∷ []))
expand_from-IsExpansion_example = expand_from-IsExpansion cyclic (orders ∷ []) cyclic-IsMap

state : CacheState
unfolding new_cache_state
state = new_cache_state config

state-IsMap : IsMap state.dependencies
unfolding state
state-IsMap = cyclic-IsMap

generation-invalidate_entities_example :
    ((¬ Reach state.dependencies (orders ∷ []) totals)
      × (generation (invalidate_entities state (orders ∷ [])) totals ≡ generation state totals))
    ⊎ (Reach state.dependencies (orders ∷ []) totals
        × (generation (invalidate_entities state (orders ∷ [])) totals ≡ record {
          global = (generation state totals).global;
          entity_generation = next_u64 (generation state totals).entity_generation;
        }))
generation-invalidate_entities_example =
    generation-invalidate_entities state (orders ∷ []) totals state-IsMap

-- A query of the totals begins; the orders change; a second query of the totals begins; the first
-- ends, and its result is refused; the second ends, and its result is kept.
abbrev before : List Event
before = begin 1 totals (7 ∷ []) ∷ []

abbrev after : List Event
after = begin 3 totals (7 ∷ []) ∷ finish 4 0 (result 10) ∷ finish 5 1 (result 20) ∷ []

-- the results of the second query
abbrev IsSecond : CachedResult → Type 0
IsSecond r = r.size ≡ 20

session_end : Session
unfolding run step new_session
session_end = run (step (run (new_session config) before) (invalidate (orders ∷ []))) after

served : (State.lookup session_end.cache 6 totals (7 ∷ [])).2 ≡ some (result 20)
unfolding session_end run step State.lookup generation store_if_current Memory.get Memory.set
    Memory.evict Memory.over_limit Memory.find_handle key_beq generation_beq Base.lookup Base.insert
    bytes_beq invalidate_entities State.bump_all State.expand_entities expand_from
served = refl

one_running : length (run (new_session config) before).running ≡ 1
unfolding run step new_session State.lookup Memory.get Base.lookup
one_running = refl

later-IsSecond : All (LaterHas IsSecond (length (run (new_session config) before).running)) after
later-IsSecond = rw one_running (tt, ((λ h. absurd (omega arith)), ((λ h. refl), tt)))

served_after_invalidation_example : (result 20).size ≡ 20
unfolding session_end
served_after_invalidation_example =
    served_after_invalidation config before (invalidate (orders ∷ [])) after totals IsSecond 6
      (7 ∷ []) (result 20) cyclic-IsMap (omega arith)
      (dependent orders totals (root orders (inl refl) refl)
        (unfold Base.lookup bytes_beq in inl refl) refl)
      later-IsSecond served

abbrev branch : TransactionBranchId
branch = record { resource_manager_id = codes "rm"; branch_id = 1 ∷ [] }

prepared : CacheState
prepared = retain_branch_invalidation state branch ((orders, tt) ∷ []) false

prepared-IsMap : IsMap prepared.dependencies
unfolding prepared retain_branch_invalidation state Base.lookup
prepared-IsMap = cyclic-IsMap

prepared-Held : Held prepared branch orders
unfolding prepared
prepared-Held = retain-Held state branch ((orders, tt) ∷ []) false orders (inr (inl refl))

resolve-Moved_example : Moved prepared (resolve_branch_invalidation prepared branch true) orders
resolve-Moved_example = resolve-Moved prepared branch orders prepared-IsMap refl (inl prepared-Held)

abbrev named : Option EntityReference
named = some (record { namespace = []; entity_name = codes "orders" })

controller_invalidate-Moved_example :
    ((e : ControllerError) × (controller_invalidate state true (named ∷ []) ≡ (state, some e)))
    ⊎ (((controller_invalidate state true (named ∷ [])).1 ≡ none)
        × ((key : Bytes) × (normalized_entity_key named ≡ ok key)
            × Moved state (controller_invalidate state true (named ∷ [])).0 key))
controller_invalidate-Moved_example =
    controller_invalidate-Moved state true (named ∷ []) named state-IsMap (inl refl)
