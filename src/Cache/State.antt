-- ===== src/Cache/State.antt =====
-- The cache's shared state: generations, dependency expansion and the invalidations that prepared
-- branches hold back (sdk-go/provider/cache/state.go). Each method runs under the state's mutex, so
-- it is one step. Generations are uint64 and wrap.
pub mod Expand
pub mod Reach
pub mod Generations
pub mod Session
pub mod Behind
pub mod Freshness
pub mod Served
pub mod Moved
pub mod Branches
use kubling_providers.Base
use kubling_providers.Base.{
  ℕ, ◌+◌, ◌%◌, ◌^◌, List, [], ◌∷◌, ◌++◌, map, Option, none, some, Bool, true, false, ◌||◌, Map,
  Bytes, bytes_eq, insert, delete, ltb, if◌then◌else◌,
}
use kubling_providers.Messages.{TransactionBranchId}
use kubling_providers.Cache.Keys.{Generation, QueryKey, CachedResult, generation_beq, key_eq}
use kubling_providers.Cache.Memory
use kubling_providers.Cache.Memory.{MemoryStore, new_memory_store}
use Expand.{dependents_of, expand_from}

pub record BranchInvalidation : Type 0 where
  pub entities : List Bytes
  pub all : Bool

pub record CacheState : Type 0 where
  pub store : MemoryStore
  pub global_generation : ℕ
  pub entity_generations : Map Bytes ℕ
  pub max_entry_bytes : ℕ
  pub dependencies : Map Bytes (List Bytes)
  pub branch_invalidations : Map Bytes BranchInvalidation

-- the configuration after its defaults are put in (cache.go, normalizedConfig)
pub record NormalizedConfig : Type 0 where
  pub ttl : ℕ
  pub max_entries : ℕ
  pub max_bytes : ℕ
  pub max_entry_bytes : ℕ
  pub dependencies : Map Bytes (List Bytes)

unfoldable pub new_cache_state : NormalizedConfig → CacheState
unfolding new_memory_store
new_cache_state config = record {
  store = new_memory_store config.max_entries config.max_bytes config.ttl;
  global_generation = 0;
  entity_generations = [];
  max_entry_bytes = config.max_entry_bytes;
  dependencies = config.dependencies;
  branch_invalidations = [];
}

abbrev pub u64_mod : ℕ
u64_mod = 2 ^ 64

-- `g++` on a uint64
abbrev pub next_u64 : ℕ → ℕ
next_u64 g = (g + 1) % u64_mod

-- the zero value of a missing key
abbrev pub or_zero : Option ℕ → ℕ
or_zero none = 0
or_zero (some g) = g

unfoldable pub generation : CacheState → Bytes → Generation
generation s entity = record {
  global = s.global_generation;
  entity_generation = or_zero (Base.lookup entity s.entity_generations);
}

abbrev pub query_key : CacheState → Bytes → Bytes → QueryKey
query_key s entity digest = record {
  entity = entity;
  digest = digest;
  generation = generation s entity;
}

-- the captured key, the new state, and the result if there is one
unfoldable pub lookup : CacheState → ℕ → Bytes → Bytes → CacheState × QueryKey × Option CachedResult
lookup s now entity digest =
    let (store', result) = Memory.get s.store now (query_key s entity digest) in
    (record s { store = store' }, query_key s entity digest, result)

unfoldable pub store_if_current : CacheState → ℕ → QueryKey → CachedResult → CacheState
store_if_current s now capture result =
    if ltb s.max_entry_bytes result.size
    then s
    else if generation_beq (generation s capture.entity) capture.generation
    then record s { store = Memory.set s.store now capture result }
    else s

unfoldable pub bump : Map Bytes ℕ → Bytes → Map Bytes ℕ
bump generations entity =
    insert entity (next_u64 (or_zero (Base.lookup entity generations))) generations

unfoldable pub bump_all : Map Bytes ℕ → List Bytes → Map Bytes ℕ
unfolding bump
bump_all generations [] = generations
bump_all generations (entity ∷ rest) = bump_all (bump generations entity) rest

unfoldable pub expand_entities : CacheState → List Bytes → List Bytes
expand_entities s entities = expand_from s.dependencies entities

unfoldable pub invalidate_entities : CacheState → List Bytes → CacheState
invalidate_entities s entities = record s {
  entity_generations = bump_all s.entity_generations (expand_entities s entities);
}

unfoldable pub invalidate_all : CacheState → CacheState
invalidate_all s = record s { global_generation = next_u64 s.global_generation }

-- `branch.GetResourceManagerId() + "\x00" + string(branch.GetBranchId())`
unfoldable pub cached_branch_key : TransactionBranchId → Bytes
cached_branch_key branch = branch.resource_manager_id ++ 0 ∷ branch.branch_id

-- A set of entities, Go's map[string]struct{}; it is ranged over in the list's order.
abbrev pub EntitySet : Type 0
EntitySet = Map Bytes (Unit {0})

abbrev pub members : EntitySet → List Bytes
members [] = []
members ((e, _) ∷ m) = e ∷ members m

abbrev pub add_all : EntitySet → List Bytes → EntitySet
add_all m [] = m
add_all m (e ∷ es) = add_all (insert e tt m) es

abbrev pub no_invalidation : BranchInvalidation
no_invalidation = record { entities = []; all = false }

abbrev pub or_none_pending : Option BranchInvalidation → BranchInvalidation
or_none_pending none = no_invalidation
or_none_pending (some b) = b

unfoldable pub retain_branch_invalidation :
    CacheState → TransactionBranchId → EntitySet → Bool → CacheState
retain_branch_invalidation s branch entities all =
    let key = cached_branch_key branch in
    let previous = or_none_pending (Base.lookup key s.branch_invalidations) in
    if all || previous.all
    then record s {
      branch_invalidations =
          insert key (record { entities = []; all = true }) s.branch_invalidations;
    }
    else record s {
      branch_invalidations =
          insert key
            (record {
              entities = members (add_all (add_all [] previous.entities) (members entities));
              all = false;
            })
            s.branch_invalidations;
    }

-- what `resolveBranchInvalidation` does after it has taken the entry out
unfoldable pub apply_pending : CacheState → Option BranchInvalidation → CacheState
unfolding invalidate_all invalidate_entities
apply_pending s none = invalidate_all s
apply_pending s (some pending) =
    if pending.all
    then invalidate_all s
    else (elim pending.entities [ [] ↦ s | e ∷ es ↦ invalidate_entities s (e ∷ es) ])

unfoldable pub resolve_branch_invalidation : CacheState → TransactionBranchId → Bool → CacheState
unfolding apply_pending cached_branch_key
resolve_branch_invalidation s branch invalidate =
    let key = cached_branch_key branch in
    let pending = Base.lookup key s.branch_invalidations in
    let s' = record s { branch_invalidations = delete key s.branch_invalidations } in
    if invalidate then apply_pending s' pending else s'

unfoldable pub discard_branch_invalidation : CacheState → TransactionBranchId → CacheState
discard_branch_invalidation s branch = record s {
  branch_invalidations = delete (cached_branch_key branch) s.branch_invalidations;
}
