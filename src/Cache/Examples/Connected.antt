-- ===== src/Cache/Examples/Connected.antt =====
-- Runs of a cached connection (sdk-go/provider/cache/mutation.go, transaction.go,
-- transaction_recovery.go).
use kubling_providers.Base
use kubling_providers.Base.{
  ◌≡◌, ◌⊎◌, refl, inl, inr, some, none, true, false, [], ◌∷◌, codes, IsMap, Bytes, bytes_eq, Map,
  List,
}
use kubling_providers.Messages.{TransactionBranchId, outcome_prepared, committed}
use kubling_providers.Cache.State.{
  CacheState, NormalizedConfig, new_cache_state, retain_branch_invalidation,
}
use kubling_providers.Cache.State.Moved.{Moved}
use kubling_providers.Cache.State.Branches.{Held, retain-Held}
use kubling_providers.Cache.Connection.{World}
use kubling_providers.Cache.Connection.Operations.{prepares, IsClean}
use kubling_providers.Cache.Connection.Pending.{Accounts, perform-Accounts}
use kubling_providers.Cache.Connection.Retained.{
  resolves, apply, EndsQuietly, StaysUnresolved, apply-keeps,
}

abbrev config : NormalizedConfig
config = record {
  ttl = 30;
  max_entries = 4;
  max_bytes = 100;
  max_entry_bytes = 50;
  dependencies = [];
}

abbrev orders : Bytes
orders = codes "0:/6:ORDERS"

-- a connection in a transaction that has changed the orders
abbrev world : World
world = record {
  connection = record {
    transaction_active = true;
    pending_entities = (orders, tt) ∷ [];
    pending_all = false;
  };
  state = new_cache_state config;
}

abbrev branch : TransactionBranchId
branch = record { resource_manager_id = codes "rm"; branch_id = 1 ∷ [] }

world-IsClean : IsClean world.connection
world-IsClean = record { idle = λ p. cc; alone = λ p. cc }

world-IsMap : IsMap world.state.dependencies
unfolding new_cache_state
world-IsMap = tt

perform-Accounts_example : Accounts world (prepares branch (some outcome_prepared)) orders
perform-Accounts_example =
    perform-Accounts world (prepares branch (some outcome_prepared)) orders world-IsClean
      world-IsMap refl (inr (inl refl))

prepared : CacheState
prepared = retain_branch_invalidation (new_cache_state config) branch ((orders, tt) ∷ []) false

prepared-IsMap : IsMap prepared.dependencies
unfolding prepared retain_branch_invalidation new_cache_state Base.lookup
prepared-IsMap = tt

prepared-Held : Held prepared branch orders
unfolding prepared
prepared-Held =
    retain-Held (new_cache_state config) branch ((orders, tt) ∷ []) false orders (inr (inl refl))

apply-keeps_example :
    Held (apply prepared (resolves branch (some committed))) branch orders
    ⊎ Moved prepared (apply prepared (resolves branch (some committed))) orders
    ⊎ EndsQuietly (resolves branch (some committed)) branch
    ⊎ StaysUnresolved (resolves branch (some committed)) branch
apply-keeps_example =
    apply-keeps prepared (resolves branch (some committed)) branch orders prepared-IsMap refl
      prepared-Held
