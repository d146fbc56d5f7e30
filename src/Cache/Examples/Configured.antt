-- ===== src/Cache/Examples/Configured.antt =====
-- Entity keys and configurations (sdk-go/provider/cache/cache.go).
use kubling_providers.Base.{
  ◌≡◌, ◌↔◌, refl, some, none, [], ◌∷◌, List, codes, bytes_eq, IsMap, pos, negsuc, ok, In,
  trim_space, to_upper, decimal,
}
use kubling_providers.Messages.{EntityReference}
use kubling_providers.Cache.State.Expand.{dependents_of}
use kubling_providers.Cache.Entities.{normalized_name, entity_key, normalized_entity_key}
use kubling_providers.Cache.Entities.Injective.{same_key_iff}
use kubling_providers.Cache.Config.{Dependency, Config, normalize_dependencies}
use kubling_providers.Cache.Config.Dependencies.{Lists, normalize_dependencies-Lists}

abbrev orders : EntityReference
orders = record { namespace = codes "ns1"; entity_name = codes " orders " }

abbrev orders_upper : EntityReference
orders_upper = record { namespace = codes "ns1"; entity_name = codes "ORDERS" }

abbrev totals : EntityReference
totals = record { namespace = codes "ns1"; entity_name = codes "totals" }

key_of_orders : normalized_entity_key (some orders) ≡ ok (codes "3:ns1/6:ORDERS")
unfolding normalized_entity_key entity_key decimal to_upper trim_space
key_of_orders = refl

key_of_upper : normalized_entity_key (some orders_upper) ≡ ok (codes "3:ns1/6:ORDERS")
unfolding normalized_entity_key entity_key decimal to_upper trim_space
key_of_upper = refl

same_key_iff_example : (codes "3:ns1/6:ORDERS" ≡ codes "3:ns1/6:ORDERS") ↔ (
    (orders.namespace ≡ orders_upper.namespace)
    × (normalized_name orders ≡ normalized_name orders_upper))
same_key_iff_example =
    same_key_iff orders orders_upper (codes "3:ns1/6:ORDERS") (codes "3:ns1/6:ORDERS") key_of_orders
      key_of_upper

abbrev dependencies : List Dependency
dependencies =
    record { entity = some orders; dependents = none ∷ some orders_upper ∷ some totals ∷ [] } ∷ []

abbrev config : Config
config = record {
  ttl = negsuc 4;
  max_entries = pos 0;
  max_bytes = pos 100;
  max_entry_bytes = pos 200;
  dependencies = dependencies;
}

normalize_dependencies-Lists_example :
    IsMap (normalize_dependencies dependencies)
    × (In
          (codes "3:ns1/6:TOTALS")
          (dependents_of (normalize_dependencies dependencies) (codes "3:ns1/6:ORDERS"))
        ↔ Lists dependencies (codes "3:ns1/6:ORDERS") (codes "3:ns1/6:TOTALS"))
normalize_dependencies-Lists_example =
    normalize_dependencies-Lists dependencies (codes "3:ns1/6:ORDERS") (codes "3:ns1/6:TOTALS")
