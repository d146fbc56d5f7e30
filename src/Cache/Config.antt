-- ===== src/Cache/Config.antt =====
-- The cache's configuration and its defaults (sdk-go/provider/cache/cache.go). Durations are in
-- nanoseconds.
pub mod Dependents
pub mod Dependencies
use kubling_providers.Base.{
  ℕ, zero, suc, ◌*◌, List, [], ◌∷◌, ◌++◌, Option, none, some, true, false, Map, Bytes, bytes_eq, ℤ,
  pos, negsuc, Result, ok, err, lookup, insert, ltb, if◌then◌else◌, ◌==◌,
}
use kubling_providers.Messages.{EntityReference}
use kubling_providers.Cache.State.{NormalizedConfig, EntitySet}
use kubling_providers.Cache.State.Expand.{dependents_of}
use kubling_providers.Cache.Entities.{normalized_entity_key}

pub record Dependency : Type 0 where
  pub entity : Option EntityReference
  pub dependents : List (Option EntityReference)

pub record Config : Type 0 where
  pub ttl : ℤ
  pub max_entries : ℤ
  pub max_bytes : ℤ
  pub max_entry_bytes : ℤ
  pub dependencies : List Dependency

abbrev pub default_ttl : ℕ
default_ttl = 30 * 1_000_000_000

abbrev pub default_max_entries : ℕ
default_max_entries = 1_024

abbrev pub default_max_bytes : ℕ
default_max_bytes = 64 * 1_048_576

abbrev pub default_max_entry_bytes : ℕ
default_max_entry_bytes = 8 * 1_048_576

-- `if x <= 0 { x = default }`
abbrev pub or_default : ℤ → ℕ → ℕ
or_default (pos zero) default = default
or_default (pos (suc n)) default = suc n
or_default (negsuc n) default = default

-- the inner loop of `normalizeDependencies`, over the dependents of one entity
unfoldable pub add_dependents :
    Bytes
    → List (Option EntityReference)
    → EntitySet
    → Map Bytes (List Bytes)
    → Map Bytes (List Bytes)
add_dependents entity [] seen normalized = normalized
add_dependents entity (reference ∷ rest) seen normalized = elim (normalized_entity_key reference) [
  | err _ ↦ add_dependents entity rest seen normalized
  | ok dependent ↦ elim (dependent == entity) [
    | true ↦ add_dependents entity rest seen normalized
    | false ↦ elim (lookup dependent seen) [
      | some _ ↦ add_dependents entity rest seen normalized
      | none ↦
          add_dependents entity rest (insert dependent tt seen)
            (insert entity (dependents_of normalized entity ++ dependent ∷ []) normalized)
    ]
  ]
]

unfoldable pub add_dependencies : List Dependency → Map Bytes (List Bytes) → Map Bytes (List Bytes)
add_dependencies [] normalized = normalized
add_dependencies (dependency ∷ rest) normalized = elim (normalized_entity_key dependency.entity) [
  | err _ ↦ add_dependencies rest normalized
  | ok entity ↦ add_dependencies rest (add_dependents entity dependency.dependents [] normalized)
]

unfoldable pub normalize_dependencies : List Dependency → Map Bytes (List Bytes)
unfolding add_dependencies add_dependents
normalize_dependencies dependencies = add_dependencies dependencies []

unfoldable pub normalize_config : Config → NormalizedConfig
normalize_config config =
    let max_bytes = or_default config.max_bytes default_max_bytes in
    let max_entry_bytes = or_default config.max_entry_bytes default_max_entry_bytes in
    record {
      ttl = or_default config.ttl default_ttl;
      max_entries = or_default config.max_entries default_max_entries;
      max_bytes = max_bytes;
      max_entry_bytes = if ltb max_bytes max_entry_bytes then max_bytes else max_entry_bytes;
      dependencies = normalize_dependencies config.dependencies;
    }
