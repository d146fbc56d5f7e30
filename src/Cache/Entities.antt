-- ===== src/Cache/Entities.antt =====
-- The key of an entity (sdk-go/provider/cache/cache.go, normalizedEntityKey): length-prefixed, so
-- that no two entities share one. Names are taken to be ASCII.
pub mod Injective
use kubling_providers.Base.{
  ℕ, List, [], ◌∷◌, ◌++◌, Option, none, some, Bytes, Result, ok, err, length, decimal, to_upper,
  trim_space,
}
use kubling_providers.Messages.{EntityReference}

pub data EntityError : Type 0 where
  entity_required entity_name_required : EntityError

-- `strings.ToUpper(strings.TrimSpace(name))`
abbrev pub normalized_name : EntityReference → Bytes
normalized_name entity = to_upper (trim_space entity.entity_name)

-- `fmt.Fprintf(&key, "%d:%s/", …); fmt.Fprintf(&key, "%d:%s", …)`
unfoldable pub entity_key : Bytes → Bytes → Bytes
entity_key namespace name =
    decimal (length namespace)
    ++ (58 ∷ (namespace ++ (47 ∷ (decimal (length name) ++ (58 ∷ name)))))

unfoldable pub normalized_entity_key : Option EntityReference → Result EntityError Bytes
normalized_entity_key none = err entity_required
normalized_entity_key (some entity) = elim (normalized_name entity) [
  | [] ↦ err entity_name_required
  | c ∷ cs ↦ ok (entity_key entity.namespace (c ∷ cs))
]
