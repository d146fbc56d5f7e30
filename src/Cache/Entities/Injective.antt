-- ===== src/Cache/Entities/Injective.antt =====
-- Two entities have one key only if they are the same entity.
use kubling_providers.Base.{
  ◌≡◌, ◌↔◌, some, Bytes, ok, length, decimal, decimal-injective, decimal-digits, digits_colon,
  append_same_length, arith,
}
use kubling_providers.Messages.{EntityReference}
use kubling_providers.Cache.Entities.{normalized_name, entity_key, normalized_entity_key}

entity_key-injective : (ns ms n m : Bytes) → entity_key ns n ≡ entity_key ms m → (ns ≡ ms) × (n ≡ m)
unfolding entity_key
entity_key-injective ns ms n m p =
    let (same_length, rest) =
      digits_colon (decimal (length ns)) (decimal (length ms)) _ _ (decimal-digits (length ns))
        (decimal-digits (length ms)) p in
    let (same_namespace, names) =
      append_same_length ns ms _ _ (decimal-injective (length ns) (length ms) same_length) rest in
    let (_, same_name) =
      digits_colon (decimal (length n)) (decimal (length m)) n m (decimal-digits (length n))
        (decimal-digits (length m)) (ground arith) in
    (same_namespace, same_name)

key_parts :
    (r : EntityReference) (k : Bytes)
    → normalized_entity_key (some r) ≡ ok k
    → k ≡ entity_key r.namespace (normalized_name r)
unfolding normalized_entity_key
key_parts r k p = ground arith

-- Two references that have keys have the same key exactly if their namespaces are equal and their
-- names are, once trimmed and in upper case.
pub same_key_iff :
    (r q : EntityReference) (k j : Bytes)
    → normalized_entity_key (some r) ≡ ok k
    → normalized_entity_key (some q) ≡ ok j
    → (k ≡ j) ↔ ((r.namespace ≡ q.namespace) × (normalized_name r ≡ normalized_name q))
same_key_iff r q k j p s = (
  λ e.
      entity_key-injective r.namespace q.namespace (normalized_name r) (normalized_name q)
        (cc (key_parts r k p, key_parts q j s)),
  λ e. cc (e.0, e.1, key_parts r k p, key_parts q j s),
)
