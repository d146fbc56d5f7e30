-- ===== src/Cache/Keys.antt =====
-- The keys under which the cache keeps results (sdk-go/provider/cache/state.go).
use kubling_providers.Base.{
  ℕ, ◌≡◌, ◌↔◌, Bool, true, ◌&&◌, List, Option, Bytes, Eq, nat_beq, bytes_beq, bytes_beq_iff, arith,
}
use kubling_providers.Messages.{TupleBatch, QueryOutcome}

pub record Generation : Type 0 where
  pub global : ℕ
  pub entity_generation : ℕ

pub record QueryKey : Type 0 where
  pub entity : Bytes
  pub digest : Bytes
  pub generation : Generation

pub record CachedResult : Type 0 where
  pub batches : List TupleBatch
  pub outcome : Option QueryOutcome
  pub size : ℕ

-- `==` on the structs
unfoldable pub generation_beq : Generation → Generation → Bool
generation_beq g h = nat_beq g.global h.global && nat_beq g.entity_generation h.entity_generation

unfoldable pub key_beq : QueryKey → QueryKey → Bool
unfolding generation_beq bytes_beq
key_beq k j =
    bytes_beq k.entity j.entity
    && (bytes_beq k.digest j.digest && generation_beq k.generation j.generation)

pub generation_beq_iff : (g h : Generation) → (generation_beq g h ≡ true) ↔ (g ≡ h)
unfolding generation_beq
generation_beq_iff g h = (λ p. ground arith, λ p. ground arith)

pub key_beq_iff : (k j : QueryKey) → (key_beq k j ≡ true) ↔ (k ≡ j)
unfolding key_beq
key_beq_iff k j = (
  λ p. ground (
    arith,
    bytes_beq_iff k.entity j.entity,
    bytes_beq_iff k.digest j.digest,
    generation_beq_iff k.generation j.generation,
  ),
  λ p. ground (
    arith,
    bytes_beq_iff k.entity j.entity,
    bytes_beq_iff k.digest j.digest,
    generation_beq_iff k.generation j.generation,
  ),
)

instance abbrev pub key_eq : Eq QueryKey
key_eq = record { beq = key_beq; beq_iff = key_beq_iff }
