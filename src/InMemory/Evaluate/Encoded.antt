-- ===== src/InMemory/Evaluate/Encoded.antt =====
-- The key under which a row is grouped (aggregateValuesKey, providers/inmemory/aggregate.go).
use kubling_providers.Base.{
  ℕ, zero, suc, ◌^◌, ◌/◌, ◌%◌, ◌<◌, ◌≡◌, refl, sym, ◌∙◌, ap, List, [], ◌∷◌, ◌++◌, Option, none,
  some, Bytes, Result, ok, bind_ok, Option-cases, length, append_same_length, All, arith, inl, inr,
}
use kubling_providers.Cache.State.{u64_mod}
use kubling_providers.InMemory.Values.{Value}
use kubling_providers.InMemory.Evaluate.Aggregates.{
  Library, AggregateFault, big_endian, aggregate_values_key,
}

byte_at : ℕ → Bytes → ℕ
byte_at i [] = 0
byte_at zero (b ∷ bs) = b
byte_at (suc i) (b ∷ bs) = byte_at i bs

-- A length of 64 bits is told by its eight bytes.
big_endian-same : (n m : ℕ) → n < u64_mod → m < u64_mod → big_endian 8 n ≡ big_endian 8 m → n ≡ m
unfolding big_endian byte_at
big_endian-same n m a b e =
    let d7 : n / 256 ^ 7 % 256 ≡ m / 256 ^ 7 % 256 = ap (byte_at 0) e in
    let e7 : n / 72057594037927936 ≡ m / 72057594037927936 = omega (arith, a, b, d7) in
    let d6 : n / 256 ^ 6 % 256 ≡ m / 256 ^ 6 % 256 = ap (byte_at 1) e in
    let e6 : n / 281474976710656 ≡ m / 281474976710656 = omega (arith, a, b, d6, e7) in
    let d5 : n / 256 ^ 5 % 256 ≡ m / 256 ^ 5 % 256 = ap (byte_at 2) e in
    let e5 : n / 1099511627776 ≡ m / 1099511627776 = omega (arith, a, b, d5, e6) in
    let d4 : n / 256 ^ 4 % 256 ≡ m / 256 ^ 4 % 256 = ap (byte_at 3) e in
    let e4 : n / 4294967296 ≡ m / 4294967296 = omega (arith, a, b, d4, e5) in
    let d3 : n / 256 ^ 3 % 256 ≡ m / 256 ^ 3 % 256 = ap (byte_at 4) e in
    let e3 : n / 16777216 ≡ m / 16777216 = omega (arith, a, b, d3, e4) in
    let d2 : n / 256 ^ 2 % 256 ≡ m / 256 ^ 2 % 256 = ap (byte_at 5) e in
    let e2 : n / 65536 ≡ m / 65536 = omega (arith, a, b, d2, e3) in
    let d1 : n / 256 ^ 1 % 256 ≡ m / 256 ^ 1 % 256 = ap (byte_at 6) e in
    let e1 : n / 256 ≡ m / 256 = omega (arith, a, b, d1, e2) in
    let d0 : n / 256 ^ 0 % 256 ≡ m / 256 ^ 0 % 256 = ap (byte_at 7) e in omega (arith, d0, e1)

-- The bytes that each value is marshalled to.
unfoldable pub encodings : Library → List Value → List (Option Bytes)
encodings lib [] = []
encodings lib (v ∷ vs) = lib.marshal v ∷ encodings lib vs

-- The value is marshalled to fewer than 2^64 bytes, if it is marshalled.
abbrev pub IsShort : Library → Value → Type 0
IsShort lib v = elim (lib.marshal v) [ none ↦ Unit | some b ↦ length b < u64_mod ]

cons_key :
    (lib : Library) (v : Value) (vs : List Value) (key : Bytes)
    → aggregate_values_key lib (v ∷ vs) ≡ ok key
    → (b : Bytes) × (rest : Bytes) × (lib.marshal v ≡ some b)
      × (aggregate_values_key lib vs ≡ ok rest)
      × (key ≡ big_endian 8 (length b) ++ (b ++ rest))
unfolding aggregate_values_key
cons_key lib v vs key h = elim (Option-cases (lib.marshal v)) [
  | inl missing ↦ absurd (cc (rw (missing, aggregate_values_key) at h))
  | inr (b, found) ↦
      let whole : Bytes → Result AggregateFault Bytes =
        λ rest. ok (big_endian 8 (length b) ++ (b ++ rest)) in
      let (rest, e, same) =
        (bind_ok (aggregate_values_key lib vs) whole key).0
          (rw (found, aggregate_values_key) at h) in
      (b, rest, found, e, ground (arith, same))
]

no_bytes : (n : ℕ) (bs : Bytes) → big_endian 8 n ++ bs ≡ [] → ⊥
unfolding big_endian
no_bytes n bs e = cc

-- Values are grouped under one key only if they are equal as their encodings tell: two lists of values that
-- are marshalled to fewer than 2^64 bytes each, and that have the same key, have the same encodings, one by
-- one, and as many.
pub aggregate_values_key-encodings :
    (lib : Library) (vs ws : List Value) (key : Bytes)
    → All (IsShort lib) vs
    → All (IsShort lib) ws
    → aggregate_values_key lib vs ≡ ok key
    → aggregate_values_key lib ws ≡ ok key
    → encodings lib vs ≡ encodings lib ws
unfolding encodings
aggregate_values_key-encodings lib [] [] key a b h k = refl
aggregate_values_key-encodings lib [] (w ∷ ws) key a b h k =
    let (c, rest, found, e, same) = cons_key lib w ws key k in
    let empty : [] ≡ key = unfold aggregate_values_key in cc in
    absurd (no_bytes (length c) (c ++ rest) (sym same ∙ sym empty))
aggregate_values_key-encodings lib (v ∷ vs) [] key a b h k =
    let (c, rest, found, e, same) = cons_key lib v vs key h in
    let empty : [] ≡ key = unfold aggregate_values_key in cc in
    absurd (no_bytes (length c) (c ++ rest) (sym same ∙ sym empty))
aggregate_values_key-encodings lib (v ∷ vs) (w ∷ ws) key a b h k =
    let (c, rest, found, e, same) = cons_key lib v vs key h in
    let (c', rest', found', e', same') = cons_key lib w ws key k in
    let sizes =
      append_same_length (big_endian 8 (length c)) (big_endian 8 (length c')) (c ++ rest)
        (c' ++ rest') (unfold big_endian in refl) (sym same ∙ same') in
    let size : length c ≡ length c' =
      big_endian-same (length c) (length c') (rw (found, IsShort) at a.0)
        (rw (found', IsShort) at b.0) sizes.0 in
    let parts = append_same_length c c' rest rest' size sizes.1 in
    rw
      (
        found ∙ ap some parts.0 ∙ sym found',
        aggregate_values_key-encodings lib vs ws rest a.1 b.1 e (e' ∙ ap ok (sym parts.1)),
      )
      refl
