-- ===== src/Base/Maps.antt =====
-- Go's maps, as association lists in which a key stands once.
use Prim.Native.Nat.{suc}
use mathlib.Core.Path.{◌≡◌, refl, ap, subst}
use mathlib.Core.Logic.{inl, inr}
use mathlib.Core.Bool.{true}
use mathlib.Core.Option.{Option, none, some}
use mathlib.Core.List.{List, [], ◌∷◌}
use native.Mathlib.Omega.{arith}
use kubling_providers.Base.Tests.{if◌then◌else◌, Bool-cases}
use kubling_providers.Base.Lists.{length, All}
use kubling_providers.Base.Equality.{Eq, ◌==◌}

abbrev pub Map {ℓ κ} : Type ℓ → Type κ → Type (ℓ ⊔ κ)
Map K V = List (K × V)

pub eq_self {ℓ} : {K : Type ℓ} ⦃e : Eq K⦄ (k : K) → (k == k) ≡ true
eq_self ⦃e⦄ k = (e.beq_iff k k).1 refl

pub some_injective {ℓ} : {V : Type ℓ} (v w : V) → some v ≡ some w → v ≡ w
some_injective v w e = cc

pub same_key {ℓ} : {K : Type ℓ} ⦃e : Eq K⦄ (j k : K) → (j == k) ≡ true → j ≡ k
same_key ⦃e⦄ j k h = (e.beq_iff j k).0 h

module _ {ℓ κ} {K : Type ℓ} {V : Type κ} ⦃e : Eq K⦄ where
  -- `v, ok := m[k]`
  unfoldable pub lookup : K → Map K V → Option V
  lookup k [] = none
  lookup k ((j, v) ∷ m) = if j == k then some v else lookup k m

  -- `delete(m, k)`
  unfoldable pub delete : K → Map K V → Map K V
  delete k [] = []
  delete k ((j, v) ∷ m) = let rest = delete k m in if j == k then rest else (j, v) ∷ rest

  -- `m[k] = v`
  unfoldable pub insert : K → V → Map K V → Map K V
  unfolding delete
  insert k v m = (k, v) ∷ delete k m

  pub lookup-delete :
      (k j : K) (m : Map K V) → lookup j (delete k m) ≡ (if k == j then none else lookup j m)
  unfolding lookup delete
  lookup-delete k j [] = ground arith
  lookup-delete k j ((i, v) ∷ m) =
      ground (arith, lookup-delete k j m, e.beq_iff i k, e.beq_iff i j, e.beq_iff k j)

  pub lookup-insert :
      (k j : K) (v : V) (m : Map K V)
      → lookup j (insert k v m) ≡ (if k == j then some v else lookup j m)
  unfolding lookup insert
  lookup-insert k j v m = ground (arith, lookup-delete k j m)

  pub lookup-insert_self : (k : K) (v : V) (m : Map K V) → lookup k (insert k v m) ≡ some v
  lookup-insert_self k v m = simp (lookup-insert, eq_self)

  -- No key stands twice.
  abbrev pub IsMap : Map K V → Type κ
  IsMap [] = Unit
  IsMap ((k, v) ∷ m) = (lookup k m ≡ none) × IsMap m

  pub delete-IsMap : (k : K) (m : Map K V) → IsMap m → IsMap (delete k m)
  unfolding delete
  delete-IsMap k [] h = tt
  delete-IsMap k ((j, v) ∷ m) h = ground (arith, delete-IsMap k m h.1, lookup-delete k j m, h.0)

  pub insert-IsMap : (k : K) (v : V) (m : Map K V) → IsMap m → IsMap (insert k v m)
  unfolding insert
  insert-IsMap k v m h = (ground (arith, lookup-delete k k m, eq_self k), delete-IsMap k m h)

  pub delete_missing : (k : K) (m : Map K V) → lookup k m ≡ none → delete k m ≡ m
  unfolding lookup delete
  delete_missing k [] h = refl
  delete_missing k ((j, v) ∷ m) h = ground (arith, delete_missing k m)

  -- Deleting a key that is there takes one entry away.
  pub length-delete :
      (k : K) (v : V) (m : Map K V)
      → IsMap m
      → lookup k m ≡ some v
      → suc (length (delete k m)) ≡ length m
  unfolding lookup delete
  length-delete k v [] h p = cc
  length-delete k v ((j, w) ∷ m) h p =
      ground (arith, length-delete k v m h.1, delete_missing k m, e.beq_iff j k, h.0)

  pub length-insert_new :
      (k : K) (v : V) (m : Map K V) → lookup k m ≡ none → length (insert k v m) ≡ suc (length m)
  unfolding insert
  length-insert_new k v m h = omega (arith, ap length (delete_missing k m h))

  pub All-delete : (P : K × V → Type κ) (k : K) (m : Map K V) → All P m → All P (delete k m)
  unfolding delete
  All-delete P k [] h = tt
  All-delete P k ((j, v) ∷ m) h = elim (Bool-cases (j == k)) [
    | inl e ↦ rw (e, delete) (All-delete P k m h.1)
    | inr e ↦ rw (e, delete) (h.0, All-delete P k m h.1)
  ]

  pub All-insert :
      (P : K × V → Type κ) (k : K) (v : V) (m : Map K V) → P (k, v) → All P m → All P (insert k v m)
  unfolding insert
  All-insert P k v m p h = (p, All-delete P k m h)

  -- What is found is an entry.
  pub All-lookup :
      (P : K × V → Type κ) (k : K) (v : V) (m : Map K V) → All P m → lookup k m ≡ some v → P (k, v)
  unfolding lookup
  All-lookup P k v [] h e = absurd (cc)
  All-lookup P k v ((j, w) ∷ m) h p = elim (Bool-cases (j == k)) [
    | inl e ↦
        subst (λ x. P (k, x)) (some_injective w v (rw (e, lookup) at p))
          (subst (λ x. P (x, w)) (same_key j k e) h.0)
    | inr e ↦ All-lookup P k v m h.1 (rw (e, lookup) at p)
  ]
