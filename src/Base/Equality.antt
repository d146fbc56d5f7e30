-- ===== src/Base/Equality.antt =====
-- Equality tests as an interface. A Go string is the list of its bytes.
use Prim.Native.Nat.{ℕ}
use Prim.Native.Char.{code}
use Prim.Native.String.{String}
use mathlib.Core.Path.{◌≡◌, refl}
use mathlib.Core.Logic.{◌↔◌}
use mathlib.Core.Bool.{Bool, true, false, ◌&&◌}
use mathlib.Core.List.{List, [], ◌∷◌}
use native.Mathlib.Omega.{arith}
use kubling_providers.Base.Tests.{nat_beq, nat_beq_iff}

-- Types whose values Go compares with `==`.
pub record Eq {ℓ} (K : Type ℓ) : Type ℓ where
  pub beq : K → K → Bool
  pub beq_iff : (k j : K) → (beq k j ≡ true) ↔ (k ≡ j)

abbrev pub Bytes : Type 0
Bytes = List ℕ

abbrev pub codes : String → Bytes
codes String.[] = []
codes (String.◌∷◌ c s) = code c ∷ codes s

unfoldable pub bytes_beq : Bytes → Bytes → Bool
bytes_beq [] [] = true
bytes_beq [] (b ∷ bs) = false
bytes_beq (a ∷ as') [] = false
bytes_beq (a ∷ as') (b ∷ bs) = nat_beq a b && bytes_beq as' bs

pub bytes_beq_to : (as' bs : Bytes) → bytes_beq as' bs ≡ true → as' ≡ bs
unfolding bytes_beq
bytes_beq_to [] [] h = refl
bytes_beq_to [] (b ∷ bs) h = cc
bytes_beq_to (a ∷ as') [] h = cc
bytes_beq_to (a ∷ as') (b ∷ bs) h = ground (arith, bytes_beq_to as' bs)

bytes_beq_self : (bs : Bytes) → bytes_beq bs bs ≡ true
unfolding bytes_beq
bytes_beq_self [] = refl
bytes_beq_self (b ∷ bs) = ground (arith, bytes_beq_self bs)

pub bytes_beq_iff : (as' bs : Bytes) → (bytes_beq as' bs ≡ true) ↔ (as' ≡ bs)
bytes_beq_iff as' bs = (bytes_beq_to as' bs, λ e. ground (arith, bytes_beq_self bs))

infix 50 ◌==◌
abbrev pub ◌==◌ {ℓ} : {K : Type ℓ} ⦃e : Eq K⦄ (k j : K) → Bool
◌==◌ ⦃e⦄ k j = e.beq k j

instance abbrev pub nat_eq : Eq ℕ
nat_eq = record { beq = nat_beq; beq_iff = nat_beq_iff }

instance abbrev pub bytes_eq : Eq Bytes
bytes_eq = record { beq = bytes_beq; beq_iff = bytes_beq_iff }
