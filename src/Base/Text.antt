-- ===== src/Base/Text.antt =====
-- What the code uses of Go's `strings` and `fmt`, on ASCII text: a byte of 128 or more is left as it
-- is, and is no space.
use Prim.Native.Nat.{ℕ, zero, suc, ◌+◌, ◌-◌, ◌*◌, ◌/◌, ◌%◌, ◌≤◌, ◌<◌}
use mathlib.Core.Path.{◌≡◌, refl, ap}
use mathlib.Core.Logic.{inl, inr}
use mathlib.Core.Bool.{Bool, true, false, ◌&&◌, ◌||◌}
use mathlib.Core.List.{[], ◌∷◌, ◌++◌, map, reverse}
use native.Mathlib.Omega.{arith}
use kubling_providers.Base.Tests.{ltb, leb, nat_beq, if◌then◌else◌, Bool-cases}
use kubling_providers.Base.Lists.{length, All, All-append}
use kubling_providers.Base.Equality.{Bytes}

-- tab, newline, vertical tab, form feed, carriage return and space
unfoldable pub is_space : ℕ → Bool
is_space c = (leb 9 c && leb c 13) || nat_beq c 32

unfoldable pub trim_left : Bytes → Bytes
unfolding is_space
trim_left [] = []
trim_left (c ∷ cs) = elim (is_space c) [ true ↦ trim_left cs | false ↦ c ∷ cs ]

-- `strings.TrimSpace`
unfoldable pub trim_space : Bytes → Bytes
unfolding trim_left
trim_space s = reverse (trim_left (reverse (trim_left s)))

unfoldable pub upper_byte : ℕ → ℕ
upper_byte c = if leb 97 c && leb c 122 then c - 32 else c

-- `strings.ToUpper`
unfoldable pub to_upper : Bytes → Bytes
unfolding upper_byte
to_upper s = map upper_byte s

unfoldable pub lower_byte : ℕ → ℕ
lower_byte c = if leb 65 c && leb c 90 then c + 32 else c

-- `strings.ToLower`
unfoldable pub to_lower : Bytes → Bytes
unfolding lower_byte
to_lower s = map lower_byte s

-- The digits of `n`, for fuel above `n`.
unfoldable pub decimal_on : ℕ → ℕ → Bytes
decimal_on zero n = []
decimal_on (suc fuel) n = elim (ltb n 10) [
  | true ↦ (48 + n) ∷ []
  | false ↦ decimal_on fuel (n / 10) ++ (48 + n % 10) ∷ []
]

-- `%d` of a number that is not negative
unfoldable pub decimal : ℕ → Bytes
unfolding decimal_on
decimal n = decimal_on (suc n) n

-- the number that digits stand for, after `acc`
value_from : ℕ → Bytes → ℕ
value_from acc [] = acc
value_from acc (d ∷ ds) = value_from (acc * 10 + (d - 48)) ds

value_from-append :
    (acc : ℕ) (xs : Bytes) (d : ℕ)
    → value_from acc (xs ++ d ∷ []) ≡ value_from acc xs * 10 + (d - 48)
unfolding value_from
value_from-append acc [] d = refl
value_from-append acc (x ∷ xs) d = value_from-append (acc * 10 + (x - 48)) xs d

value-decimal_on : (fuel n : ℕ) → n < fuel → value_from 0 (decimal_on fuel n) ≡ n
unfolding value_from decimal_on
value-decimal_on zero n h = elim h [ ]
value-decimal_on (suc fuel) n h = ground (
  arith,
  value-decimal_on fuel (n / 10),
  value_from-append 0 (decimal_on fuel (n / 10)) (48 + n % 10),
)

-- `decimal` is injective.
pub decimal-injective : (m n : ℕ) → decimal m ≡ decimal n → m ≡ n
unfolding decimal
decimal-injective m n p =
    omega (arith, value-decimal_on (suc m) m, value-decimal_on (suc n) n, ap (value_from 0) p)

abbrev pub IsDigit : ℕ → Type 0
IsDigit d = (48 ≤ d) × (d ≤ 57)

decimal_on-digits : (fuel n : ℕ) → All IsDigit (decimal_on fuel n)
unfolding decimal_on
decimal_on-digits zero n = tt
decimal_on-digits (suc fuel) n = elim (Bool-cases (ltb n 10)) [
  | inl e ↦ rw (e, decimal_on) (ground arith)
  | inr e ↦
      rw (e, decimal_on)
        (All-append IsDigit (decimal_on fuel (n / 10)) ((48 + n % 10) ∷ [])
          (decimal_on-digits fuel (n / 10)) (omega arith))
]

pub decimal-digits : (n : ℕ) → All IsDigit (decimal n)
unfolding decimal
decimal-digits n = decimal_on-digits (suc n) n

-- Digits before a colon can be told from what follows it.
pub digits_colon :
    (xs ys as' bs : Bytes)
    → All IsDigit xs
    → All IsDigit ys
    → xs ++ 58 ∷ as' ≡ ys ++ 58 ∷ bs
    → (xs ≡ ys) × (as' ≡ bs)
digits_colon [] [] as' bs h k p = ground arith
digits_colon [] (y ∷ ys) as' bs h k p = ground arith
digits_colon (x ∷ xs) [] as' bs h k p = ground arith
digits_colon (x ∷ xs) (y ∷ ys) as' bs h k p = ground (arith, digits_colon xs ys as' bs h.1 k.1)

-- Lists of one length split an append in one way.
pub append_same_length :
    (as' bs cs ds : Bytes) → length as' ≡ length bs → as' ++ cs ≡ bs ++ ds → (as' ≡ bs) × (cs ≡ ds)
append_same_length [] [] cs ds h p = (refl, p)
append_same_length [] (b ∷ bs) cs ds h p = absurd (omega arith)
append_same_length (a ∷ as') [] cs ds h p = absurd (omega arith)
append_same_length (a ∷ as') (b ∷ bs) cs ds h p =
    ground (arith, append_same_length as' bs cs ds (omega arith))
