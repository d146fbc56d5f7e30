-- ===== src/InMemory/Numbers.antt =====
-- What the provider uses of Go's rational numbers (math/big) and of its orders on strings and Booleans
-- (compareValues and aggregateNumber, providers/inmemory).
pub mod Orders
pub mod Decimal
use Prim.Native.Nat.{compare, Ordering}
use kubling_providers.Base.{
  ℕ, zero, suc, ◌+◌, ◌-◌, ◌*◌, ◌/◌, ◌%◌, Bool, true, false, ◌&&◌, [], ◌∷◌, Bytes, ℤ, pos, negsuc,
  leb, nat_beq, if◌then◌else◌,
}

-- big.Rat: the numerator, and the denominator less one. A fraction need not be in lowest terms.
pub record Rat : Type 0 where
  pub numerator : ℤ
  pub less_one : ℕ

abbrev pub denominator : Rat → ℕ
denominator x = suc x.less_one

abbrev pub of_int : ℤ → Rat
of_int n = record { numerator = n; less_one = 0 }

-- the order of two integers, the first times `q` and the second times `p`
abbrev pub compare_scaled : ℤ → ℕ → ℤ → ℕ → Ordering
compare_scaled (pos a) q (pos c) p = compare (a * q) (c * p)
compare_scaled (negsuc a) q (negsuc c) p = compare (suc c * p) (suc a * q)
compare_scaled (pos a) q (negsuc c) p = Ordering.gt
compare_scaled (negsuc a) q (pos c) p = Ordering.lt

-- `x.Cmp(y)`
unfoldable pub compare_rat : Rat → Rat → Ordering
compare_rat x y = compare_scaled x.numerator (denominator y) y.numerator (denominator x)

-- the order of two strings, byte for byte
unfoldable pub compare_bytes : Bytes → Bytes → Ordering
compare_bytes [] [] = Ordering.eq
compare_bytes [] (b ∷ bs) = Ordering.lt
compare_bytes (a ∷ as') [] = Ordering.gt
compare_bytes (a ∷ as') (b ∷ bs) = elim (compare a b) [
  | Ordering.lt ↦ Ordering.lt
  | Ordering.gt ↦ Ordering.gt
  | Ordering.eq ↦ compare_bytes as' bs
]

abbrev pub compare_flags : Bool → Bool → Ordering
compare_flags false false = Ordering.eq
compare_flags true true = Ordering.eq
compare_flags false true = Ordering.lt
compare_flags true false = Ordering.gt

abbrev pub flip : Ordering → Ordering
flip Ordering.lt = Ordering.gt
flip Ordering.gt = Ordering.lt
flip Ordering.eq = Ordering.eq

-- `n` times an integer
abbrev pub times : ℕ → ℤ → ℤ
times n (pos a) = pos (a * n)
times zero (negsuc a) = pos 0
times (suc n) (negsuc a) = negsuc (suc a * suc n - 1)

infixl 65 ◌+ℤ◌
abbrev pub ◌+ℤ◌ : ℤ → ℤ → ℤ
pos a +ℤ pos b = pos (a + b)
pos a +ℤ negsuc b = if leb (suc b) a then pos (a - suc b) else negsuc (b - a)
negsuc a +ℤ pos b = if leb (suc a) b then pos (b - suc a) else negsuc (a - b)
negsuc a +ℤ negsuc b = negsuc (a + b + 1)

-- `x.Add(x, y)`
unfoldable pub add_rat : Rat → Rat → Rat
add_rat x y = record {
  numerator = times (denominator y) x.numerator +ℤ times (denominator x) y.numerator;
  less_one = denominator x * denominator y - 1;
}

-- the quotient by a count that is not zero, given less one
unfoldable pub divide_rat : Rat → ℕ → Rat
divide_rat x n = record { numerator = x.numerator; less_one = denominator x * suc n - 1 }

-- `x.IsInt()`
unfoldable pub is_int : Rat → Bool
is_int x = elim x.numerator [
  | pos a ↦ nat_beq (a % denominator x) 0
  | negsuc a ↦ nat_beq (suc a % denominator x) 0
]

-- `x.Num()`, of an `x` that is an integer
unfoldable pub integer_of : Rat → ℤ
integer_of x = elim x.numerator [
  | pos a ↦ pos (a / denominator x)
  | negsuc a ↦ negsuc (suc a / denominator x - 1)
]
