-- ===== src/InMemory/Numbers/Decimal.antt =====
-- The decimal text of a fraction (aggregateDecimalString, providers/inmemory/aggregate.go, and
-- Rat.FloatString of math/big).
use kubling_providers.Base.{
  ℕ, zero, suc, ◌+◌, ◌-◌, ◌*◌, ◌/◌, ◌%◌, ◌^◌, Bool, true, false, ◌&&◌, [], ◌∷◌, ◌++◌, Option, none,
  some, Bytes, ℤ, pos, negsuc, decimal, length, leb, ltb, nat_beq, if◌then◌else◌,
}
use kubling_providers.InMemory.Numbers.{Rat, denominator}

-- `n.String()`
unfoldable pub print_int : ℤ → Bytes
print_int (pos n) = decimal n
print_int (negsuc n) = b'-' ∷ decimal (suc n)

abbrev pub is_negative : ℤ → Bool
is_negative (pos n) = false
is_negative (negsuc n) = true

abbrev pub magnitude : ℤ → ℕ
magnitude (pos n) = n
magnitude (negsuc n) = suc n

unfoldable pub zeros : ℕ → Bytes
zeros zero = []
zeros (suc n) = b'0' ∷ zeros n

-- The integral part and the digits after the point, as a number, rounded half away from zero.
unfoldable pub rounded : ℕ → Rat → ℕ × ℕ
rounded precision x =
    let quotient = magnitude x.numerator / denominator x in
    let scaled = magnitude x.numerator % denominator x * 10 ^ precision in
    let up : ℕ = if leb (denominator x) (2 * (scaled % denominator x)) then 1 else 0 in
    let digits = scaled / denominator x + up in
    if nat_beq up 1 && leb (10 ^ precision) digits
    then (quotient + 1, digits - 10 ^ precision)
    else (quotient, digits)

abbrev pub fraction_digits : ℕ → ℕ → Bytes
fraction_digits precision digits =
    let text = decimal digits in zeros (precision - length text) ++ text

-- `x.FloatString(precision)`
unfoldable pub float_string : ℕ → Rat → Bytes
unfolding print_int zeros rounded
float_string precision x =
    let whole = nat_beq (magnitude x.numerator % denominator x) 0 in
    let (quotient, digits) = rounded precision x in
    let sign : Bytes = if is_negative x.numerator then b'-' ∷ [] else [] in
    let fraction : Bytes = if whole then zeros precision else fraction_digits precision digits in
    sign ++ (decimal quotient ++ (if ltb 0 precision then b'.' ∷ fraction else []))

-- the greatest common divisor, for fuel above `b`
unfoldable pub gcd_on : ℕ → ℕ → ℕ → ℕ
gcd_on zero a b = a
gcd_on (suc fuel) a zero = a
gcd_on (suc fuel) a (suc b) = gcd_on fuel (suc b) (a % suc b)

-- `x.Denom()`
unfoldable pub lowest_denominator : Rat → ℕ
unfolding gcd_on
lowest_denominator x =
    denominator x / gcd_on (suc (denominator x)) (magnitude x.numerator) (denominator x)

-- How often the number is divided by `k` without remainder, and what is left of it.
unfoldable pub factor_out : ℕ → ℕ → ℕ → ℕ × ℕ
factor_out zero k n = (0, n)
factor_out (suc fuel) k n = elim (nat_beq (n % k) 0) [
  | true ↦ let (count, rest) = factor_out fuel k (n / k) in (count + 1, rest)
  | false ↦ (0, n)
]

unfoldable pub exact_precision : ℕ → ℕ
unfolding factor_out
exact_precision n =
    let (twos, odd) = factor_out n 2 n in
    let (fives, rest) = factor_out odd 5 odd in
    if nat_beq rest 1 then (if leb fives twos then twos else fives) else 18

-- `strings.TrimRight(s, c)`
unfoldable pub trim_right : ℕ → Bytes → Bytes
trim_right c [] = []
trim_right c (b ∷ bs) = elim (trim_right c bs) [
  | [] ↦ (if nat_beq b c then [] else b ∷ [])
  | d ∷ ds ↦ b ∷ d ∷ ds
]

unfoldable pub contains_byte : ℕ → Bytes → Bool
contains_byte c [] = false
contains_byte c (b ∷ bs) = if nat_beq b c then true else contains_byte c bs

-- a multiple of a power of ten, as near as may be
unfoldable pub round_to_tens : ℕ → Rat → Bytes
unfolding print_int rounded
round_to_tens tens x =
    let scaled : Rat = record {
      numerator = x.numerator;
      less_one = denominator x * 10 ^ tens - 1;
    } in
    let count = (rounded 0 scaled).0 * 10 ^ tens in
    print_int (if is_negative x.numerator && ltb 0 count then negsuc (count - 1) else pos count)

-- aggregateDecimalString; the scale of the descriptor is given.
unfoldable pub aggregate_decimal_string : Rat → Option ℤ → Bytes
unfolding float_string round_to_tens lowest_denominator exact_precision trim_right contains_byte
aggregate_decimal_string x (some (pos scale)) = float_string scale x
aggregate_decimal_string x (some (negsuc n)) = round_to_tens (suc n) x
aggregate_decimal_string x none =
    let text = float_string (exact_precision (lowest_denominator x)) x in
    if contains_byte b'.' text then trim_right b'.' (trim_right b'0' text) else text
