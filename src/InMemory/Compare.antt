-- ===== src/InMemory/Compare.antt =====
-- Comparison of values (providers/inmemory/expression.go and aggregate.go).
pub mod Keys
use Prim.Native.Nat.{Ordering}
use kubling_providers.Base.{
  ℕ, Bool, true, false, Option, none, some, Bytes, ℤ, Result, ok, err, ◌>>=◌,
}
use kubling_providers.InMemory.Numbers.{Rat, of_int, compare_rat, compare_bytes, compare_flags}
use kubling_providers.InMemory.Values.{
  Value, null_value, string_value, boolean_value, byte_value, short_value, integer_value,
  long_value, biginteger_value, float_value, double_value, bigdecimal_value, is_numeric,
}

pub data CompareFault : Type 0 where
  numeric_and_other string_and_other boolean_and_other not_comparable : CompareFault
  not_numeric : CompareFault
  invalid_number : Bytes → CompareFault

abbrev pub number_or_fault : Bytes → Option Rat → Result CompareFault Rat
number_or_fault text none = err (invalid_number text)
number_or_fault text (some x) = ok x

-- `parse_number` is `SetString` of big.Rat.
module _ (parse_number : Bytes → Option Rat) where
  -- aggregateNumber
  unfoldable pub aggregate_number : Value → Result CompareFault Rat
  aggregate_number (byte_value n) = ok (of_int n)
  aggregate_number (short_value n) = ok (of_int n)
  aggregate_number (integer_value n) = ok (of_int n)
  aggregate_number (long_value n) = ok (of_int n)
  aggregate_number (biginteger_value s) = number_or_fault s (parse_number s)
  aggregate_number (float_value s) = number_or_fault s (parse_number s)
  aggregate_number (double_value s) = number_or_fault s (parse_number s)
  aggregate_number (bigdecimal_value s) = number_or_fault s (parse_number s)
  aggregate_number _ = err not_numeric

  -- the switch of compareValues
  unfoldable pub compare_plain : Value → Value → Result CompareFault Ordering
  compare_plain (string_value s) (string_value t) = ok (compare_bytes s t)
  compare_plain (string_value s) right = err string_and_other
  compare_plain (boolean_value b) (boolean_value c) = ok (compare_flags b c)
  compare_plain (boolean_value b) right = err boolean_and_other
  compare_plain left right = err not_comparable

  -- compareValues
  unfoldable pub compare_values : Value → Value → Result CompareFault Ordering
  unfolding aggregate_number compare_plain is_numeric
  compare_values left right = elim (is_numeric left) [
    | true ↦ elim (is_numeric right) [
      | true ↦ aggregate_number left >>= λ x. aggregate_number right >>= λ y. ok (compare_rat x y)
      | false ↦ err numeric_and_other
    ]
    | false ↦ compare_plain left right
  ]
