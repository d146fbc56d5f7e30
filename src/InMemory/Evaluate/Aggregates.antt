-- ===== src/InMemory/Evaluate/Aggregates.antt =====
-- Aggregates over the rows of a group (providers/inmemory/aggregate.go), for a given evaluation of the
-- argument on a row.
use Prim.Native.Nat.{Ordering}
use kubling_providers.Base.{
  ℕ, zero, suc, ◌/◌, ◌%◌, ◌^◌, Bool, true, false, List, [], ◌∷◌, ◌++◌, Option, none, some, Bytes,
  bytes_beq, ℤ, pos, negsuc, Result, ok, err, ◌>>=◌, length, ltb, if◌then◌else◌, ◌==◌,
}
use kubling_providers.Messages.{
  ValueType, byte, short, integer, long, biginteger, float, double, bigdecimal, TypeDescriptor,
  plain, of_element,
}
use kubling_providers.Server.Structure.{type_of}
use kubling_providers.Server.Structure.Types.{type_eq}
use kubling_providers.InMemory.Values.{
  Value, null_value, byte_value, short_value, integer_value, long_value, biginteger_value,
  float_value, double_value, bigdecimal_value, TypeFault, value_type,
}
use kubling_providers.InMemory.Numbers.{Rat, of_int, add_rat, divide_rat, is_int, integer_of}
use kubling_providers.InMemory.Numbers.Decimal.{print_int, aggregate_decimal_string}
use kubling_providers.InMemory.Expressions.{
  AggregateFunction, count_star, count, count_big, min, max, sum, avg, other_function,
}
use kubling_providers.InMemory.Compare.{CompareFault, aggregate_number, compare_values}

-- `SetString` of big.Rat; the deterministic encoding of a message, which may fail; and the nearest
-- float32 and float64, as text, with nothing where that is infinite or more than the type holds.
pub record Library : Type 0 where
  pub parse_number : Bytes → Option Rat
  pub marshal : Value → Option Bytes
  pub to_float : Rat → Option Bytes
  pub to_double : Rat → Option Bytes

pub data AggregateFault : Type 0 where
  no_arguments_expected one_argument_expected result_type_required not_integral overflows :
      AggregateFault
  result_not_numeric cannot_coerce encode_failed unsupported_function : AggregateFault
  of_compare : CompareFault → AggregateFault
  of_type : TypeFault → AggregateFault

abbrev pub compared : {A : Type 0} → Result CompareFault A → Result AggregateFault A
compared (ok a) = ok a
compared (err e) = err (of_compare e)

abbrev pub scale_of : TypeDescriptor → Option ℤ
scale_of (plain t precision scale) = scale
scale_of (of_element t element precision scale) = scale

-- `-limit <= n < limit`
abbrev pub within : ℕ → ℤ → Bool
within limit (pos n) = ltb n limit
within limit (negsuc n) = ltb n limit

abbrev pub fits : ℕ → ℤ → (ℤ → Value) → Result AggregateFault Value
fits limit n value = if within limit n then ok (value n) else err overflows

abbrev pub or_overflow : Option Bytes → (Bytes → Value) → Result AggregateFault Value
or_overflow none value = err overflows
or_overflow (some s) value = ok (value s)

abbrev pub integral : Rat → Result AggregateFault Value → Result AggregateFault Value
integral x m = if is_int x then m else err not_integral

-- the `n` low bytes of a number, the highest first
unfoldable pub big_endian : ℕ → ℕ → Bytes
big_endian zero n = []
big_endian (suc k) n = n / 256 ^ k % 256 ∷ big_endian k n

module _ (lib : Library) where
  -- aggregateNumberValue
  unfoldable pub number_value : Rat → ValueType → Option ℤ → Result AggregateFault Value
  unfolding is_int integer_of print_int aggregate_decimal_string
  number_value x byte scale = integral x (fits 128 (integer_of x) byte_value)
  number_value x short scale = integral x (fits 32_768 (integer_of x) short_value)
  number_value x integer scale = integral x (fits 2_147_483_648 (integer_of x) integer_value)
  number_value x long scale = integral x (fits 9_223_372_036_854_775_808 (integer_of x) long_value)
  number_value x biginteger scale = integral x (ok (biginteger_value (print_int (integer_of x))))
  number_value x float scale = or_overflow (lib.to_float x) float_value
  number_value x double scale = or_overflow (lib.to_double x) double_value
  number_value x bigdecimal scale = ok (bigdecimal_value (aggregate_decimal_string x scale))
  number_value x _ scale = err result_not_numeric

  unfoldable pub aggregate_number_value : Rat → Option TypeDescriptor → Result AggregateFault Value
  unfolding number_value
  aggregate_number_value x none = err result_type_required
  aggregate_number_value x (some t) = number_value x (type_of t) (scale_of t)

  -- coerceAggregateValue
  unfoldable pub coerce_aggregate_value :
      Value → Option TypeDescriptor → Result AggregateFault Value
  unfolding aggregate_number_value value_type aggregate_number
  coerce_aggregate_value v none = err result_type_required
  coerce_aggregate_value v (some t) = elim (value_type v) [
    | err e ↦ err (of_type e)
    | ok actual ↦ elim (actual == type_of t) [
      | true ↦ ok v
      | false ↦ elim (aggregate_number lib.parse_number v) [
        | err e ↦ err cannot_coerce
        | ok x ↦ aggregate_number_value x (some t)
      ]
    ]
  ]

  -- aggregateValuesKey
  unfoldable pub aggregate_values_key : List Value → Result AggregateFault Bytes
  unfolding big_endian
  aggregate_values_key [] = ok []
  aggregate_values_key (v ∷ vs) = elim (lib.marshal v) [
    | none ↦ err encode_failed
    | some encoded ↦
        aggregate_values_key vs >>= λ key. ok (big_endian 8 (length encoded) ++ (encoded ++ key))
  ]

  unfoldable pub contains_key : Bytes → List Bytes → Bool
  contains_key key [] = false
  contains_key key (k ∷ ks) = if bytes_beq k key then true else contains_key key ks

  -- MIN keeps a lesser candidate, MAX a greater one.
  abbrev pub is_better : AggregateFunction → Ordering → Bool
  is_better min Ordering.lt = true
  is_better max Ordering.gt = true
  is_better _ _ = false

  unfoldable pub select : AggregateFunction → Value → List Value → Result CompareFault Value
  unfolding compare_values
  select function selected [] = ok selected
  select function selected (candidate ∷ candidates) =
      compare_values lib.parse_number candidate selected >>= λ order.
      select function (if is_better function order then candidate else selected) candidates

  unfoldable pub total : Rat → List Value → Result CompareFault Rat
  unfolding aggregate_number add_rat
  total so_far [] = ok so_far
  total so_far (v ∷ vs) = aggregate_number lib.parse_number v >>= λ x. total (add_rat so_far x) vs

  unfoldable pub of_values :
      AggregateFunction → List Value → Option TypeDescriptor → Result AggregateFault Value
  unfolding aggregate_number_value coerce_aggregate_value select total divide_rat
  of_values count vs t = aggregate_number_value (of_int (pos (length vs))) t
  of_values count_big vs t = aggregate_number_value (of_int (pos (length vs))) t
  of_values min [] t = ok null_value
  of_values min (v ∷ vs) t = compared (select min v vs) >>= λ w. coerce_aggregate_value w t
  of_values max [] t = ok null_value
  of_values max (v ∷ vs) t = compared (select max v vs) >>= λ w. coerce_aggregate_value w t
  of_values sum [] t = ok null_value
  of_values sum (v ∷ vs) t =
      compared (total (of_int (pos 0)) (v ∷ vs)) >>= λ x. aggregate_number_value x t
  of_values avg [] t = ok null_value
  of_values avg (v ∷ vs) t = compared (total (of_int (pos 0)) (v ∷ vs)) >>= λ x.
      aggregate_number_value (divide_rat x (length vs)) t
  of_values count_star vs t = err unsupported_function
  of_values (other_function n) vs t = err unsupported_function
