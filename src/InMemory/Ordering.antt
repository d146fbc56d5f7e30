-- ===== src/InMemory/Ordering.antt =====
-- The order of the rows of a result (compareOrderedValues, sortPlannedRows and evaluateOrderValues,
-- providers/inmemory/query.go).
pub mod Nulls
pub mod Laws
use Prim.Native.Nat.{Ordering}
use kubling_providers.Base.{
  ℕ, Bool, true, false, List, [], ◌∷◌, Option, none, some, Bytes, Result, ok, err, ◌>>=◌,
  if◌then◌else◌,
}
use kubling_providers.InMemory.Values.{Value, is_null}
use kubling_providers.InMemory.Numbers.{Rat, compare_bytes, flip}
use kubling_providers.InMemory.Compare.{CompareFault, compare_values}
use kubling_providers.InMemory.Expressions.{Expression, nil_expression}
use kubling_providers.InMemory.Sort.{stable_sort}

pub data SortDirection : Type 0 where
  ascending descending : SortDirection
  other_direction : ℕ → SortDirection

pub data NullOrdering : Type 0 where
  unspecified_nulls nulls_first nulls_last : NullOrdering
  other_nulls : ℕ → NullOrdering

pub record OrderBy : Type 0 where
  pub expression : Expression
  pub direction : SortDirection
  pub null_ordering : NullOrdering

abbrev pub is_nulls_first : NullOrdering → Bool
is_nulls_first nulls_first = true
is_nulls_first _ = false

abbrev pub is_descending : SortDirection → Bool
is_descending descending = true
is_descending _ = false

abbrev pub directed : SortDirection → Result CompareFault Ordering → Result CompareFault Ordering
directed direction (ok order) = ok (if is_descending direction then flip order else order)
directed direction (err e) = err e

module _ (parse_number : Bytes → Option Rat) where
  -- compareOrderedValues
  unfoldable pub compare_ordered_values : OrderBy → Value → Value → Result CompareFault Ordering
  unfolding is_null compare_values
  compare_ordered_values ordering left right = elim (is_null left) [
    | true ↦ elim (is_null right) [
      | true ↦ ok Ordering.eq
      | false ↦ ok (if is_nulls_first ordering.null_ordering then Ordering.lt else Ordering.gt)
    ]
    | false ↦ elim (is_null right) [
      | true ↦ ok (if is_nulls_first ordering.null_ordering then Ordering.gt else Ordering.lt)
      | false ↦ directed ordering.direction (compare_values parse_number left right)
    ]
  ]

  -- The order of two rows by the values of the orderings, one for each, and then by their keys. Rows with
  -- fewer values do not occur; they would come first.
  unfoldable pub compare_rows :
      List OrderBy → List Value × Bytes → List Value × Bytes → Result CompareFault Ordering
  unfolding compare_ordered_values compare_bytes
  compare_rows (o ∷ os) (l ∷ ls, k) (r ∷ rs, j) = compare_ordered_values o l r >>= λ order.
      elim order [
        | Ordering.eq ↦ compare_rows os (ls, k) (rs, j)
        | Ordering.lt ↦ ok Ordering.lt
        | Ordering.gt ↦ ok Ordering.gt
      ]
  compare_rows (o ∷ os) ([], k) (r ∷ rs, j) = ok Ordering.lt
  compare_rows (o ∷ os) (l ∷ ls, k) ([], j) = ok Ordering.gt
  compare_rows (o ∷ os) ([], k) ([], j) = ok (compare_bytes k j)
  compare_rows [] (ls, k) (rs, j) = ok (compare_bytes k j)
