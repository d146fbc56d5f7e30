-- ===== src/InMemory/Evaluate.antt =====
-- Evaluation of expressions, on a row and on a group of rows (providers/inmemory/expression.go and
-- aggregate.go). What the code takes from libraries that are not Go's own, and from the parsing and
-- rounding of math/big, is an argument.
pub mod Aggregates
pub mod Encoded
use Prim.Native.Nat.{Ordering}
use kubling_providers.Base.{
  ℕ, suc, Bool, true, false, not, ◌&&◌, List, [], ◌∷◌, Option, none, some, Bytes, ℤ, pos, Result,
  ok, err, ◌>>=◌, ◌>>◌, reject_if, length, ◌||◌, ltb, nat_beq, if◌then◌else◌,
}
use kubling_providers.Messages.{TypeDescriptor}
use kubling_providers.InMemory.Values.{Value, nil_value, boolean_value, null_value, is_null}
use kubling_providers.InMemory.Numbers.{of_int}
use kubling_providers.InMemory.Model.{EntityRow, row_value}
use kubling_providers.InMemory.Compare.{CompareFault, compare_values}
use kubling_providers.InMemory.Expressions.{
  ComparisonOperator, equal, not_equal, less_than, less_than_or_equal, greater_than,
  greater_than_or_equal, other_comparison, LogicalOperator, op_and, op_or, op_not, other_logical,
  NullPredicateOperator, op_is_null, op_is_not_null, other_null, Expression, nil_expression,
  no_kind, nil_field, nil_literal, nil_comparison, nil_logical, nil_null_predicate, nil_pattern,
  nil_function_call, nil_aggregate, field, literal, comparison, logical, null_predicate, pattern,
  function_call, aggregate, Expressions, no_more, one, AggregateFunction, count_star,
}
use kubling_providers.InMemory.Evaluate.Aggregates.{
  Library, AggregateFault, no_arguments_expected, one_argument_expected, encode_failed,
  aggregate_number_value, aggregate_values_key, contains_key, of_values,
}

pub data EvaluationFault : Type 0 where
  expression_required field_name_required field_unavailable unknown_field : EvaluationFault
  literal_required comparison_required logical_required null_predicate_required : EvaluationFault
  function_call_required function_not_supported kind_required : EvaluationFault
  aggregate_required aggregate_in_row : EvaluationFault
  comparison_operator_required logical_operator_required null_operator_required : EvaluationFault
  two_operands_required one_operand_required not_boolean : EvaluationFault
  not_compared : CompareFault → EvaluationFault
  not_aggregated : AggregateFault → EvaluationFault

abbrev pub of_comparison : {A : Type 0} → Result CompareFault A → Result EvaluationFault A
of_comparison (ok a) = ok a
of_comparison (err e) = err (not_compared e)

abbrev pub of_aggregate : {A : Type 0} → Result AggregateFault A → Result EvaluationFault A
of_aggregate (ok a) = ok a
of_aggregate (err e) = err (not_aggregated e)

abbrev pub or_unknown : Option Value → Result EvaluationFault Value
or_unknown none = err unknown_field
or_unknown (some v) = ok v

-- expressionContext: the row, which an empty group does not have, the rows of the group, and whether
-- there is a group
pub record Context : Type 0 where
  pub row : Option EntityRow
  pub rows : List EntityRow
  pub grouped : Bool

abbrev pub row_context : EntityRow → Context
row_context row = record { row = some row; rows = []; grouped = false }

abbrev pub first_row : List EntityRow → Option EntityRow
first_row [] = none
first_row (row ∷ rows) = some row

abbrev pub group_context : List EntityRow → Context
group_context rows = record { row = first_row rows; rows = rows; grouped = true }

unfoldable pub field_value : Option EntityRow → Bytes → Result EvaluationFault Value
unfolding row_value
field_value row [] = err field_name_required
field_value none (b ∷ bs) = err field_unavailable
field_value (some row) (b ∷ bs) = or_unknown (row_value row (b ∷ bs))

unfoldable pub literal_value : Value → Result EvaluationFault Value
literal_value nil_value = err literal_required
literal_value v = ok v

unfoldable pub meets : ComparisonOperator → Ordering → Result EvaluationFault Bool
meets equal order = ok (elim order [ Ordering.eq ↦ true | _ ↦ false ])
meets not_equal order = ok (elim order [ Ordering.eq ↦ false | _ ↦ true ])
meets less_than order = ok (elim order [ Ordering.lt ↦ true | _ ↦ false ])
meets less_than_or_equal order = ok (elim order [ Ordering.gt ↦ false | _ ↦ true ])
meets greater_than order = ok (elim order [ Ordering.gt ↦ true | _ ↦ false ])
meets greater_than_or_equal order = ok (elim order [ Ordering.lt ↦ false | _ ↦ true ])
meets (other_comparison n) order = err comparison_operator_required

abbrev pub truth : Result EvaluationFault Bool → Result EvaluationFault Value
truth (ok b) = ok (boolean_value b)
truth (err e) = err e

-- the value of a predicate, where a null is not true
unfoldable pub as_boolean : Value → Result EvaluationFault Bool
unfolding is_null
as_boolean (boolean_value b) = ok b
as_boolean v = if is_null v then ok false else err not_boolean

unfoldable pub null_test : NullPredicateOperator → Value → Result EvaluationFault Bool
unfolding is_null
null_test op_is_null v = ok (is_null v)
null_test op_is_not_null v = ok (not (is_null v))
null_test (other_null n) v = err null_operator_required

abbrev pub count_expressions : Expressions → ℕ
count_expressions no_more = 0
count_expressions (one e es) = suc (count_expressions es)

module _ (lib : Library) where
  -- the comparison of two values that are there
  unfoldable pub compare_operands :
      ComparisonOperator → Value → Value → Result EvaluationFault Value
  unfolding is_null compare_values meets
  compare_operands operator left right = elim (is_null left) [
    | true ↦ ok (boolean_value false)
    | false ↦ elim (is_null right) [
      | true ↦ ok (boolean_value false)
      | false ↦ of_comparison (compare_values lib.parse_number left right) >>= λ order.
          truth (meets operator order)
    ]
  ]

  -- The values of the argument on the rows, nulls left out; with DISTINCT those left out too whose key
  -- was seen.
  unfoldable pub collect :
      (EntityRow → Result EvaluationFault Value)
      → Bool
      → List Bytes
      → List EntityRow
      → Result EvaluationFault (List Value)
  unfolding is_null aggregate_values_key contains_key
  collect argument distinct seen [] = ok []
  collect argument distinct seen (row ∷ rows) = argument row >>= λ v. elim (is_null v) [
    | true ↦ collect argument distinct seen rows
    | false ↦ elim distinct [
      | false ↦ collect argument distinct seen rows >>= λ vs. ok (v ∷ vs)
      | true ↦ of_aggregate (aggregate_values_key lib (v ∷ [])) >>= λ key.
          elim (contains_key lib key seen) [
            | true ↦ collect argument distinct seen rows
            | false ↦ collect argument distinct (key ∷ seen) rows >>= λ vs. ok (v ∷ vs)
          ]
    ]
  ]

  -- evaluateAggregate, for the number of arguments and the evaluation of the first
  unfoldable pub evaluate_aggregate :
      AggregateFunction
      → Bool
      → ℕ
      → (EntityRow → Result EvaluationFault Value)
      → List EntityRow
      → Option TypeDescriptor
      → Result EvaluationFault Value
  unfolding collect aggregate_number_value of_values
  evaluate_aggregate count_star distinct arguments argument rows t =
      reject_if (not (nat_beq arguments 0) || distinct) (not_aggregated no_arguments_expected)
      >> of_aggregate (aggregate_number_value lib (of_int (pos (length rows))) t)
  evaluate_aggregate function distinct arguments argument rows t =
      reject_if (not (nat_beq arguments 1)) (not_aggregated one_argument_expected)
      >> collect argument distinct [] rows
      >>= λ vs. of_aggregate (of_values lib function vs t)

  unfoldable mutual
    unfolding field_value literal_value compare_operands as_boolean null_test evaluate_aggregate

    -- evaluateExpressionInContext
    pub evaluate : Expression → Context → Result EvaluationFault Value
    evaluate nil_expression c = err expression_required
    evaluate nil_field c = err field_name_required
    evaluate (field name) c = field_value c.row name
    evaluate nil_literal c = err literal_required
    evaluate (literal v t) c = literal_value v
    evaluate nil_comparison c = err comparison_required
    evaluate (comparison operator l r) c =
        evaluate l c >>= λ left. evaluate r c >>= λ right. compare_operands operator left right
    evaluate nil_logical c = err logical_required
    evaluate (logical op_and es) c =
        reject_if (ltb (count_expressions es) 2) two_operands_required >> truth (all_true es c)
    evaluate (logical op_or es) c =
        reject_if (ltb (count_expressions es) 2) two_operands_required >> truth (any_true es c)
    evaluate (logical op_not no_more) c = err one_operand_required
    evaluate (logical op_not (one e no_more)) c =
        evaluate e c >>= λ v. as_boolean v >>= λ b. ok (boolean_value (not b))
    evaluate (logical op_not (one e (one e' es))) c = err one_operand_required
    evaluate (logical (other_logical n) es) c = err logical_operator_required
    evaluate nil_null_predicate c = err null_predicate_required
    evaluate (null_predicate operator e) c = evaluate e c >>= λ v. truth (null_test operator v)
    evaluate nil_function_call c = err function_call_required
    evaluate (function_call name es) c = err function_not_supported
    evaluate nil_aggregate c = elim c.grouped [
      | true ↦ err aggregate_required
      | false ↦ err aggregate_in_row
    ]
    evaluate (aggregate function distinct es t) c = elim c.grouped [
      | true ↦
          evaluate_aggregate function distinct (count_expressions es) (first_argument es) c.rows t
      | false ↦ err aggregate_in_row
    ]
    evaluate no_kind c = err kind_required
    evaluate nil_pattern c = err kind_required
    evaluate (pattern v p) c = err kind_required

    all_true : Expressions → Context → Result EvaluationFault Bool
    all_true no_more c = ok true
    all_true (one e es) c = evaluate e c >>= λ v.
        as_boolean v >>= λ b. elim b [ true ↦ all_true es c | false ↦ ok false ]

    any_true : Expressions → Context → Result EvaluationFault Bool
    any_true no_more c = ok false
    any_true (one e es) c = evaluate e c >>= λ v.
        as_boolean v >>= λ b. elim b [ true ↦ ok true | false ↦ any_true es c ]

    first_argument : Expressions → EntityRow → Result EvaluationFault Value
    first_argument no_more row = err expression_required
    first_argument (one e es) row = evaluate e (row_context row)

  -- evaluateExpression
  unfoldable pub evaluate_expression : EntityRow → Expression → Result EvaluationFault Value
  unfolding evaluate
  evaluate_expression row e = evaluate e (row_context row)

  -- evaluateGroupedExpression
  unfoldable pub evaluate_grouped : List EntityRow → Expression → Result EvaluationFault Value
  unfolding evaluate
  evaluate_grouped rows e = evaluate e (group_context rows)

  -- evaluateFilter
  unfoldable pub evaluate_filter : EntityRow → Expression → Result EvaluationFault Bool
  unfolding evaluate_expression as_boolean
  evaluate_filter row nil_expression = ok true
  evaluate_filter row e = evaluate_expression row e >>= λ v. as_boolean v

  -- evaluateGroupedBooleanExpression
  unfoldable pub evaluate_having : List EntityRow → Expression → Result EvaluationFault Bool
  unfolding evaluate_grouped as_boolean
  evaluate_having rows e = evaluate_grouped rows e >>= λ v. as_boolean v
