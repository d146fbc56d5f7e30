-- ===== src/Server/Expressions.antt =====
-- The values in the expressions of a request (sdk-go/provider/value_structure.go).
pub mod Literals
use kubling_providers.Base.{
  ℕ, zero, suc, List, [], ◌∷◌, Option, none, some, Bool, true, false, not, nat_beq, Result, ok, err,
  ◌>>=◌, ◌>>◌, reject_if,
}
use kubling_providers.Messages.{Value, nil_value, TypeDescriptor}
use kubling_providers.Server.Structure.{StructureFault, validate_value, validate_type_descriptor}

pub data AggregateFunction : Type 0 where
  function_unspecified count_star : AggregateFunction
  other_function unknown_function : ℕ → AggregateFunction

-- An expression, which may be nil. `plain_kind` is a kind that holds no expression, or none at all; a
-- kind whose message is nil has a constructor of its own where the code tells it apart.
mutual
  pub data Expression : Type 0 where
    nil_expression plain_kind nil_literal nil_aggregate nil_kind : Expression
    literal : Value → Option TypeDescriptor → Expression
    comparison pattern : Expression → Expression → Expression
    logical function_call : Expressions → Expression
    null_predicate : Expression → Expression
    aggregate : AggregateFunction → Bool → Expressions → Option TypeDescriptor → Expression

  pub data Expressions : Type 0 where
    no_more : Expressions
    one : Expression → Expressions → Expressions

pub data ExpressionFault : Type 0 where
  value_fault : StructureFault → ExpressionFault
  literal_nil aggregate_nil function_is_unspecified function_is_unknown : ExpressionFault
  arguments_refused distinct_refused one_argument_required : ExpressionFault

abbrev pub of_value : Result StructureFault (Unit {0}) → Result ExpressionFault (Unit {0})
of_value (ok u) = ok u
of_value (err e) = err (value_fault e)

abbrev pub count_expressions : Expressions → ℕ
count_expressions no_more = 0
count_expressions (one e es) = suc (count_expressions es)

-- the function of an aggregate, and the number of its arguments
unfoldable pub check_aggregate : AggregateFunction → Bool → ℕ → Result ExpressionFault (Unit {0})
check_aggregate function_unspecified distinct arguments = err function_is_unspecified
check_aggregate (unknown_function n) distinct arguments = err function_is_unknown
check_aggregate count_star distinct arguments =
    reject_if (not (nat_beq arguments 0)) arguments_refused >> reject_if distinct distinct_refused
check_aggregate (other_function n) distinct arguments =
    reject_if (not (nat_beq arguments 1)) one_argument_required

unfoldable mutual
  unfolding check_aggregate

  pub validate_expression_values : Expression → Result ExpressionFault (Unit {0})
  validate_expression_values nil_expression = ok tt
  validate_expression_values plain_kind = ok tt
  validate_expression_values nil_kind = ok tt
  validate_expression_values nil_literal = err literal_nil
  validate_expression_values nil_aggregate = err aggregate_nil
  validate_expression_values (literal v d) = of_value (validate_value v d)
  validate_expression_values (comparison l r) =
      validate_expression_values l >> validate_expression_values r
  validate_expression_values (pattern v p) =
      validate_expression_values v >> validate_expression_values p
  validate_expression_values (logical es) = validate_all es
  validate_expression_values (function_call es) = validate_all es
  validate_expression_values (null_predicate e) = validate_expression_values e
  validate_expression_values (aggregate f distinct es d) =
      check_aggregate f distinct (count_expressions es)
      >> validate_all es
      >> of_value (validate_type_descriptor d)

  pub validate_all : Expressions → Result ExpressionFault (Unit {0})
  validate_all no_more = ok tt
  validate_all (one e es) = validate_expression_values e >> validate_all es

-- The expressions of a query request; a nil projection or order is passed over.
pub record QueryExpressions : Type 0 where
  pub projections : List (Option Expression)
  pub filter : Expression
  pub order_by : List (Option Expression)
  pub group_by : List Expression
  pub having : Expression

unfoldable pub validate_listed : List (Option Expression) → Result ExpressionFault (Unit {0})
unfolding validate_expression_values validate_all
validate_listed [] = ok tt
validate_listed (none ∷ es) = validate_listed es
validate_listed (some e ∷ es) = validate_expression_values e >> validate_listed es

unfoldable pub validate_groups : List Expression → Result ExpressionFault (Unit {0})
unfolding validate_expression_values validate_all
validate_groups [] = ok tt
validate_groups (e ∷ es) = validate_expression_values e >> validate_groups es

unfoldable pub validate_query_request_values : QueryExpressions → Result ExpressionFault (Unit {0})
unfolding validate_expression_values validate_all validate_listed validate_groups
validate_query_request_values request =
    validate_listed request.projections
    >> validate_expression_values request.filter
    >> validate_listed request.order_by
    >> validate_groups request.group_by
    >> validate_expression_values request.having
