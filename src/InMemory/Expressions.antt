-- ===== src/InMemory/Expressions.antt =====
-- The expressions of a request (the messages of sdk-go/kubling/provider/v1 that the provider evaluates). A
-- message that is nil has a constructor of its own.
use kubling_providers.Base.{ℕ, Bool, Option, Bytes}
use kubling_providers.Messages.{TypeDescriptor}
use kubling_providers.InMemory.Values.{Value}

pub data ComparisonOperator : Type 0 where
  equal not_equal less_than less_than_or_equal : ComparisonOperator
  greater_than greater_than_or_equal : ComparisonOperator
  other_comparison : ℕ → ComparisonOperator

pub data LogicalOperator : Type 0 where
  op_and op_or op_not : LogicalOperator
  other_logical : ℕ → LogicalOperator

pub data NullPredicateOperator : Type 0 where
  op_is_null op_is_not_null : NullPredicateOperator
  other_null : ℕ → NullPredicateOperator

pub data AggregateFunction : Type 0 where
  count_star count count_big min max sum avg : AggregateFunction
  other_function : ℕ → AggregateFunction

mutual
  pub data Expression : Type 0 where
    nil_expression no_kind nil_field nil_literal nil_comparison nil_logical : Expression
    nil_null_predicate nil_pattern nil_function_call nil_aggregate : Expression
    field : Bytes → Expression
    literal : Value → Option TypeDescriptor → Expression
    comparison : ComparisonOperator → Expression → Expression → Expression
    logical : LogicalOperator → Expressions → Expression
    null_predicate : NullPredicateOperator → Expression → Expression
    pattern : Expression → Expression → Expression
    function_call : Bytes → Expressions → Expression
    aggregate : AggregateFunction → Bool → Expressions → Option TypeDescriptor → Expression

  pub data Expressions : Type 0 where
    no_more : Expressions
    one : Expression → Expressions → Expressions
