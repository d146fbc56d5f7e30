-- ===== src/InMemory/Validate.antt =====
-- Which queries are aggregate queries, and the checks of their expressions (aggregateQuery, containsAggregate and
-- validateGroupedExpression, providers/inmemory/aggregate.go). `equal` is the equality of messages, proto.Equal.
use kubling_providers.Base.{
  Bool, true, false, not, ◌||◌, List, [], ◌∷◌, Option, none, some, bytes_eq, Result, ok, err, ◌>>◌,
  reject_if, if◌then◌else◌,
}
use kubling_providers.InMemory.Expressions.{
  Expression, nil_expression, no_kind, nil_field, nil_literal, nil_comparison, nil_logical,
  nil_null_predicate, nil_pattern, nil_function_call, nil_aggregate, field, literal, comparison,
  logical, null_predicate, pattern, function_call, aggregate, Expressions, no_more, one,
}
use kubling_providers.InMemory.Ordering.{OrderBy}
use kubling_providers.InMemory.Plan.{Projection, PlannedProjection}
use kubling_providers.InMemory.Parse.{is_nil}
use kubling_providers.InMemory.Query.{QueryRequest}

pub data GroupFault : Type 0 where
  field_not_grouped nested_aggregates aggregate_required comparison_required : GroupFault
  logical_required null_predicate_required function_call_required pattern_required : GroupFault
  kind_required : GroupFault

unfoldable mutual
  -- containsAggregate
  pub contains_aggregate : Expression → Bool
  contains_aggregate (aggregate function distinct es t) = true
  contains_aggregate (comparison operator l r) = contains_aggregate l || contains_aggregate r
  contains_aggregate (logical operator es) = any_aggregate es
  contains_aggregate (null_predicate operator e) = contains_aggregate e
  contains_aggregate (pattern v p) = contains_aggregate v || contains_aggregate p
  contains_aggregate (function_call name es) = any_aggregate es
  contains_aggregate _ = false

  any_aggregate : Expressions → Bool
  any_aggregate no_more = false
  any_aggregate (one e es) = contains_aggregate e || any_aggregate es

unfoldable pub any_projection : List (Option Projection) → Bool
unfolding contains_aggregate
any_projection [] = false
any_projection (none ∷ ps) = any_projection ps
any_projection (some p ∷ ps) = contains_aggregate p.expression || any_projection ps

unfoldable pub any_ordering : List (Option OrderBy) → Bool
unfolding contains_aggregate
any_ordering [] = false
any_ordering (none ∷ os) = any_ordering os
any_ordering (some o ∷ os) = contains_aggregate o.expression || any_ordering os

abbrev pub has_any : {A : Type 0} → List A → Bool
has_any [] = false
has_any (x ∷ xs) = true

-- aggregateQuery
unfoldable pub aggregate_query : QueryRequest → Bool
unfolding any_projection any_ordering
aggregate_query request =
    (has_any request.group_by || not (is_nil request.having))
    || (any_projection request.projections || any_ordering request.order_by)

unfoldable pub is_group : (Expression → Expression → Bool) → List Expression → Expression → Bool
is_group equal [] e = false
is_group equal (g ∷ gs) e = if equal g e then true else is_group equal gs e

-- an expression of the group is not looked into, outside of an aggregate
abbrev pub unless_grouped :
    Bool → Bool → Result GroupFault (Unit {0}) → Result GroupFault (Unit {0})
unless_grouped true false rest = ok tt
unless_grouped _ _ rest = rest

module _ (equal : Expression → Expression → Bool) (groups : List Expression) where
  unfoldable mutual
    unfolding is_group

    -- validateGroupedExpression; `inside` tells that the expression stands in an aggregate.
    pub validate_grouped : Bool → Expression → Result GroupFault (Unit {0})
    validate_grouped inside nil_expression = ok tt
    validate_grouped inside (field name) =
        unless_grouped (is_group equal groups (field name)) inside
          (reject_if (not inside) field_not_grouped)
    validate_grouped inside nil_field =
        unless_grouped (is_group equal groups nil_field) inside
          (reject_if (not inside) field_not_grouped)
    validate_grouped inside (literal v t) = ok tt
    validate_grouped inside nil_literal = ok tt
    validate_grouped inside (aggregate function distinct es t) =
        unless_grouped (is_group equal groups (aggregate function distinct es t)) inside
          (reject_if inside nested_aggregates >> validate_each true es)
    validate_grouped inside nil_aggregate =
        unless_grouped (is_group equal groups nil_aggregate) inside
          (reject_if inside nested_aggregates >> err aggregate_required)
    validate_grouped inside (comparison operator l r) =
        unless_grouped (is_group equal groups (comparison operator l r)) inside
          (validate_grouped inside l >> validate_grouped inside r)
    validate_grouped inside nil_comparison =
        unless_grouped (is_group equal groups nil_comparison) inside (err comparison_required)
    validate_grouped inside (logical operator es) =
        unless_grouped (is_group equal groups (logical operator es)) inside
          (validate_each inside es)
    validate_grouped inside nil_logical =
        unless_grouped (is_group equal groups nil_logical) inside (err logical_required)
    validate_grouped inside (null_predicate operator e) =
        unless_grouped (is_group equal groups (null_predicate operator e)) inside
          (validate_grouped inside e)
    validate_grouped inside nil_null_predicate =
        unless_grouped (is_group equal groups nil_null_predicate) inside
          (err null_predicate_required)
    validate_grouped inside (function_call name es) =
        unless_grouped (is_group equal groups (function_call name es)) inside
          (validate_each inside es)
    validate_grouped inside nil_function_call =
        unless_grouped (is_group equal groups nil_function_call) inside (err function_call_required)
    validate_grouped inside (pattern v p) =
        unless_grouped (is_group equal groups (pattern v p)) inside
          (validate_grouped inside v >> validate_grouped inside p)
    validate_grouped inside nil_pattern =
        unless_grouped (is_group equal groups nil_pattern) inside (err pattern_required)
    validate_grouped inside no_kind =
        unless_grouped (is_group equal groups no_kind) inside (err kind_required)

    validate_each : Bool → Expressions → Result GroupFault (Unit {0})
    validate_each inside no_more = ok tt
    validate_each inside (one e es) = validate_grouped inside e >> validate_each inside es

  unfoldable pub validate_projections : List PlannedProjection → Result GroupFault (Unit {0})
  unfolding validate_grouped
  validate_projections [] = ok tt
  validate_projections (p ∷ ps) = validate_grouped false p.expression >> validate_projections ps

  unfoldable pub validate_orderings : List (Option OrderBy) → Result GroupFault (Unit {0})
  unfolding validate_grouped
  validate_orderings [] = ok tt
  validate_orderings (none ∷ os) = err kind_required
  validate_orderings (some o ∷ os) = validate_grouped false o.expression >> validate_orderings os

-- no expression to group by is nil or has an aggregate
unfoldable pub check_group_by : List Expression → Result GroupFault (Unit {0})
unfolding contains_aggregate
check_group_by [] = ok tt
check_group_by (e ∷ es) =
    reject_if (is_nil e) kind_required
    >> reject_if (contains_aggregate e) nested_aggregates
    >> check_group_by es
