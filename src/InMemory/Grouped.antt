-- ===== src/InMemory/Grouped.antt =====
-- Queries with aggregates (providers/inmemory/aggregate.go), and Query as a whole
-- (providers/inmemory/query.go). `equal` is the equality of messages, proto.Equal.
pub mod Joined
pub mod Partition
use Prim.Native.Nat.{Ordering}
use kubling_providers.Base.{
  ℕ, suc, Bool, true, false, not, ◌&&◌, ◌||◌, List, [], ◌∷◌, ◌++◌, Option, none, some, Bytes,
  bytes_beq, bytes_eq, Result, ok, err, ◌>>=◌, ◌>>◌, reject_if, if◌then◌else◌,
}
use kubling_providers.Server.Features.{FeatureNames}
use kubling_providers.InMemory.Values.{Value}
use kubling_providers.InMemory.Model.{Refusal, invalid_argument, EntityRow, Store, snapshot}
use kubling_providers.InMemory.Numbers.{compare_bytes}
use kubling_providers.InMemory.Expressions.{
  Expression, nil_expression, no_kind, nil_field, nil_literal, nil_comparison, nil_logical,
  nil_null_predicate, nil_pattern, nil_function_call, nil_aggregate, field, literal, comparison,
  logical, null_predicate, pattern, function_call, aggregate, Expressions, no_more, one,
}
use kubling_providers.InMemory.Evaluate.{
  EvaluationFault, of_aggregate, evaluate_expression, evaluate_grouped, evaluate_filter,
  evaluate_having,
}
use kubling_providers.InMemory.Evaluate.Aggregates.{Library, AggregateFault, aggregate_values_key}
use kubling_providers.InMemory.Compare.{CompareFault}
use kubling_providers.InMemory.Ordering.{OrderBy, compare_rows}
use kubling_providers.InMemory.Sort.{less_of, stable_sort}
use kubling_providers.InMemory.Plan.{Projection, PlannedProjection}
use kubling_providers.InMemory.Parse.{is_nil}
use kubling_providers.InMemory.Lobs.{Connection, context_error}
use kubling_providers.InMemory.Query.{
  QueryRequest, Session, Answer, ResultStream, argument, output_tuple, orderings, paginate,
  query_batch_size, new_result_stream, field_list, query_rows, prepare_query,
}
use kubling_providers.InMemory.Validate.{
  contains_aggregate, has_any, aggregate_query, validate_grouped, validate_projections,
  validate_orderings, check_group_by,
}

pub record Group : Type 0 where
  pub key : Bytes
  pub rows : List EntityRow

-- The row joins the group of its key, or a new one after the others.
unfoldable pub add_to_group : Bytes → EntityRow → List Group → List Group
add_to_group key row [] = record { key = key; rows = row ∷ [] } ∷ []
add_to_group key row (g ∷ gs) =
    let rest = add_to_group key row gs in
    if bytes_beq g.key key then record g { rows = g.rows ++ row ∷ [] } ∷ gs else g ∷ rest

pub record PlannedGroup : Type 0 where
  pub key : Bytes
  pub values : List Value
  pub order_values : List Value

module _ (lib : Library) where
  unfoldable pub group_values : EntityRow → List Expression → Result EvaluationFault (List Value)
  unfolding evaluate_expression
  group_values row [] = ok []
  group_values row (e ∷ es) =
      evaluate_expression lib row e >>= λ v. group_values row es >>= λ vs. ok (v ∷ vs)

  unfoldable pub collect_groups :
      List Expression → List Group → List EntityRow → Result EvaluationFault (List Group)
  unfolding group_values aggregate_values_key add_to_group
  collect_groups expressions groups [] = ok groups
  collect_groups expressions groups (row ∷ rows) = group_values row expressions >>= λ values.
      of_aggregate (aggregate_values_key lib values) >>= λ key.
      collect_groups expressions (add_to_group key row groups) rows

  -- `sort.Slice` by the keys, which are all different
  unfoldable pub sort_groups : List Group → Result CompareFault (List Group)
  unfolding stable_sort compare_bytes
  sort_groups groups = stable_sort (less_of (λ g h. ok (compare_bytes g.key h.key))) groups

  -- groupAggregateRows
  unfoldable pub group_aggregate_rows :
      List Expression → List EntityRow → Result Refusal (List Group)
  unfolding collect_groups sort_groups
  group_aggregate_rows [] rows = ok (record { key = []; rows = rows } ∷ [])
  group_aggregate_rows (e ∷ es) rows =
      argument (collect_groups (e ∷ es) [] rows) >>= λ groups. argument (sort_groups groups)

  -- the rows that pass the filter
  unfoldable pub filter_rows :
      (ℕ → Option ℕ) → Expression → List EntityRow → Result Refusal (List EntityRow)
  unfolding evaluate_filter
  filter_rows context filter [] = ok []
  filter_rows context filter (row ∷ rows) =
      context_error (context 0) >> argument (evaluate_filter lib row filter) >>= λ matches.
      elim matches [
        | false ↦ filter_rows (λ n. context (suc n)) filter rows
        | true ↦ filter_rows (λ n. context (suc n)) filter rows >>= λ rest. ok (row ∷ rest)
      ]

  unfoldable pub group_order_values :
      List EntityRow → List OrderBy → Result EvaluationFault (List Value)
  unfolding evaluate_grouped
  group_order_values rows [] = ok []
  group_order_values rows (o ∷ os) = evaluate_grouped lib rows o.expression >>= λ v.
      group_order_values rows os >>= λ vs. ok (v ∷ vs)

  -- whether the group has its place in the result
  unfoldable pub passes_having : Expression → List EntityRow → Result EvaluationFault Bool
  unfolding evaluate_having
  passes_having nil_expression rows = ok true
  passes_having e rows = evaluate_having lib rows e

  -- The groups of the result, with their values put out; the context is asked before each group.
  unfoldable pub plan_groups :
      FeatureNames
      → (ℕ → Option ℕ)
      → QueryRequest
      → List PlannedProjection
      → List Group
      → Session
      → Answer (List PlannedGroup)
  unfolding passes_having output_tuple evaluate_grouped group_order_values orderings
  plan_groups features context request projections [] s = some (ok [], s)
  plan_groups features context request projections (g ∷ gs) s =
      elim (context_error (context 0) >> argument (passes_having request.having g.rows)) [
        | err e ↦ some (err e, s)
        | ok false ↦ plan_groups features (λ n. context (suc n)) request projections gs s
        | ok true ↦
            elim (output_tuple features request.accepted_features (evaluate_grouped lib g.rows)
              projections s) [
                | none ↦ none
                | some (err e, s') ↦ some (err e, s')
                | some (ok values, s') ↦
                    elim (group_order_values g.rows (orderings request.order_by)) [
                      | err e ↦ some (err invalid_argument, s')
                      | ok order_values ↦
                          elim (plan_groups features (λ n. context (suc n)) request projections gs
                            s') [
                              | none ↦ none
                              | some (err e, s'') ↦ some (err e, s'')
                              | some (ok planned, s'') ↦ some (
                                ok (
                                    record {
                                      key = g.key;
                                      values = values;
                                      order_values = order_values;
                                    }
                                    ∷ planned),
                                s'',
                              )
                            ]
                    ]
              ]
      ]

  -- sortAggregateRows
  unfoldable pub sort_aggregate_rows :
      List OrderBy → List PlannedGroup → Result CompareFault (List PlannedGroup)
  unfolding stable_sort compare_rows
  sort_aggregate_rows os groups =
      stable_sort
        (less_of
          (λ l r. compare_rows lib.parse_number os (l.order_values, l.key) (r.order_values, r.key)))
        groups

  unfoldable pub tuples_of : List PlannedGroup → List (List Value)
  tuples_of [] = []
  tuples_of (g ∷ gs) = g.values ∷ tuples_of gs

  -- the checks of an aggregate query, and its groups
  unfoldable pub prepare_groups :
      (Expression → Expression → Bool)
      → (ℕ → Option ℕ)
      → QueryRequest
      → List PlannedProjection
      → List EntityRow
      → Result Refusal (List Group)
  unfolding contains_aggregate check_group_by validate_projections validate_grouped
      validate_orderings filter_rows group_aggregate_rows
  prepare_groups equal context request projections rows =
      reject_if (not (has_any request.projections)) invalid_argument
      >> reject_if (contains_aggregate request.filter) invalid_argument
      >> argument (check_group_by request.group_by)
      >> argument (validate_projections equal request.group_by projections)
      >> argument (validate_grouped equal request.group_by false request.having)
      >> argument (validate_orderings equal request.group_by request.order_by)
      >> filter_rows context request.filter rows
      >>= λ filtered. group_aggregate_rows request.group_by filtered

  -- queryAggregates; the context's second argument is for the groups.
  unfoldable pub query_aggregates :
      FeatureNames
      → (Expression → Expression → Bool)
      → (ℕ → Option ℕ)
      → (ℕ → Option ℕ)
      → QueryRequest
      → List PlannedProjection
      → List EntityRow
      → Session
      → Answer ResultStream
  unfolding prepare_groups plan_groups sort_aggregate_rows paginate field_list query_batch_size
      tuples_of
  query_aggregates features equal context later request projections rows s =
      elim (prepare_groups equal context request projections rows) [
        | err e ↦ some (err e, s)
        | ok groups ↦ elim (plan_groups features later request projections groups s) [
          | none ↦ none
          | some (err e, s') ↦ some (err e, s')
          | some (ok planned, s') ↦
              elim (sort_aggregate_rows (orderings request.order_by) planned) [
                | err e ↦ some (err invalid_argument, s')
                | ok sorted ↦ some (
                  ok (
                      new_result_stream (field_list projections)
                        (tuples_of (paginate request.offset request.limit sorted))
                        (query_batch_size request.batch_size)),
                  s',
                )
              ]
        ]
      ]

  -- Query; `context` tells of the context's error before each row, and `later` before each group.
  unfoldable pub query :
      FeatureNames
      → (Expression → Expression → Bool)
      → (ℕ → Option ℕ)
      → (ℕ → Option ℕ)
      → Store
      → QueryRequest
      → Session
      → Answer ResultStream
  unfolding prepare_query aggregate_query query_aggregates query_rows snapshot
  query features equal context later store request s =
      elim (prepare_query features s.0.closed request) [
        | err e ↦ some (err e, s)
        | ok (entity, projections) ↦ elim (aggregate_query request) [
          | true ↦
              query_aggregates features equal context later request projections
                (snapshot store entity) s
          | false ↦ query_rows lib features context request projections (snapshot store entity) s
        ]
      ]
