-- ===== src/InMemory/Query.antt =====
-- Queries without aggregates (providers/inmemory/query.go), and what queries of both kinds share. The
-- clock's readings and the random draws for large objects are arguments.
pub mod Planned
pub mod Reordered
use Prim.Native.Nat.{Ordering}
use kubling_providers.Base.{
  ℕ, suc, ◌+◌, ◌-◌, Bool, true, false, not, ◌&&◌, List, [], ◌∷◌, Option, none, some, Bytes,
  bytes_beq, Result, ok, err, ◌>>=◌, ◌>>◌, reject_if, length, take, drop, ltb, leb, nat_beq,
  if◌then◌else◌, ◌==◌,
}
use kubling_providers.Messages.{ValueType, blob, clob, array, Field, EntityReference}
use kubling_providers.Server.Structure.Types.{type_eq}
use kubling_providers.Server.Features.{FeatureNames}
use kubling_providers.InMemory.Values.{
  Value, blob_value, clob_value, geometry_value, geography_value, geometry_with_crs,
  geography_with_crs,
}
use kubling_providers.InMemory.Numbers.{Rat}
use kubling_providers.InMemory.Model.{
  Refusal, invalid_argument, failed_precondition, Store, EntityRow, EntityDefinition,
  resolve_entity, snapshot,
}
use kubling_providers.InMemory.Expressions.{Expression, nil_expression}
use kubling_providers.InMemory.Evaluate.{
  EvaluationFault, expression_required, evaluate_expression, evaluate_filter,
}
use kubling_providers.InMemory.Evaluate.Aggregates.{Library}
use kubling_providers.InMemory.Ordering.{OrderBy, compare_rows}
use kubling_providers.InMemory.Compare.{CompareFault}
use kubling_providers.InMemory.Sort.{less_of, stable_sort}
use kubling_providers.InMemory.Plan.{Projection, PlannedProjection, plan_projections}
use kubling_providers.InMemory.Parse.{is_nil}
use kubling_providers.InMemory.Lobs.{Connection, context_error, lock_open, new_lob_value}

pub record QueryRequest : Type 0 where
  pub entity : Option EntityReference
  pub projections : List (Option Projection)
  pub filter : Expression
  pub order_by : List (Option OrderBy)
  pub group_by : List Expression
  pub having : Expression
  pub offset : Option ℕ
  pub limit : Option ℕ
  pub accepted_features : List Bytes
  pub batch_size : Option ℕ

-- a row that passed the filter, with the values to order it by
pub record PlannedRow : Type 0 where
  pub row : EntityRow
  pub order_values : List Value

-- every error of these parts is returned as an invalid argument
abbrev pub argument : {F A : Type 0} → Result F A → Result Refusal A
argument (ok a) = ok a
argument (err e) = err invalid_argument

unfoldable pub accepts : Bytes → List Bytes → Bool
accepts feature [] = false
accepts feature (f ∷ fs) = if bytes_beq f feature then true else accepts feature fs

-- the connection, and the readings of the clock with the draws of identifiers for the objects to come
abbrev pub Session : Type 0
Session = Connection × List (ℕ × List (Option Bytes))

-- nothing where the call does not return
abbrev pub Answer : Type 0 → Type 0
Answer A = Option (Result Refusal A × Session)

unfoldable pub new_lob : ValueType → Bytes → Session → Answer Value
unfolding new_lob_value
new_lob t bytes (c, []) = none
new_lob t bytes (c, (now, draws) ∷ later) = elim (new_lob_value now draws t bytes c) [
  | none ↦ none
  | some (answer, after) ↦ some (answer, (after, later))
]

abbrev pub or_empty : Option Bytes → Bytes
or_empty none = []
or_empty (some b) = b

abbrev sample_srid : ℕ
sample_srid = 4326

unfoldable pub with_crs : Value → Value
with_crs (geometry_value b) = geometry_with_crs (some (b, some sample_srid))
with_crs (geography_value b) = geography_with_crs (some (b, some sample_srid))
with_crs v = v

unfoldable pub spatial_output : FeatureNames → List Bytes → Value → Value
unfolding accepts with_crs
spatial_output features accepted v =
    if accepts features.spatial_values accepted then with_crs v else v

unfoldable pub lob_output : FeatureNames → List Bytes → Value → Session → Answer Value
unfolding new_lob spatial_output
lob_output features accepted (blob_value b) s = new_lob blob (or_empty b) s
lob_output features accepted (clob_value b) s = new_lob clob (or_empty b) s
lob_output features accepted v s = some (ok (spatial_output features accepted v), s)

-- outputValue
unfoldable pub output_value : FeatureNames → List Bytes → Value → Session → Answer Value
unfolding accepts lob_output spatial_output
output_value features accepted v s = elim (accepts features.lob_read accepted) [
  | true ↦ lob_output features accepted v s
  | false ↦ some (ok (spatial_output features accepted v), s)
]

-- The projections of a row or of a group, each evaluated and then put out.
unfoldable pub output_tuple :
    FeatureNames
    → List Bytes
    → (Expression → Result EvaluationFault Value)
    → List PlannedProjection
    → Session
    → Answer (List Value)
unfolding output_value
output_tuple features accepted evaluate [] s = some (ok [], s)
output_tuple features accepted evaluate (p ∷ ps) s = elim (evaluate p.expression) [
  | err e ↦ some (err invalid_argument, s)
  | ok v ↦ elim (output_value features accepted v s) [
    | none ↦ none
    | some (err e, s') ↦ some (err e, s')
    | some (ok w, s') ↦ elim (output_tuple features accepted evaluate ps s') [
      | none ↦ none
      | some (err e, s'') ↦ some (err e, s'')
      | some (ok ws, s'') ↦ some (ok (w ∷ ws), s'')
    ]
  ]
]

-- evaluateOrderValues; an ordering that is nil, or whose expression is, is refused.
unfoldable pub evaluate_order_values :
    (Expression → Result EvaluationFault Value)
    → List (Option OrderBy)
    → Result EvaluationFault (List Value)
evaluate_order_values evaluate [] = ok []
evaluate_order_values evaluate (none ∷ os) = err expression_required
evaluate_order_values evaluate (some o ∷ os) =
    reject_if (is_nil o.expression) expression_required >> evaluate o.expression >>= λ v.
    evaluate_order_values evaluate os >>= λ vs. ok (v ∷ vs)

unfoldable pub orderings : List (Option OrderBy) → List OrderBy
orderings [] = []
orderings (none ∷ os) = orderings os
orderings (some o ∷ os) = o ∷ orderings os

-- paginateRows and paginateAggregateRows
unfoldable pub paginate : {A : Type 0} → Option ℕ → Option ℕ → List A → List A
unfolding take drop
paginate offset limit rows =
    let start : ℕ = elim offset [ none ↦ 0 | some n ↦ n ] in
    if leb (length rows) start then [] else elim limit [
      | none ↦ drop start rows
      | some n ↦ if ltb n (length rows - start) then take n (drop start rows) else drop start rows
    ]

abbrev pub default_batch_size : ℕ
default_batch_size = 100

unfoldable pub query_batch_size : Option ℕ → ℕ
query_batch_size none = default_batch_size
query_batch_size (some n) = if nat_beq n 0 then default_batch_size else n

pub record ResultStream : Type 0 where
  pub fields : List Field
  pub tuples : List (List Value)
  pub batch_size : ℕ
  pub index : ℕ
  pub closed : Bool

-- newResultStream
abbrev pub new_result_stream : List Field → List (List Value) → ℕ → ResultStream
new_result_stream fields tuples batch_size = record {
  fields = fields;
  tuples = tuples;
  batch_size = batch_size;
  index = 0;
  closed = false;
}

unfoldable pub field_list : List PlannedProjection → List Field
field_list [] = []
field_list (p ∷ ps) = p.field ∷ field_list ps

-- an array among the projections, for a client that does not accept arrays
unfoldable pub has_array : List PlannedProjection → Bool
has_array [] = false
has_array (p ∷ ps) = if p.field.field_type == array then true else has_array ps

module _ (lib : Library) where
  -- The rows that pass the filter, with their order values; the context is asked before each row.
  unfoldable pub plan_rows :
      (ℕ → Option ℕ)
      → Expression
      → List (Option OrderBy)
      → List EntityRow
      → Result Refusal (List PlannedRow)
  unfolding evaluate_filter evaluate_order_values evaluate_expression
  plan_rows context filter order_by [] = ok []
  plan_rows context filter order_by (row ∷ rows) =
      context_error (context 0) >> argument (evaluate_filter lib row filter) >>= λ matches.
      elim matches [
        | false ↦ plan_rows (λ n. context (suc n)) filter order_by rows
        | true ↦
            argument (evaluate_order_values (evaluate_expression lib row) order_by) >>= λ values.
            plan_rows (λ n. context (suc n)) filter order_by rows >>= λ planned.
            ok (record { row = row; order_values = values } ∷ planned)
      ]

  abbrev pub compare_planned : List OrderBy → PlannedRow → PlannedRow → Result CompareFault Ordering
  compare_planned os l r =
      compare_rows lib.parse_number os (l.order_values, l.row.key) (r.order_values, r.row.key)

  -- sortPlannedRows
  unfoldable pub sort_planned_rows :
      List OrderBy → List PlannedRow → Result CompareFault (List PlannedRow)
  unfolding stable_sort compare_rows
  sort_planned_rows os rows = stable_sort (less_of (compare_planned os)) rows

  -- The rows of the result: planned, sorted and cut.
  unfoldable pub select_rows :
      (ℕ → Option ℕ) → QueryRequest → List EntityRow → Result Refusal (List PlannedRow)
  unfolding plan_rows sort_planned_rows orderings paginate
  select_rows context request rows =
      plan_rows context request.filter request.order_by rows >>= λ planned.
      argument (sort_planned_rows (orderings request.order_by) planned) >>= λ sorted.
      ok (paginate request.offset request.limit sorted)

  unfoldable pub output_rows :
      FeatureNames
      → List Bytes
      → List PlannedProjection
      → List PlannedRow
      → Session
      → Answer (List (List Value))
  unfolding output_tuple evaluate_expression
  output_rows features accepted projections [] s = some (ok [], s)
  output_rows features accepted projections (r ∷ rs) s =
      elim (output_tuple features accepted (evaluate_expression lib r.row) projections s) [
        | none ↦ none
        | some (err e, s') ↦ some (err e, s')
        | some (ok vs, s') ↦ elim (output_rows features accepted projections rs s') [
          | none ↦ none
          | some (err e, s'') ↦ some (err e, s'')
          | some (ok tuples, s'') ↦ some (ok (vs ∷ tuples), s'')
        ]
      ]

  -- a query without aggregates, once its projections are planned
  unfoldable pub query_rows :
      FeatureNames
      → (ℕ → Option ℕ)
      → QueryRequest
      → List PlannedProjection
      → List EntityRow
      → Session
      → Answer ResultStream
  unfolding select_rows output_rows field_list query_batch_size
  query_rows features context request projections rows s = elim (select_rows context request rows) [
    | err e ↦ some (err e, s)
    | ok selected ↦ elim (output_rows features request.accepted_features projections selected s) [
      | none ↦ none
      | some (err e, s') ↦ some (err e, s')
      | some (ok tuples, s') ↦ some (
        ok (
            new_result_stream (field_list projections) tuples
              (query_batch_size request.batch_size)),
        s',
      )
    ]
  ]

-- the start of Query: the entity, and its planned projections
unfoldable pub prepare_query :
    FeatureNames → Bool → QueryRequest → Result Refusal (EntityDefinition × List PlannedProjection)
unfolding resolve_entity plan_projections accepts has_array
prepare_query features closed request =
    lock_open closed >> resolve_entity request.entity >>= λ entity.
    argument (plan_projections entity.fields request.projections) >>= λ projections.
    reject_if
      (not (accepts features.array_values request.accepted_features) && has_array projections)
      failed_precondition
    >> ok (entity, projections)
