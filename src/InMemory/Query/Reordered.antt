-- ===== src/InMemory/Query/Reordered.antt =====
-- The rows of a query do not depend on the order in which Go ranges over the map of tasks
-- (providers/inmemory/query.go Query, model.go snapshot).
use kubling_providers.Base.{
  ◌≡◌, refl, sym, ◌∙◌, subst, ap, ℕ, Bool, false, List, [], ◌∷◌, Option, none, some, Bytes, Map,
  lookup, IsMap, same_key, eq_self, ◌==◌, some_injective, In, All-lookup, Result, ok, ◌>>=◌,
  bind_ok, bytes_eq, Result-cases, Bool-cases, arith, inl, inr,
}
use kubling_providers.Server.Features.{FeatureNames}
use kubling_providers.InMemory.Values.{Value}
use kubling_providers.InMemory.Model.{
  Refusal, Task, EntityRow, Store, EntityDefinition, snapshot, equal_name, task_entity_name,
  task_row, task_rows,
}
use kubling_providers.InMemory.Expressions.{Expression}
use kubling_providers.InMemory.Evaluate.Aggregates.{Library}
use kubling_providers.InMemory.Compare.Keys.{IsComparison}
use kubling_providers.InMemory.Ordering.{OrderBy}
use kubling_providers.InMemory.Ordering.Laws.{compare_rows-IsComparison, row_tie}
use kubling_providers.InMemory.Mutation.Stored.{IsStored, Keyed}
use kubling_providers.InMemory.Plan.{PlannedProjection}
use kubling_providers.InMemory.Grouped.{query}
use kubling_providers.InMemory.Validate.{aggregate_query}
use kubling_providers.InMemory.Query.{
  QueryRequest, PlannedRow, argument, Session, orderings, paginate, plan_rows, compare_planned,
  sort_planned_rows, select_rows, query_rows, ResultStream, prepare_query,
}
use kubling_providers.InMemory.Sort.Sorted.{Sub, Distinct, stable_sort_same}
use kubling_providers.InMemory.Query.Planned.{
  Separate, row_key, planned_key, Different-of_keys, argument_ok, Sub-planned, plan_rows-Plans,
  plan_rows_ok,
}

module _ (lib : Library) where
  compare_planned-IsComparison : (os : List OrderBy) → IsComparison (compare_planned lib os)
  compare_planned-IsComparison os =
      let law = compare_rows-IsComparison lib.parse_number os in
      let pair : PlannedRow → List Value × Bytes = λ p. (p.order_values, p.row.key) in
      record {
        flips = λ a b o h. law.flips (pair a) (pair b) o h;
        lt_trans = λ a b c h k. law.lt_trans (pair a) (pair b) (pair c) h k;
        eq_left = λ a b c o h k. law.eq_left (pair a) (pair b) (pair c) o h k;
      }

  Distinct-of_keys :
      (os : List OrderBy) (planned : List PlannedRow)
      → Separate planned_key planned
      → Distinct (compare_planned lib os) planned
  Distinct-of_keys os [] h = tt
  Distinct-of_keys os (p ∷ ps) h = (
    λ z e tie.
        h.0 z e
          (row_tie lib.parse_number os (z.order_values, z.row.key) (p.order_values, p.row.key) tie),
    Distinct-of_keys os ps h.1,
  )

  -- The rows of a query do not depend on the order in which they were read.
  select_rows_same :
      (request : QueryRequest) (rows rows' : List EntityRow) (selected : List PlannedRow)
      → Separate row_key rows
      → Separate row_key rows'
      → Sub rows rows'
      → Sub rows' rows
      → select_rows lib (λ n. none) request rows ≡ ok selected
      → select_rows lib (λ n. none) request rows' ≡ ok selected
  unfolding select_rows sort_planned_rows
  select_rows_same request rows rows' selected a a' s t h =
      let os = orderings request.order_by in
      let planning = plan_rows lib (λ n. none) request.filter request.order_by in
      let finish : List PlannedRow → Result Refusal (List PlannedRow) = λ planned.
        argument (sort_planned_rows lib os planned) >>= λ sorted.
        ok (paginate request.offset request.limit sorted) in
      let cut : List PlannedRow → Result Refusal (List PlannedRow) =
        λ sorted. ok (paginate request.offset request.limit sorted) in
      let (planned, done, rest) = (bind_ok (planning rows) finish selected).0 h in
      let (sorted, given, last) =
        (bind_ok (argument (sort_planned_rows lib os planned)) cut selected).0 rest in
      let g = plan_rows-Plans lib request.filter request.order_by rows planned done in
      let (planned', done') =
        plan_rows_ok lib request.filter request.order_by rows' (λ r i. g.decides r (t r i)) in
      let g' = plan_rows-Plans lib request.filter request.order_by rows' planned' done' in
      let same : sort_planned_rows lib os planned' ≡ ok sorted =
        stable_sort_same (compare_planned lib os) (compare_planned-IsComparison os) planned planned'
          sorted (Distinct-of_keys os planned (g.apart a))
          (Distinct-of_keys os planned' (g'.apart a'))
          (Different-of_keys planned_key planned' (g'.apart a'))
          (Sub-planned lib request.filter request.order_by rows rows' planned planned' s g g')
          (Sub-planned lib request.filter request.order_by rows' rows planned' planned t g' g)
          (argument_ok (sort_planned_rows lib os planned) sorted given) in
      rw done' (rw same last)

none-some : (o : Option Task) (u : Task) → o ≡ none → o ≡ some u → ⊥
none-some o u p q = cc

In-task_rows :
    (r : EntityRow) (tasks : Map Bytes Task)
    → IsMap tasks
    → In r (task_rows tasks)
    → (k : Bytes) × (t : Task) × (lookup k tasks ≡ some t) × (task_row t ≡ r)
unfolding task_rows lookup
In-task_rows r [] m i = absurd i
In-task_rows r ((k, t) ∷ tasks) m (inl e) = (k, t, rw (eq_self k) refl, e)
In-task_rows r ((k, t) ∷ tasks) m (inr i) =
    let (j, u, found, made) = In-task_rows r tasks m.1 i in
    elim (Bool-cases (k == j)) [
      | inl hit ↦ absurd (none-some (lookup k tasks) u m.0 (rw (same_key k j hit) found))
      | inr miss ↦ (j, u, rw miss found, made)
    ]

In-of_lookup :
    (k : Bytes) (t : Task) (tasks : Map Bytes Task)
    → lookup k tasks ≡ some t
    → In (task_row t) (task_rows tasks)
unfolding task_rows lookup
In-of_lookup k t [] h = absurd (cc)
In-of_lookup k t ((j, u) ∷ tasks) h = elim (Bool-cases (j == k)) [
  | inl hit ↦ inl (ap task_row (some_injective u t (rw hit at h)))
  | inr miss ↦ inr (In-of_lookup k t tasks (rw miss at h))
]

Sub-task_rows :
    (tasks tasks' : Map Bytes Task)
    → IsMap tasks
    → ((k : Bytes) → lookup k tasks ≡ lookup k tasks')
    → Sub (task_rows tasks) (task_rows tasks')
Sub-task_rows tasks tasks' m e r i =
    let (k, t, found, made) = In-task_rows r tasks m i in
    subst (λ z. In z (task_rows tasks')) made (In-of_lookup k t tasks' (sym (e k) ∙ found))

Separate-task_rows : (tasks : Map Bytes Task) → IsStored tasks → Separate row_key (task_rows tasks)
unfolding task_rows
Separate-task_rows [] s = tt
Separate-task_rows ((k, t) ∷ tasks) s = (
  λ r i q.
      let (j, u, found, made) = In-task_rows r tasks s.is_map.1 i in
      let keyed : Keyed (j, u) = All-lookup Keyed j u tasks s.keyed.1 found in
      let one : j ≡ k = keyed.0 ∙ (ap row_key made ∙ (q ∙ sym s.keyed.0.0)) in
      none-some (lookup k tasks) u s.is_map.0 (rw (← one) found),
  Separate-task_rows tasks (record { is_map = s.is_map.1; keyed = s.keyed.1 }),
)

query_rows_same :
    (lib : Library) (features : FeatureNames) (request : QueryRequest)
    (projections : List PlannedProjection) (rows rows' : List EntityRow) (s s' : Session)
    (stream : ResultStream)
    → ((selected : List PlannedRow)
        → select_rows lib (λ n. none) request rows ≡ ok selected
        → select_rows lib (λ n. none) request rows' ≡ ok selected)
    → query_rows lib features (λ n. none) request projections rows s ≡ some (ok stream, s')
    → query_rows lib features (λ n. none) request projections rows' s ≡ some (ok stream, s')
unfolding query_rows
query_rows_same lib features request projections rows rows' s s' stream carried h =
    elim (Result-cases (select_rows lib (λ n. none) request rows)) [
      | inl (selected, done) ↦ rw (carried selected done, query_rows) (rw (done, query_rows) at h)
      | inr (e, failed) ↦ absurd (cc (rw (failed, query_rows) at h))
    ]

-- What a query without aggregates is, once it is prepared.
query_plain :
    (lib : Library) (features : FeatureNames) (equal : Expression → Expression → Bool)
    (context later : ℕ → Option ℕ) (store : Store) (request : QueryRequest) (s : Session)
    (entity : EntityDefinition) (projections : List PlannedProjection)
    → prepare_query features s.0.closed request ≡ ok (entity, projections)
    → aggregate_query request ≡ false
    → query lib features equal context later store request s
      ≡ query_rows lib features context request projections (snapshot store entity) s
unfolding query
query_plain lib features equal context later store request s entity projections ready plain =
    ground arith

-- A query without aggregates that answers, while its context lives, gives the same stream and leaves the
-- same connection for every order in which Go may range over the map of tasks: the stored tasks are the same
-- map, and so are the rows of the other entities.
pub query_any_order :
    (lib : Library) (features : FeatureNames) (equal : Expression → Expression → Bool)
    (later : ℕ → Option ℕ) (store store' : Store) (request : QueryRequest) (s s' : Session)
    (stream : ResultStream)
    → IsStored store.tasks
    → IsStored store'.tasks
    → ((k : Bytes) → lookup k store.tasks ≡ lookup k store'.tasks)
    → store.entities ≡ store'.entities
    → aggregate_query request ≡ false
    → query lib features equal (λ n. none) later store request s ≡ some (ok stream, s')
    → query lib features equal (λ n. none) later store' request s ≡ some (ok stream, s')
unfolding query snapshot
query_any_order lib features equal later store store' request s s' stream m m' same rows plain h =
    elim (Result-cases (prepare_query features s.0.closed request)) [
      | inr (e, failed) ↦ absurd (cc (rw (failed, query) at h))
      | inl ((entity, projections), ready) ↦
          let opened =
            query_plain lib features equal (λ n. none) later store request s entity projections
              ready plain in
          let opened' =
            query_plain lib features equal (λ n. none) later store' request s entity projections
              ready plain in
          elim (Bool-cases (equal_name entity.name task_entity_name)) [
            | inl hit ↦
                opened'
                ∙ rw hit (
                    query_rows_same lib features request projections (task_rows store.tasks)
                      (task_rows store'.tasks) s s' stream
                      (λ selected done.
                        select_rows_same lib request (task_rows store.tasks)
                          (task_rows store'.tasks) selected (Separate-task_rows store.tasks m)
                          (Separate-task_rows store'.tasks m')
                          (Sub-task_rows store.tasks store'.tasks m.is_map same)
                          (Sub-task_rows store'.tasks store.tasks m'.is_map (λ k. sym (same k)))
                          done)
                      (rw hit at (sym opened ∙ h)))
            | inr miss ↦ opened' ∙ rw (miss, ← rows) (rw miss at (sym opened ∙ h))
          ]
    ]
