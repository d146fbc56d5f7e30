-- ===== src/InMemory/Query/Planned.antt =====
-- The rows that a query plans and sorts (plan_rows, sort_planned_rows, select_rows), from the rows of a
-- map that Go ranges over in any order.
use kubling_providers.Base.{
  ◌≡◌, ◌≢◌, refl, subst, ap, Bool, true, false, List, [], ◌∷◌, Option, none, Bytes, In, Result, ok,
  err, bytes_eq, ok_unique, Result-cases, ◌⊎◌, inl, inr,
}
use kubling_providers.InMemory.Values.{Value}
use kubling_providers.InMemory.Model.{EntityRow}
use kubling_providers.InMemory.Expressions.{Expression}
use kubling_providers.InMemory.Evaluate.{EvaluationFault, evaluate_filter, evaluate_expression}
use kubling_providers.InMemory.Evaluate.Aggregates.{Library}
use kubling_providers.InMemory.Ordering.{OrderBy}
use kubling_providers.InMemory.Query.{PlannedRow, argument, evaluate_order_values, plan_rows}
use kubling_providers.InMemory.Sort.Sorted.{Sub, Different}

-- No two of them have one key.
abbrev pub Separate : {A : Type 0} → (A → Bytes) → List A → Type 0
Separate key [] = Unit
Separate {A} key (y ∷ ys) = ((z : A) → In z ys → key z ≢ key y) × Separate key ys

abbrev pub row_key : EntityRow → Bytes
row_key r = r.key

abbrev pub planned_key : PlannedRow → Bytes
planned_key p = p.row.key

pub Different-of_keys :
    {A : Type 0} (key : A → Bytes) (xs : List A) → Separate key xs → Different xs
Different-of_keys key [] h = tt
Different-of_keys key (x ∷ xs) h = ((λ z e q. h.0 z e (ap key q)), Different-of_keys key xs h.1)

abbrev planned_of : EntityRow → List Value → PlannedRow
planned_of row vs = record { row = row; order_values = vs }

pub argument_ok : {F A : Type 0} (r : Result F A) (a : A) → argument r ≡ ok a → r ≡ ok a
argument_ok (ok b) a h = cc
argument_ok (err e) a h = absurd (cc)

module _ (lib : Library) (filter : Expression) (order_by : List (Option OrderBy)) where
  -- The row passes the filter, with these order values.
  abbrev pub Passes : EntityRow → List Value → Type 0
  Passes row vs =
      (evaluate_filter lib row filter ≡ ok true)
      × (evaluate_order_values (evaluate_expression lib row) order_by ≡ ok vs)

  -- The row is left out, or passes.
  abbrev pub Decides : EntityRow → Type 0
  Decides row = (evaluate_filter lib row filter ≡ ok false) ⊎ ((vs : List Value) × Passes row vs)

  pub record Plans (rows : List EntityRow) (planned : List PlannedRow) : Type 0 where
    pub decides : (r : EntityRow) → In r rows → Decides r
    pub from : (p : PlannedRow) → In p planned → In p.row rows × Passes p.row p.order_values
    pub covers :
        (r : EntityRow) (vs : List Value)
        → In r rows
        → Passes r vs
        → In (record { row = r; order_values = vs }) planned
    pub apart : Separate row_key rows → Separate planned_key planned

  keep :
      (row : EntityRow) (rows : List EntityRow) (vs : List Value) (rest : List PlannedRow)
      → Passes row vs
      → Plans rows rest
      → Plans (row ∷ rows) (record { row = row; order_values = vs } ∷ rest)
  keep row rows vs rest w g = record {
    decides = λ r i. elim i [ inl q ↦ subst Decides q (inr (vs, w)) | inr j ↦ g.decides r j ];
    from = λ p i. elim i [
      | inl q ↦ subst (λ p. In p.row (row ∷ rows) × Passes p.row p.order_values) q (inl refl, w)
      | inr j ↦ (inr (g.from p j).0, (g.from p j).1)
    ];
    covers = λ r us i u. elim i [
      | inl q ↦ inl (
          same_row row r vs us q (
            ok_unique (evaluate_order_values (evaluate_expression lib r) order_by) vs us
              (subst (λ r. evaluate_order_values (evaluate_expression lib r) order_by ≡ ok vs) q
                w.1)
              u.1))
      | inr j ↦ inr (g.covers r us j u)
    ];
    apart = λ s. ((λ p i. s.0 p.row (g.from p i).0), g.apart s.1);
  }
    where
      same_row :
          (row r : EntityRow) (vs us : List Value)
          → row ≡ r
          → vs ≡ us
          → planned_of row vs ≡ planned_of r us
      same_row row r vs us p q = rw (p, q) refl

  skip :
      (row : EntityRow) (rows : List EntityRow) (rest : List PlannedRow)
      → evaluate_filter lib row filter ≡ ok false
      → Plans rows rest
      → Plans (row ∷ rows) rest
  skip row rows rest out g = record {
    decides = λ r i. elim i [ inl q ↦ subst Decides q (inl out) | inr j ↦ g.decides r j ];
    from = λ p i. (inr (g.from p i).0, (g.from p i).1);
    covers = λ r vs i w. elim i [
      | inl q ↦ absurd (
          differ (evaluate_filter lib r filter)
            (subst (λ r. evaluate_filter lib r filter ≡ ok false) q out) w.0)
      | inr j ↦ g.covers r vs j w
    ];
    apart = λ s. g.apart s.1;
  }
    where
      differ : (o : Result EvaluationFault Bool) → o ≡ ok false → o ≡ ok true → ⊥
      differ o p q = cc

  pub plan_rows-Plans :
      (rows : List EntityRow) (planned : List PlannedRow)
      → plan_rows lib (λ n. none) filter order_by rows ≡ ok planned
      → Plans rows planned
  unfolding plan_rows
  plan_rows-Plans [] planned h =
      let e : [] ≡ planned = cc in
      subst (Plans []) e (record {
        decides = λ r e. absurd e;
        from = λ p e. absurd e;
        covers = λ r vs e w. absurd e;
        apart = λ s. tt;
      })
  plan_rows-Plans (row ∷ rows) planned h =
      let values = evaluate_order_values (evaluate_expression lib row) order_by in
      elim (Result-cases (evaluate_filter lib row filter)) [
        | inr (e, failed) ↦ absurd (cc (rw (failed, plan_rows) at h))
        | inl (false, out) ↦
            skip row rows planned out (plan_rows-Plans rows planned (rw (out, plan_rows) at h))
        | inl (true, passed) ↦ elim (Result-cases values) [
          | inr (e, failed) ↦ absurd (cc (rw (passed, failed, plan_rows) at h))
          | inl (vs, valued) ↦
              elim (Result-cases (plan_rows lib (λ n. none) filter order_by rows)) [
                | inr (e, failed) ↦ absurd (cc (rw (passed, valued, failed, plan_rows) at h))
                | inl (rest, done) ↦
                    let e : record { row = row; order_values = vs } ∷ rest ≡ planned =
                      cc (rw (passed, valued, done, plan_rows) at h) in
                    subst (Plans (row ∷ rows)) e
                      (keep row rows vs rest (passed, valued) (plan_rows-Plans rows rest done))
              ]
        ]
      ]

  -- Rows that are each decided are planned.
  pub plan_rows_ok :
      (rows : List EntityRow)
      → ((r : EntityRow) → In r rows → Decides r)
      → (planned : List PlannedRow) × (plan_rows lib (λ n. none) filter order_by rows ≡ ok planned)
  unfolding plan_rows
  plan_rows_ok [] d = ([], refl)
  plan_rows_ok (row ∷ rows) d =
      let (rest, done) = plan_rows_ok rows (λ r i. d r (inr i)) in
      elim (d row (inl refl)) [
        | inl out ↦ (rest, rw out done)
        | inr (vs, w) ↦ (record { row = row; order_values = vs } ∷ rest, rw (w.0, w.1, done) refl)
      ]

  pub Sub-planned :
      (rows rows' : List EntityRow) (planned planned' : List PlannedRow)
      → Sub rows rows'
      → Plans rows planned
      → Plans rows' planned'
      → Sub planned planned'
  Sub-planned rows rows' planned planned' s g g' p i =
      let (inside, w) = g.from p i in g'.covers p.row p.order_values (s p.row inside) w
