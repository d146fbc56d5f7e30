-- ===== src/InMemory/Grouped/Partition.antt =====
-- The groups of an aggregate query (groupAggregateRows, providers/inmemory/aggregate.go).
use Prim.Native.Nat.{Ordering}
use mathlib.Core.List.{append-nil, append_assoc}
use kubling_providers.Base.{
  ◌≡◌, ◌≢◌, refl, sym, ◌∙◌, ap, subst, inl, inr, Bool, true, false, List, [], ◌∷◌, ◌++◌, Bytes,
  bytes_beq, bytes_eq, bytes_beq_iff, In, Result, ok, err, ◌>>=◌, bind_ok, Result-cases, Bool-cases,
  arith, if◌then◌else◌,
}
use kubling_providers.InMemory.Numbers.{compare_bytes}
use kubling_providers.InMemory.Numbers.Orders.{compare_bytes-IsOrder, compare_bytes_same}
use kubling_providers.InMemory.Model.{Refusal, EntityRow}
use kubling_providers.InMemory.Expressions.{Expression}
use kubling_providers.InMemory.Evaluate.{EvaluationFault, of_aggregate}
use kubling_providers.InMemory.Evaluate.Aggregates.{Library, aggregate_values_key}
use kubling_providers.InMemory.Compare.{CompareFault}
use kubling_providers.InMemory.Compare.Keys.{IsComparison}
use kubling_providers.InMemory.Sort.Sorted.{Distinct}
use kubling_providers.InMemory.Sort.Ascending.{Ascending, stable_sort-Sorts}
use kubling_providers.InMemory.Query.{argument}
use kubling_providers.InMemory.Query.Planned.{Separate, argument_ok}
use kubling_providers.InMemory.Grouped.{
  Group, add_to_group, group_values, collect_groups, sort_groups, group_aggregate_rows,
}
use kubling_providers.InMemory.Grouped.Joined.{
  group_key, Filled, rows_of, rows_of-add, add-Separate, add-Filled, rows_of-In, rows_of_own,
}

abbrev pub by_key : Group → Group → Result CompareFault Ordering
by_key g h = ok (compare_bytes g.key h.key)

by_key-IsComparison : IsComparison by_key
by_key-IsComparison = record {
  flips = λ a b o h. ground (arith, compare_bytes-IsOrder.flips a.key b.key);
  lt_trans = λ a b c h k. ground (arith, compare_bytes-IsOrder.lt_trans a.key b.key c.key);
  eq_left = λ a b c o h k. ground (arith, compare_bytes-IsOrder.eq_left a.key b.key c.key);
}

Distinct-of_keys : (gs : List Group) → Separate group_key gs → Distinct by_key gs
Distinct-of_keys [] h = tt
Distinct-of_keys (g ∷ gs) h =
    ((λ z i tie. h.0 z i (compare_bytes_same z.key g.key (ground arith))), Distinct-of_keys gs h.1)

has_key : Bytes → Result EvaluationFault Bytes → Bool
has_key k (ok j) = bytes_beq j k
has_key k (err e) = false

module _ (lib : Library) (expressions : List Expression) where
  -- The encoded values of the row, by which it is grouped.
  abbrev pub key_of : EntityRow → Result EvaluationFault Bytes
  key_of row =
      group_values lib row expressions >>= λ values. of_aggregate (aggregate_values_key lib values)

  -- The rows with the key, in their order.
  pub members : Bytes → List EntityRow → List EntityRow
  unfolding has_key
  members k [] = []
  members k (row ∷ rows) =
      let rest = members k rows in if has_key k (key_of row) then row ∷ rest else rest

  record Collects (groups result : List Group) (rows : List EntityRow) : Type 0 where
    sums : (j : Bytes) → rows_of j result ≡ rows_of j groups ++ members j rows
    keyed : (r : EntityRow) → In r rows → (k : Bytes) × (key_of r ≡ ok k)
    apart : Separate group_key groups → Separate group_key result
    filled : Filled groups → Filled result

  collected :
      (k j : Bytes) (row : EntityRow) (groups : List Group) (rest : List EntityRow)
      → (if bytes_beq k j then rows_of j groups ++ row ∷ [] else rows_of j groups) ++ rest
        ≡ rows_of j groups ++ (if bytes_beq k j then row ∷ rest else rest)
  collected k j row groups rest = elim (Bool-cases (bytes_beq k j)) [
    | inl hit ↦ rw hit (append_assoc (rows_of j groups) (row ∷ []) rest)
    | inr miss ↦ rw miss refl
  ]

  collect_groups-Collects :
      (groups result : List Group) (rows : List EntityRow)
      → collect_groups lib expressions groups rows ≡ ok result
      → Collects groups result rows
  unfolding collect_groups members has_key
  collect_groups-Collects groups result [] h =
      let same : groups ≡ result = cc in
      rw (← same) (record {
        sums = λ j. sym (append-nil (rows_of j groups));
        keyed = λ r i. absurd i;
        apart = λ s. s;
        filled = λ f. f;
      })
  collect_groups-Collects groups result (row ∷ rows) h =
      elim (Result-cases (group_values lib row expressions)) [
        | inr (e, failed) ↦ absurd (cc (rw (failed, collect_groups) at h))
        | inl (values, valued) ↦
            elim (Result-cases (of_aggregate (aggregate_values_key lib values))) [
              | inr (e, failed) ↦ absurd (cc (rw (valued, failed, collect_groups) at h))
              | inl (k, encoded) ↦
                  let g =
                    collect_groups-Collects (add_to_group k row groups) result rows
                      (rw (valued, encoded, collect_groups) at h) in
                  let key : key_of row ≡ ok k = rw valued encoded in
                  record {
                    sums = λ j.
                        g.sums j
                        ∙ rw (rows_of-add j k row groups, key)
                            (collected k j row groups (members j rows));
                    keyed = λ r i. elim i [
                      | inl e ↦ (k, subst (λ r. key_of r ≡ ok k) e key)
                      | inr j ↦ g.keyed r j
                    ];
                    apart = λ s. g.apart (add-Separate k row groups s);
                    filled = λ f. g.filled (add-Filled k row groups f);
                  }
            ]
      ]

  In-members :
      (k : Bytes) (r : EntityRow) (rows : List EntityRow)
      → key_of r ≡ ok k
      → In r rows
      → members k rows ≢ []
  unfolding members has_key
  In-members k r [] key i q = i
  In-members k r (row ∷ rows) key (inl e) q =
      let mine : key_of row ≡ ok k = subst (λ z. key_of z ≡ ok k) (sym e) key in
      let hit : bytes_beq k k ≡ true = (bytes_beq_iff k k).1 refl in
      absurd (cc (rw (mine, hit, members) at q))
  In-members k r (row ∷ rows) key (inr i) q = elim (Bool-cases (has_key k (key_of row))) [
    | inl hit ↦ cc (rw (hit, members) at q)
    | inr miss ↦ In-members k r rows key i (rw (miss, members) at q)
  ]

  -- Each row stands in the group of its key; a group has the rows of its key and no others, in their order,
  -- and at least one; and the keys ascend.
  pub record IsPartition (rows : List EntityRow) (groups : List Group) : Type 0 where
    pub placed : (r : EntityRow) → In r rows → (g : Group) × In g groups × (key_of r ≡ ok g.key)
    pub whole : (g : Group) → In g groups → g.rows ≡ members g.key rows
    pub filled : (g : Group) → In g groups → g.rows ≢ []
    pub ascending : Ascending by_key groups

-- An aggregate query with expressions to group by partitions its rows, where it succeeds: each row stands in
-- the group of the key that is made of the values of these expressions on it, a group has the rows with its
-- key and no others, in their order and at least one, and the groups stand in ascending order of their keys,
-- so that no key has two.
pub group_aggregate_rows-IsPartition :
    (lib : Library) (e : Expression) (es : List Expression) (rows : List EntityRow)
    (groups : List Group)
    → group_aggregate_rows lib (e ∷ es) rows ≡ ok groups
    → IsPartition lib (e ∷ es) rows groups
unfolding group_aggregate_rows sort_groups rows_of
group_aggregate_rows-IsPartition lib e es rows groups h =
    let sorting : List Group → Result Refusal (List Group) = λ gs. argument (sort_groups lib gs) in
    let (gathered, done, sorted) =
      (bind_ok (argument (collect_groups lib (e ∷ es) [] rows)) sorting groups).0 h in
    let c =
      collect_groups-Collects lib (e ∷ es) [] gathered rows
        (argument_ok (collect_groups lib (e ∷ es) [] rows) gathered done) in
    let apart = c.apart tt in
    let s =
      stable_sort-Sorts by_key gathered groups by_key-IsComparison (Distinct-of_keys gathered apart)
        (argument_ok (sort_groups lib gathered) groups sorted) in
    record {
      placed = λ r i.
          let (k, key) = c.keyed r i in
          let (g, here, named) =
            rows_of-In k gathered
              (λ q. In-members lib (e ∷ es) k r rows key i (sym (c.sums k) ∙ q)) in
          (g, s.covers g here, key ∙ ap ok (sym named));
      whole = λ g i. sym (rows_of_own g gathered apart (s.within g i)) ∙ c.sums g.key;
      filled = λ g i. c.filled (λ g e. absurd e) g (s.within g i);
      ascending = s.ascending;
    }
