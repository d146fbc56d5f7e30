-- ===== src/InMemory/Ordering/Nulls.antt =====
-- The order of two values, where either may be null (compareOrderedValues, providers/inmemory/query.go).
use Prim.Native.Nat.{Ordering}
use kubling_providers.Base.{
  ◌≡◌, refl, Option, Bytes, Result, ok, err, inl, inr, Bool-cases, if◌then◌else◌, arith, Bool, true,
  false, sym, ◌∙◌,
}
use kubling_providers.InMemory.Values.{Value, is_null}
use kubling_providers.InMemory.Numbers.{Rat, flip}
use kubling_providers.InMemory.Compare.{CompareFault, compare_values}
use kubling_providers.InMemory.Compare.Keys.{IsComparison, compare_values-IsComparison}
use kubling_providers.InMemory.Ordering.{
  OrderBy, SortDirection, is_nulls_first, is_descending, directed, compare_ordered_values,
}

-- The order of two values that are there, in a direction.
abbrev turned : SortDirection → Ordering → Ordering
turned d order = if is_descending d then flip order else order

directed_ok :
    (d : SortDirection) (r : Result CompareFault Ordering) (o : Ordering)
    → directed d r ≡ ok o
    → (p : Ordering) × (r ≡ ok p) × (o ≡ turned d p)
directed_ok d (ok p) o h = (p, refl, ground arith)
directed_ok d (err e) o h = absurd (cc)

pub flip-flip : (p : Ordering) → flip (flip p) ≡ p
flip-flip Ordering.lt = refl
flip-flip Ordering.eq = refl
flip-flip Ordering.gt = refl

turned-flip : (d : SortDirection) (p : Ordering) → turned d (flip p) ≡ flip (turned d p)
turned-flip d p = ground arith

module _ (parse_number : Bytes → Option Rat) (d : SortDirection) where
  cmp : Value → Value → Result CompareFault Ordering
  cmp a b = directed d (compare_values parse_number a b)

  law : IsComparison (compare_values parse_number)
  law = compare_values-IsComparison parse_number

  directed_flips : (a b : Value) (o : Ordering) → cmp a b ≡ ok o → cmp b a ≡ ok (flip o)
  unfolding cmp
  directed_flips a b o h =
      let (p, compared, same) = directed_ok d (compare_values parse_number a b) o h in
      rw (law.flips a b p compared, same, ← turned-flip d p) refl

  -- greater on the right, by the laws of the other direction
  gt_trans :
      (a b c : Value)
      → compare_values parse_number a b ≡ ok Ordering.gt
      → compare_values parse_number b c ≡ ok Ordering.gt
      → compare_values parse_number a c ≡ ok Ordering.gt
  gt_trans a b c h k =
      law.flips c a Ordering.lt
        (law.lt_trans c b a (law.flips b c Ordering.gt k) (law.flips a b Ordering.gt h))

  directed_lt_trans :
      (a b c : Value)
      → cmp a b ≡ ok Ordering.lt
      → cmp b c ≡ ok Ordering.lt
      → cmp a c ≡ ok Ordering.lt
  unfolding cmp
  directed_lt_trans a b c h k =
      let (p, compared, same) = directed_ok d (compare_values parse_number a b) Ordering.lt h in
      let (q, compared', same') = directed_ok d (compare_values parse_number b c) Ordering.lt k in
      elim (Bool-cases (is_descending d)) [
        | inl down ↦
            let e : p ≡ Ordering.gt = ground arith in
            let e' : q ≡ Ordering.gt = ground arith in
            rw (gt_trans a b c (rw (← e) compared) (rw (← e') compared'), down) refl
        | inr up ↦
            let e : p ≡ Ordering.lt = ground arith in
            let e' : q ≡ Ordering.lt = ground arith in
            rw (law.lt_trans a b c (rw (← e) compared) (rw (← e') compared'), up) refl
      ]

  directed_eq_left :
      (a b c : Value) (o : Ordering) → cmp a b ≡ ok Ordering.eq → cmp b c ≡ ok o → cmp a c ≡ ok o
  unfolding cmp
  directed_eq_left a b c o h k =
      let (p, compared, same) = directed_ok d (compare_values parse_number a b) Ordering.eq h in
      let (q, compared', same') = directed_ok d (compare_values parse_number b c) o k in
      let e : p ≡ Ordering.eq = ground arith in
      rw (law.eq_left a b c q (rw (← e) compared) compared', same') refl

-- The order with nulls: whether these come first, whether the two values are null, and how they compare.
ranked : Bool → Bool → Bool → Result CompareFault Ordering → Result CompareFault Ordering
ranked first true true r = ok Ordering.eq
ranked first true false r = ok (if first then Ordering.lt else Ordering.gt)
ranked first false true r = ok (if first then Ordering.gt else Ordering.lt)
ranked first false false r = r

compare_ordered_values-ranked :
    (parse_number : Bytes → Option Rat) (ordering : OrderBy) (l r : Value)
    → compare_ordered_values parse_number ordering l r
      ≡ ranked
          (is_nulls_first ordering.null_ordering)
          (is_null l)
          (is_null r)
          (cmp parse_number ordering.direction l r)
unfolding compare_ordered_values ranked cmp
compare_ordered_values-ranked parse_number ordering l r = elim (Bool-cases (is_null l)) [
  | inl a ↦ elim (Bool-cases (is_null r)) [
    | inl b ↦ rw (a, b, compare_ordered_values) refl
    | inr b ↦ rw (a, b, compare_ordered_values) refl
  ]
  | inr a ↦ elim (Bool-cases (is_null r)) [
    | inl b ↦ rw (a, b, compare_ordered_values) refl
    | inr b ↦ rw (a, b, compare_ordered_values) refl
  ]
]

ranked_flips :
    (first a b : Bool) (r s : Result CompareFault Ordering) (o : Ordering)
    → (r ≡ ok o → s ≡ ok (flip o))
    → ranked first a b r ≡ ok o
    → ranked first b a s ≡ ok (flip o)
unfolding ranked
ranked_flips first true true r s o f h = ground arith
ranked_flips true true false r s o f h = ground arith
ranked_flips false true false r s o f h = ground arith
ranked_flips true false true r s o f h = ground arith
ranked_flips false false true r s o f h = ground arith
ranked_flips first false false r s o f h = f h

ranked_lt_trans :
    (first a b c : Bool) (r s t : Result CompareFault Ordering)
    → (r ≡ ok Ordering.lt → s ≡ ok Ordering.lt → t ≡ ok Ordering.lt)
    → ranked first a b r ≡ ok Ordering.lt
    → ranked first b c s ≡ ok Ordering.lt
    → ranked first a c t ≡ ok Ordering.lt
unfolding ranked
ranked_lt_trans first true true c r s t f h k = absurd (ground arith)
ranked_lt_trans true true false true r s t f h k = absurd (ground arith)
ranked_lt_trans true true false false r s t f h k = refl
ranked_lt_trans false true false c r s t f h k = absurd (ground arith)
ranked_lt_trans first false true true r s t f h k = absurd (ground arith)
ranked_lt_trans true false true false r s t f h k = absurd (ground arith)
ranked_lt_trans false false true false r s t f h k = absurd (ground arith)
ranked_lt_trans first false false true r s t f h k = k
ranked_lt_trans first false false false r s t f h k = f h k

ranked_eq_left :
    (first a b c : Bool) (r s t : Result CompareFault Ordering) (o : Ordering)
    → (r ≡ ok Ordering.eq → s ≡ ok o → t ≡ ok o)
    → ranked first a b r ≡ ok Ordering.eq
    → ranked first b c s ≡ ok o
    → ranked first a c t ≡ ok o
unfolding ranked
ranked_eq_left first true true true r s t o f h k = k
ranked_eq_left first true true false r s t o f h k = k
ranked_eq_left true true false c r s t o f h k = absurd (ground arith)
ranked_eq_left false true false c r s t o f h k = absurd (ground arith)
ranked_eq_left true false true c r s t o f h k = absurd (ground arith)
ranked_eq_left false false true c r s t o f h k = absurd (ground arith)
ranked_eq_left first false false true r s t o f h k = k
ranked_eq_left first false false false r s t o f h k = f h k

pub compare_ordered_values-IsComparison :
    (parse_number : Bytes → Option Rat) (ordering : OrderBy)
    → IsComparison (compare_ordered_values parse_number ordering)
compare_ordered_values-IsComparison parse_number ordering =
    let d = ordering.direction in
    let first = is_nulls_first ordering.null_ordering in
    let c = cmp parse_number d in
    let to = compare_ordered_values-ranked parse_number ordering in
    record {
      flips = λ a b o h.
          to b a
          ∙ ranked_flips first (is_null a) (is_null b) (c a b) (c b a) o
              (directed_flips parse_number d a b o) (sym (to a b) ∙ h);
      lt_trans = λ a b z h k.
          to a z
          ∙ ranked_lt_trans first (is_null a) (is_null b) (is_null z) (c a b) (c b z) (c a z)
              (directed_lt_trans parse_number d a b z) (sym (to a b) ∙ h) (sym (to b z) ∙ k);
      eq_left = λ a b z o h k.
          to a z
          ∙ ranked_eq_left first (is_null a) (is_null b) (is_null z) (c a b) (c b z) (c a z) o
              (directed_eq_left parse_number d a b z o) (sym (to a b) ∙ h) (sym (to b z) ∙ k);
    }
