-- ===== src/InMemory/Ordering/Laws.antt =====
-- The order of rows is one.
use Prim.Native.Nat.{Ordering}
use kubling_providers.Base.{
  ◌≡◌, refl, List, [], ◌∷◌, Option, Bytes, Result, ok, inl, inr, Result-cases, arith, ◌⊎◌,
}
use kubling_providers.InMemory.Values.{Value}
use kubling_providers.InMemory.Numbers.{Rat, flip}
use kubling_providers.InMemory.Numbers.Orders.{compare_bytes-IsOrder, compare_bytes_same}
use kubling_providers.InMemory.Compare.{CompareFault}
use kubling_providers.InMemory.Compare.Keys.{IsComparison}
use kubling_providers.InMemory.Ordering.{OrderBy, compare_ordered_values, compare_rows}
use kubling_providers.InMemory.Ordering.Nulls.{flip-flip, compare_ordered_values-IsComparison}

flip_back : (o : Ordering) (r : Result CompareFault Ordering) → r ≡ ok (flip (flip o)) → r ≡ ok o
flip_back o r h = rw (flip-flip o) at h

eq_right :
    {A : Type 0} (cmp : A → A → Result CompareFault Ordering) (law : IsComparison cmp) (a b c : A)
    (o : Ordering)
    → cmp a b ≡ ok o
    → cmp b c ≡ ok Ordering.eq
    → cmp a c ≡ ok o
eq_right cmp law a b c o h k = flip_back o (cmp a c) (
    law.flips c a (flip o)
      (law.eq_left c b a (flip o) (law.flips b c Ordering.eq k) (law.flips a b o h)))

module _ (parse_number : Bytes → Option Rat) where
  row_flips :
      (os : List OrderBy) (a b : List Value × Bytes) (o : Ordering)
      → compare_rows parse_number os a b ≡ ok o
      → compare_rows parse_number os b a ≡ ok (flip o)
  unfolding compare_rows
  row_flips [] (ls, k) (rs, j) o h = ground (arith, compare_bytes-IsOrder.flips k j)
  row_flips (d ∷ os) ([], k) ([], j) o h = ground (arith, compare_bytes-IsOrder.flips k j)
  row_flips (d ∷ os) ([], k) (r ∷ rs, j) o h = ground arith
  row_flips (d ∷ os) (l ∷ ls, k) ([], j) o h = ground arith
  row_flips (d ∷ os) (l ∷ ls, k) (r ∷ rs, j) o h =
      let rule = compare_ordered_values-IsComparison parse_number d in
      elim (Result-cases (compare_ordered_values parse_number d l r)) [
        | inr (e, failed) ↦ absurd (cc (rw (failed, compare_rows) at h))
        | inl (Ordering.lt, first) ↦
            let e : Ordering.lt ≡ o = cc (rw (first, compare_rows) at h) in
            rw (rule.flips l r Ordering.lt first, ← e) refl
        | inl (Ordering.gt, first) ↦
            let e : Ordering.gt ≡ o = cc (rw (first, compare_rows) at h) in
            rw (rule.flips l r Ordering.gt first, ← e) refl
        | inl (Ordering.eq, first) ↦
            rw (rule.flips l r Ordering.eq first)
              (row_flips os (ls, k) (rs, j) o (rw (first, compare_rows) at h))
      ]

  row_first :
      (d : OrderBy) (os : List OrderBy) (l r : Value) (ls rs : List Value) (k j : Bytes)
      (o : Ordering)
      → compare_rows parse_number (d ∷ os) (l ∷ ls, k) (r ∷ rs, j) ≡ ok o
      → ((compare_ordered_values parse_number d l r ≡ ok Ordering.lt) × (Ordering.lt ≡ o))
        ⊎ (((compare_ordered_values parse_number d l r ≡ ok Ordering.eq)
              × (compare_rows parse_number os (ls, k) (rs, j) ≡ ok o))
            ⊎ ((compare_ordered_values parse_number d l r ≡ ok Ordering.gt) × (Ordering.gt ≡ o)))
  unfolding compare_rows
  row_first d os l r ls rs k j o h =
      elim (Result-cases (compare_ordered_values parse_number d l r)) [
        | inr (e, failed) ↦ absurd (cc (rw (failed, compare_rows) at h))
        | inl (Ordering.lt, first) ↦ inl (first, cc (rw (first, compare_rows) at h))
        | inl (Ordering.gt, first) ↦ inr (inr (first, cc (rw (first, compare_rows) at h)))
        | inl (Ordering.eq, first) ↦ inr (inl (first, rw (first, compare_rows) at h))
      ]

  row_lt_trans :
      (os : List OrderBy) (a b c : List Value × Bytes)
      → compare_rows parse_number os a b ≡ ok Ordering.lt
      → compare_rows parse_number os b c ≡ ok Ordering.lt
      → compare_rows parse_number os a c ≡ ok Ordering.lt
  unfolding compare_rows
  row_lt_trans [] (ls, k) (rs, j) (ts, i) h h' =
      ground (arith, compare_bytes-IsOrder.lt_trans k j i)
  row_lt_trans (d ∷ os) ([], k) ([], j) ([], i) h h' =
      ground (arith, compare_bytes-IsOrder.lt_trans k j i)
  row_lt_trans (d ∷ os) ([], k) b (t ∷ ts, i) h h' = refl
  row_lt_trans (d ∷ os) ([], k) (r ∷ rs, j) ([], i) h h' = absurd (ground arith)
  row_lt_trans (d ∷ os) (l ∷ ls, k) ([], j) c h h' = absurd (ground arith)
  row_lt_trans (d ∷ os) (l ∷ ls, k) (r ∷ rs, j) ([], i) h h' = absurd (ground arith)
  row_lt_trans (d ∷ os) (l ∷ ls, k) (r ∷ rs, j) (t ∷ ts, i) h h' =
      let rule = compare_ordered_values-IsComparison parse_number d in
      let cmp = compare_ordered_values parse_number d in
      elim (row_first d os l r ls rs k j Ordering.lt h) [
        | inr (inr (first, rest)) ↦ absurd (ground arith)
        | inl (first, rest) ↦ elim (row_first d os r t rs ts j i Ordering.lt h') [
          | inr (inr (second, rest')) ↦ absurd (ground arith)
          | inl (second, rest') ↦ rw (rule.lt_trans l r t first second) refl
          | inr (inl (second, rest')) ↦ rw (eq_right cmp rule l r t Ordering.lt first second) refl
        ]
        | inr (inl (first, rest)) ↦ elim (row_first d os r t rs ts j i Ordering.lt h') [
          | inr (inr (second, rest')) ↦ absurd (ground arith)
          | inl (second, rest') ↦ rw (rule.eq_left l r t Ordering.lt first second) refl
          | inr (inl (second, rest')) ↦
              rw (rule.eq_left l r t Ordering.eq first second)
                (row_lt_trans os (ls, k) (rs, j) (ts, i) rest rest')
        ]
      ]

  row_eq_left :
      (os : List OrderBy) (a b c : List Value × Bytes) (o : Ordering)
      → compare_rows parse_number os a b ≡ ok Ordering.eq
      → compare_rows parse_number os b c ≡ ok o
      → compare_rows parse_number os a c ≡ ok o
  unfolding compare_rows
  row_eq_left [] (ls, k) (rs, j) (ts, i) o h h' =
      ground (arith, compare_bytes-IsOrder.eq_left k j i)
  row_eq_left (d ∷ os) ([], k) ([], j) ([], i) o h h' =
      ground (arith, compare_bytes-IsOrder.eq_left k j i)
  row_eq_left (d ∷ os) ([], k) ([], j) (t ∷ ts, i) o h h' = h'
  row_eq_left (d ∷ os) ([], k) (r ∷ rs, j) c o h h' = absurd (ground arith)
  row_eq_left (d ∷ os) (l ∷ ls, k) ([], j) c o h h' = absurd (ground arith)
  row_eq_left (d ∷ os) (l ∷ ls, k) (r ∷ rs, j) ([], i) o h h' = h'
  row_eq_left (d ∷ os) (l ∷ ls, k) (r ∷ rs, j) (t ∷ ts, i) o h h' =
      let rule = compare_ordered_values-IsComparison parse_number d in
      elim (row_first d os l r ls rs k j Ordering.eq h) [
        | inr (inr (first, rest)) ↦ absurd (ground arith)
        | inl (first, rest) ↦ absurd (ground arith)
        | inr (inl (first, rest)) ↦ elim (row_first d os r t rs ts j i o h') [
          | inr (inr (second, rest')) ↦ rw (rule.eq_left l r t Ordering.gt first second, rest') refl
          | inl (second, rest') ↦ rw (rule.eq_left l r t Ordering.lt first second, rest') refl
          | inr (inl (second, rest')) ↦
              rw (rule.eq_left l r t Ordering.eq first second)
                (row_eq_left os (ls, k) (rs, j) (ts, i) o rest rest')
        ]
      ]

  pub compare_rows-IsComparison : (os : List OrderBy) → IsComparison (compare_rows parse_number os)
  compare_rows-IsComparison os = record {
    flips = row_flips os;
    lt_trans = row_lt_trans os;
    eq_left = row_eq_left os;
  }

  -- Rows tie only if they have one key.
  pub row_tie :
      (os : List OrderBy) (a b : List Value × Bytes)
      → compare_rows parse_number os a b ≡ ok Ordering.eq
      → a.1 ≡ b.1
  unfolding compare_rows
  row_tie [] (ls, k) (rs, j) h = compare_bytes_same k j (ground arith)
  row_tie (d ∷ os) ([], k) ([], j) h = compare_bytes_same k j (ground arith)
  row_tie (d ∷ os) ([], k) (r ∷ rs, j) h = absurd (ground arith)
  row_tie (d ∷ os) (l ∷ ls, k) ([], j) h = absurd (ground arith)
  row_tie (d ∷ os) (l ∷ ls, k) (r ∷ rs, j) h = elim (row_first d os l r ls rs k j Ordering.eq h) [
    | inr (inr (first, rest)) ↦ absurd (ground arith)
    | inl (first, rest) ↦ absurd (ground arith)
    | inr (inl (first, rest)) ↦ row_tie os (ls, k) (rs, j) rest
  ]
