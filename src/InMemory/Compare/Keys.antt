-- ===== src/InMemory/Compare/Keys.antt =====
-- The comparison of values compares keys: fractions, strings or Booleans.
use Prim.Native.Nat.{Ordering}
use kubling_providers.Base.{
  ◌≡◌, refl, sym, ap, ◌∙◌, inl, inr, Bool, true, false, Option, none, some, Bytes, Result, ok, err,
  ◌>>=◌, Bool-cases, arith,
}
use kubling_providers.InMemory.Numbers.{Rat, compare_rat, compare_bytes, compare_flags, flip}
use kubling_providers.InMemory.Numbers.Orders.{
  compare_rat-IsOrder, compare_bytes-IsOrder, compare_flags-IsOrder,
}
use kubling_providers.InMemory.Values.{Value, nil_value, string_value, boolean_value, is_numeric}
use kubling_providers.InMemory.Compare.{
  CompareFault, not_numeric, aggregate_number, compare_plain, compare_values,
}

-- A comparison that may fail, and where it does not is a total preorder.
pub record IsComparison {F A : Type 0} (cmp : A → A → Result F Ordering) : Type 0 where
  pub flips : (a b : A) (o : Ordering) → cmp a b ≡ ok o → cmp b a ≡ ok (flip o)
  pub lt_trans :
      (a b c : A) → cmp a b ≡ ok Ordering.lt → cmp b c ≡ ok Ordering.lt → cmp a c ≡ ok Ordering.lt
  pub eq_left :
      (a b c : A) (o : Ordering) → cmp a b ≡ ok Ordering.eq → cmp b c ≡ ok o → cmp a c ≡ ok o

data Key : Type 0 where
  number : Rat → Key
  text : Bytes → Key
  flag : Bool → Key

abbrev plain_key : Value → Option Key
plain_key (string_value s) = some (text s)
plain_key (boolean_value b) = some (flag b)
plain_key _ = none

compare_keys : Key → Key → Option Ordering
compare_keys (number x) (number y) = some (compare_rat x y)
compare_keys (text s) (text t) = some (compare_bytes s t)
compare_keys (flag b) (flag c) = some (compare_flags b c)
compare_keys _ _ = none

compare_keys-flip :
    (k j : Key) (o : Ordering) → compare_keys k j ≡ some o → compare_keys j k ≡ some (flip o)
unfolding compare_keys
compare_keys-flip (number x) (number y) o h = ground (arith, compare_rat-IsOrder.flips x y)
compare_keys-flip (text s) (text t) o h = ground (arith, compare_bytes-IsOrder.flips s t)
compare_keys-flip (flag b) (flag c) o h = ground (arith, compare_flags-IsOrder.flips b c)
compare_keys-flip _ _ o h = cc

compare_keys_lt_trans :
    (k j i : Key)
    → compare_keys k j ≡ some Ordering.lt
    → compare_keys j i ≡ some Ordering.lt
    → compare_keys k i ≡ some Ordering.lt
unfolding compare_keys
compare_keys_lt_trans (number x) (number y) (number z) h h' =
    ground (arith, compare_rat-IsOrder.lt_trans x y z)
compare_keys_lt_trans (text x) (text y) (text z) h h' =
    ground (arith, compare_bytes-IsOrder.lt_trans x y z)
compare_keys_lt_trans (flag x) (flag y) (flag z) h h' =
    ground (arith, compare_flags-IsOrder.lt_trans x y z)
compare_keys_lt_trans _ _ _ h h' = cc

compare_keys_eq_left :
    (k j i : Key) → compare_keys k j ≡ some Ordering.eq → compare_keys k i ≡ compare_keys j i
unfolding compare_keys
compare_keys_eq_left (number x) (number y) (number z) h =
    ground (arith, compare_rat-IsOrder.eq_left x y z)
compare_keys_eq_left (text x) (text y) (text z) h =
    ground (arith, compare_bytes-IsOrder.eq_left x y z)
compare_keys_eq_left (flag x) (flag y) (flag z) h =
    ground (arith, compare_flags-IsOrder.eq_left x y z)
compare_keys_eq_left (number x) (number y) _ h = refl
compare_keys_eq_left (text x) (text y) _ h = refl
compare_keys_eq_left (flag x) (flag y) _ h = refl
compare_keys_eq_left _ _ i h = cc

module _ (parse_number : Bytes → Option Rat) where
  key_of : Result CompareFault Rat → Option Key → Option Key
  key_of (ok x) k = some (number x)
  key_of (err e) k = k

  sort_key : Value → Option Key
  sort_key v = key_of (aggregate_number parse_number v) (plain_key v)

  not_number :
      (v : Value) → is_numeric v ≡ false → aggregate_number parse_number v ≡ err not_numeric
  unfolding is_numeric aggregate_number
  not_number (Value.byte_value n) h = cc
  not_number (Value.short_value n) h = cc
  not_number (Value.integer_value n) h = cc
  not_number (Value.long_value n) h = cc
  not_number (Value.biginteger_value s) h = cc
  not_number (Value.float_value s) h = cc
  not_number (Value.double_value s) h = cc
  not_number (Value.bigdecimal_value s) h = cc
  not_number nil_value h = refl
  not_number _ h = refl

  not_plain : (v : Value) → is_numeric v ≡ true → plain_key v ≡ none
  unfolding is_numeric
  not_plain (string_value s) h = cc
  not_plain (boolean_value b) h = cc
  not_plain nil_value h = refl
  not_plain _ h = refl

  sort_keys : Option Key → Option Key → Option Ordering
  sort_keys (some k) (some j) = compare_keys k j
  sort_keys _ _ = none

  answer : Result CompareFault Ordering → Option Ordering
  answer (ok o) = some o
  answer (err e) = none

  compare_plain_keys :
      (l r : Value)
      → answer (compare_plain parse_number l r) ≡ sort_keys (plain_key l) (plain_key r)
  unfolding compare_plain sort_keys answer compare_keys
  compare_plain_keys (string_value s) (string_value t) = refl
  compare_plain_keys (string_value s) (boolean_value c) = refl
  compare_plain_keys (string_value s) nil_value = refl
  compare_plain_keys (string_value s) _ = refl
  compare_plain_keys (boolean_value b) (boolean_value c) = refl
  compare_plain_keys (boolean_value b) (string_value c) = refl
  compare_plain_keys (boolean_value b) nil_value = refl
  compare_plain_keys (boolean_value b) _ = refl
  compare_plain_keys nil_value r = refl
  compare_plain_keys _ r = refl

  both_numbers :
      (m n : Result CompareFault Rat)
      → answer (m >>= λ x. n >>= λ y. ok (compare_rat x y))
        ≡ sort_keys (key_of m none) (key_of n none)
  unfolding answer sort_keys compare_keys key_of
  both_numbers (ok x) (ok y) = refl
  both_numbers (ok x) (err e) = refl
  both_numbers (err e) n = refl

  number_plain :
      (m : Result CompareFault Rat) (v : Value) → sort_keys (key_of m none) (plain_key v) ≡ none
  unfolding sort_keys compare_keys key_of
  number_plain (err e) v = refl
  number_plain (ok x) (string_value s) = refl
  number_plain (ok x) (boolean_value s) = refl
  number_plain (ok x) nil_value = refl
  number_plain (ok x) _ = refl

  plain_number :
      (v : Value) (m : Result CompareFault Rat)
      → sort_keys (plain_key v) none ≡ sort_keys (plain_key v) (key_of m none)
  unfolding sort_keys compare_keys key_of
  plain_number v (err e) = refl
  plain_number (string_value s) (ok x) = refl
  plain_number (boolean_value s) (ok x) = refl
  plain_number nil_value (ok x) = refl
  plain_number _ (ok x) = refl

  -- compareValues compares the keys of its operands.
  compare_values-sort_keys :
      (l r : Value) → answer (compare_values parse_number l r) ≡ sort_keys (sort_key l) (sort_key r)
  unfolding sort_key compare_values answer sort_keys key_of
  compare_values-sort_keys l r = elim (Bool-cases (is_numeric l)) [
    | inl p ↦ elim (Bool-cases (is_numeric r)) [
      | inl q ↦
          rw (p, q, compare_values, not_plain l p, not_plain r q)
            (both_numbers (aggregate_number parse_number l) (aggregate_number parse_number r))
      | inr q ↦
          rw (p, q, compare_values, not_plain l p, not_number r q, answer, key_of)
            (sym (number_plain (aggregate_number parse_number l) r))
    ]
    | inr p ↦ elim (Bool-cases (is_numeric r)) [
      | inl q ↦
          rw (p, compare_values, not_number l p, not_plain r q, key_of)
            (compare_plain_keys l r
              ∙ rw (not_plain r q) (plain_number l (aggregate_number parse_number r)))
      | inr q ↦
          rw (p, compare_values, not_number l p, not_number r q, key_of) (compare_plain_keys l r)
    ]
  ]

  answer_ok : (r : Result CompareFault Ordering) (o : Ordering) → answer r ≡ some o → r ≡ ok o
  unfolding answer
  answer_ok (ok o') o h = ground arith
  answer_ok (err e) o h = cc

  sort_keys-flip :
      (k j : Option Key) (o : Ordering) → sort_keys k j ≡ some o → sort_keys j k ≡ some (flip o)
  unfolding sort_keys
  sort_keys-flip (some k) (some j) o h = compare_keys-flip k j o h
  sort_keys-flip _ _ o h = cc

  sort_keys_lt_trans :
      (k j i : Option Key)
      → sort_keys k j ≡ some Ordering.lt
      → sort_keys j i ≡ some Ordering.lt
      → sort_keys k i ≡ some Ordering.lt
  unfolding sort_keys
  sort_keys_lt_trans (some k) (some j) (some i) h h' = compare_keys_lt_trans k j i h h'
  sort_keys_lt_trans _ _ _ h h' = cc

  sort_keys_eq_left :
      (k j i : Option Key) (o : Ordering)
      → sort_keys k j ≡ some Ordering.eq
      → sort_keys j i ≡ some o
      → sort_keys k i ≡ some o
  unfolding sort_keys
  sort_keys_eq_left (some k) (some j) (some i) o h h' = compare_keys_eq_left k j i h ∙ h'
  sort_keys_eq_left _ _ _ o h h' = cc

  pub compare_values-IsComparison : IsComparison (compare_values parse_number)
  unfolding answer
  compare_values-IsComparison = record {
    flips = λ a b o h. answer_ok (compare_values parse_number b a) (flip o) (
        compare_values-sort_keys b a
        ∙ sort_keys-flip (sort_key a) (sort_key b) o
            (sym (compare_values-sort_keys a b) ∙ ap answer h));
    lt_trans = λ a b c h k. answer_ok (compare_values parse_number a c) Ordering.lt (
        compare_values-sort_keys a c
        ∙ sort_keys_lt_trans (sort_key a) (sort_key b) (sort_key c)
            (sym (compare_values-sort_keys a b) ∙ ap answer h)
            (sym (compare_values-sort_keys b c) ∙ ap answer k));
    eq_left = λ a b c o h k. answer_ok (compare_values parse_number a c) o (
        compare_values-sort_keys a c
        ∙ sort_keys_eq_left (sort_key a) (sort_key b) (sort_key c) o
            (sym (compare_values-sort_keys a b) ∙ ap answer h)
            (sym (compare_values-sort_keys b c) ∙ ap answer k));
  }
