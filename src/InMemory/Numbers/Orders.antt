-- ===== src/InMemory/Numbers/Orders.antt =====
-- The orders of numbers, strings and Booleans are orders.
use Prim.Native.Nat.{compare, Ordering}
use mathlib.Core.Path.{◌≡⟨◌⟩◌, ◌∎}
use native.Mathlib.Nat.{mul-lt-mul_of_pos_right, mul_right_comm}
use kubling_providers.Base.{
  ℕ, suc, ◌*◌, ◌<◌, ◌≡◌, refl, sym, ap, ◌∙◌, Bool, true, false, [], ◌∷◌, Bytes, ℤ, pos, negsuc,
  arith,
}
use kubling_providers.InMemory.Numbers.{
  denominator, compare_scaled, compare_rat, compare_bytes, compare_flags, flip,
}

-- A comparison that is a total preorder.
pub record IsOrder {A : Type 0} (cmp : A → A → Ordering) : Type 0 where
  pub flips : (a b : A) → cmp b a ≡ flip (cmp a b)
  pub lt_trans : (a b c : A) → cmp a b ≡ Ordering.lt → cmp b c ≡ Ordering.lt → cmp a c ≡ Ordering.lt
  pub eq_left : (a b c : A) → cmp a b ≡ Ordering.eq → cmp a c ≡ cmp b c

pub compare-IsOrder : IsOrder {A = ℕ} compare
compare-IsOrder = record {
  flips = λ a b. ground arith;
  lt_trans = λ a b c p q. ground arith;
  eq_left = λ a b c p. ground arith;
}

compare_less : (a b : ℕ) → a < b → compare a b ≡ Ordering.lt
compare_less a b h = ground arith

compare_more : (a b : ℕ) → b < a → compare a b ≡ Ordering.gt
compare_more a b h = ground arith

compare_same : (a b : ℕ) → a ≡ b → compare a b ≡ Ordering.eq
compare_same a b h = ground arith

less_compare : (a b : ℕ) → compare a b ≡ Ordering.lt → a < b
less_compare a b h = ground arith

same_compare : (a b : ℕ) → compare a b ≡ Ordering.eq → a ≡ b
same_compare a b h = ground arith

compare-mul : (q a b : ℕ) → compare (a * suc q) (b * suc q) ≡ compare a b
compare-mul q a b = ground (
  arith,
  mul-lt-mul_of_pos_right {m = a} {n = b} {k = suc q},
  mul-lt-mul_of_pos_right {m = b} {n = a} {k = suc q},
)

-- a/p < c/q < e/r, multiplied out
scaled_lt_trans :
    (a c e p q r : ℕ)
    → compare (a * suc q) (c * suc p) ≡ Ordering.lt
    → compare (c * suc r) (e * suc q) ≡ Ordering.lt
    → compare (a * suc r) (e * suc p) ≡ Ordering.lt
scaled_lt_trans a c e p q r h k =
    sym (compare-mul q (a * suc r) (e * suc p))
    ∙ compare-IsOrder.lt_trans (a * suc r * suc q) (c * suc p * suc r) (e * suc p * suc q)
        (rw (mul_right_comm a (suc r) (suc q)) (compare-mul r (a * suc q) (c * suc p) ∙ h))
        (rw (mul_right_comm c (suc p) (suc r), mul_right_comm e (suc p) (suc q))
          (compare-mul p (c * suc r) (e * suc q) ∙ k))

scaled_eq_left :
    (a c e p q r : ℕ)
    → compare (a * suc q) (c * suc p) ≡ Ordering.eq
    → compare (a * suc r) (e * suc p) ≡ compare (c * suc r) (e * suc q)
scaled_eq_left a c e p q r h =
    let same : a * suc q ≡ c * suc p = same_compare (a * suc q) (c * suc p) h in
    compare (a * suc r) (e * suc p)
    ≡⟨ sym (compare-mul q (a * suc r) (e * suc p)) ⟩ compare (a * suc r * suc q) (e * suc p * suc q)
    ≡⟨ ap (λ x. compare x (e * suc p * suc q)) (mul_right_comm a (suc r) (suc q)) ⟩
      compare (a * suc q * suc r) (e * suc p * suc q)
    ≡⟨ (rw (same, mul_right_comm c (suc p) (suc r), mul_right_comm e (suc p) (suc q))) ⟩
      compare (c * suc r * suc p) (e * suc q * suc p)
    ≡⟨ compare-mul p (c * suc r) (e * suc q) ⟩ compare (c * suc r) (e * suc q) ∎

scaled_eq_right :
    (a c e p q r : ℕ)
    → compare (c * suc p) (a * suc q) ≡ Ordering.eq
    → compare (e * suc p) (a * suc r) ≡ compare (e * suc q) (c * suc r)
scaled_eq_right a c e p q r h =
    let same = sym (same_compare (c * suc p) (a * suc q) h) in
    compare-IsOrder.flips (a * suc r) (e * suc p)
    ∙ ap flip (scaled_eq_left a c e p q r (compare_same (a * suc q) (c * suc p) same))
    ∙ sym (compare-IsOrder.flips (c * suc r) (e * suc q))

compare_scaled-flip : (x y : ℤ) (p q : ℕ) → compare_scaled y p x q ≡ flip (compare_scaled x q y p)
compare_scaled-flip (pos a) (pos c) p q = ground arith
compare_scaled-flip (pos a) (negsuc c) p q = refl
compare_scaled-flip (negsuc a) (pos c) p q = refl
compare_scaled-flip (negsuc a) (negsuc c) p q = ground arith

compare_scaled_lt_trans :
    (x y z : ℤ) (p q r : ℕ)
    → compare_scaled x (suc q) y (suc p) ≡ Ordering.lt
    → compare_scaled y (suc r) z (suc q) ≡ Ordering.lt
    → compare_scaled x (suc r) z (suc p) ≡ Ordering.lt
compare_scaled_lt_trans (pos a) (pos c) (pos e) p q r h k = scaled_lt_trans a c e p q r h k
compare_scaled_lt_trans (pos a) (pos c) (negsuc e) p q r h k = cc
compare_scaled_lt_trans (pos a) (negsuc c) z p q r h k = cc
compare_scaled_lt_trans (negsuc a) y (pos e) p q r h k = refl
compare_scaled_lt_trans (negsuc a) (pos c) (negsuc e) p q r h k = cc
compare_scaled_lt_trans (negsuc a) (negsuc c) (negsuc e) p q r h k =
    scaled_lt_trans (suc e) (suc c) (suc a) r q p k h

compare_scaled_eq_left :
    (x y z : ℤ) (p q r : ℕ)
    → compare_scaled x (suc q) y (suc p) ≡ Ordering.eq
    → compare_scaled x (suc r) z (suc p) ≡ compare_scaled y (suc r) z (suc q)
compare_scaled_eq_left (pos a) (pos c) (pos e) p q r h = scaled_eq_left a c e p q r h
compare_scaled_eq_left (pos a) (pos c) (negsuc e) p q r h = refl
compare_scaled_eq_left (pos a) (negsuc c) z p q r h = cc
compare_scaled_eq_left (negsuc a) (pos c) z p q r h = cc
compare_scaled_eq_left (negsuc a) (negsuc c) (pos e) p q r h = refl
compare_scaled_eq_left (negsuc a) (negsuc c) (negsuc e) p q r h =
    scaled_eq_right (suc a) (suc c) (suc e) p q r h

pub compare_rat-IsOrder : IsOrder compare_rat
unfolding compare_rat
compare_rat-IsOrder = record {
  flips = λ a b. compare_scaled-flip a.numerator b.numerator (denominator a) (denominator b);
  lt_trans = λ a b c.
      compare_scaled_lt_trans a.numerator b.numerator c.numerator a.less_one b.less_one c.less_one;
  eq_left = λ a b c.
      compare_scaled_eq_left a.numerator b.numerator c.numerator a.less_one b.less_one c.less_one;
}

pub compare_flags-IsOrder : IsOrder compare_flags
compare_flags-IsOrder = record { flips = flips; lt_trans = lt_trans; eq_left = eq_left }
  where
    flips : (a b : Bool) → compare_flags b a ≡ flip (compare_flags a b)
    flips false false = refl
    flips false true = refl
    flips true false = refl
    flips true true = refl

    lt_trans :
        (a b c : Bool)
        → compare_flags a b ≡ Ordering.lt
        → compare_flags b c ≡ Ordering.lt
        → compare_flags a c ≡ Ordering.lt
    lt_trans false b true h k = refl
    lt_trans false false false h k = cc
    lt_trans false true false h k = cc
    lt_trans true false c h k = cc
    lt_trans true true c h k = cc

    eq_left :
        (a b c : Bool) → compare_flags a b ≡ Ordering.eq → compare_flags a c ≡ compare_flags b c
    eq_left false false c h = refl
    eq_left true true c h = refl
    eq_left false true c h = cc
    eq_left true false c h = cc

compare_bytes-flip : (as' bs : Bytes) → compare_bytes bs as' ≡ flip (compare_bytes as' bs)
unfolding compare_bytes
compare_bytes-flip [] [] = refl
compare_bytes-flip [] (b ∷ bs) = refl
compare_bytes-flip (a ∷ as') [] = refl
compare_bytes-flip (a ∷ as') (b ∷ bs) = ground (arith, compare_bytes-flip as' bs)

compare_bytes_eq : (as' bs : Bytes) → compare_bytes as' bs ≡ Ordering.eq → as' ≡ bs
unfolding compare_bytes
compare_bytes_eq [] [] h = refl
compare_bytes_eq [] (b ∷ bs) h = cc
compare_bytes_eq (a ∷ as') [] h = cc
compare_bytes_eq (a ∷ as') (b ∷ bs) h = ground (arith, compare_bytes_eq as' bs)

compare_bytes_lt_trans :
    (as' bs cs : Bytes)
    → compare_bytes as' bs ≡ Ordering.lt
    → compare_bytes bs cs ≡ Ordering.lt
    → compare_bytes as' cs ≡ Ordering.lt
unfolding compare_bytes
compare_bytes_lt_trans [] [] cs h k = cc
compare_bytes_lt_trans [] (b ∷ bs) [] h k = cc
compare_bytes_lt_trans [] (b ∷ bs) (c ∷ cs) h k = refl
compare_bytes_lt_trans (a ∷ as') [] cs h k = cc
compare_bytes_lt_trans (a ∷ as') (b ∷ bs) [] h k = cc
compare_bytes_lt_trans (a ∷ as') (b ∷ bs) (c ∷ cs) h k =
    ground (arith, compare_bytes_lt_trans as' bs cs)

pub compare_bytes-IsOrder : IsOrder compare_bytes
compare_bytes-IsOrder = record {
  flips = compare_bytes-flip;
  lt_trans = compare_bytes_lt_trans;
  eq_left = λ a b c h. ap (λ x. compare_bytes x c) (compare_bytes_eq a b h);
}

-- Two strings compare as equal only if they are.
pub compare_bytes_same : (a b : Bytes) → compare_bytes a b ≡ Ordering.eq → a ≡ b
compare_bytes_same a b h = compare_bytes_eq a b h
