-- ===== src/InMemory/Sort/Ascending.antt =====
-- The order of a sorted list, where no two elements compare as equal.
use Prim.Native.Nat.{Ordering}
use mathlib.Core.List.{reverse, reverse_aux}
use kubling_providers.Base.{◌≡◌, refl, ◌⊎◌, inl, inr, List, [], ◌∷◌, In, Result, ok, bind_ok, subst}
use kubling_providers.InMemory.Compare.Keys.{IsComparison}
use kubling_providers.InMemory.Sort.{less_of, sort_back, stable_sort}
use kubling_providers.InMemory.Sort.Sorted.{Sub, Descending, Distinct, sort_back-Gathers}

In-reverse_aux :
    {A : Type 0} (z : A) (xs acc : List A) → In z (reverse_aux xs acc) → In z xs ⊎ In z acc
In-reverse_aux z [] acc h = inr h
In-reverse_aux z (x ∷ xs) acc h = elim (In-reverse_aux z xs (x ∷ acc) h) [
  | inl i ↦ inl (inr i)
  | inr (inl e) ↦ inl (inl e)
  | inr (inr i) ↦ inr i
]

In-of_reverse_aux :
    {A : Type 0} (z : A) (xs acc : List A) → In z xs ⊎ In z acc → In z (reverse_aux xs acc)
In-of_reverse_aux z [] acc (inl h) = absurd h
In-of_reverse_aux z [] acc (inr h) = h
In-of_reverse_aux z (x ∷ xs) acc (inl (inl e)) = In-of_reverse_aux z xs (x ∷ acc) (inr (inl e))
In-of_reverse_aux z (x ∷ xs) acc (inl (inr i)) = In-of_reverse_aux z xs (x ∷ acc) (inl i)
In-of_reverse_aux z (x ∷ xs) acc (inr i) = In-of_reverse_aux z xs (x ∷ acc) (inr (inr i))

module _ {F A : Type 0} (cmp : A → A → Result F Ordering) where
  -- Each is less than those after it.
  abbrev pub Ascending : List A → Type 0
  Ascending [] = Unit
  Ascending (y ∷ ys) = ((z : A) → In z ys → cmp y z ≡ ok Ordering.lt) × Ascending ys

  reverse_aux-Ascending :
      (xs acc : List A)
      → Descending cmp xs
      → Ascending acc
      → ((x z : A) → In x xs → In z acc → cmp x z ≡ ok Ordering.lt)
      → Ascending (reverse_aux xs acc)
  reverse_aux-Ascending [] acc d a h = a
  reverse_aux-Ascending (x ∷ xs) acc d a h =
      reverse_aux-Ascending xs (x ∷ acc) d.1 ((λ z i. h x z (inl refl) i), a)
        (λ y z i j. elim j [
          | inl e ↦ subst (λ w. cmp y w ≡ ok Ordering.lt) e (d.0 y i)
          | inr k ↦ h y z (inr i) k
        ])

  -- The same elements, in ascending order.
  pub record Sorts (xs result : List A) : Type 0 where
    pub ascending : Ascending result
    pub within : Sub result xs
    pub covers : Sub xs result

  pub stable_sort-Sorts :
      (xs result : List A)
      → IsComparison cmp
      → Distinct cmp xs
      → stable_sort (less_of cmp) xs ≡ ok result
      → Sorts xs result
  unfolding stable_sort
  stable_sort-Sorts xs result law k h =
      let finish : List A → Result F (List A) = λ done. ok (reverse done) in
      let (done, sorted, reversed) = (bind_ok (sort_back (less_of cmp) [] xs) finish result).0 h in
      let g = sort_back-Gathers cmp law [] xs done tt k (λ x e z f. absurd f) sorted in
      let same : reverse done ≡ result = cc in
      subst (Sorts xs) same (record {
        ascending = reverse_aux-Ascending done [] g.descending tt (λ x z i j. absurd j);
        within = λ z i. elim (In-reverse_aux z done [] i) [
          | inr e ↦ absurd e
          | inl j ↦ elim (g.from z j) [ inl e ↦ absurd e | inr e ↦ e ]
        ];
        covers = λ z i. In-of_reverse_aux z done [] (inl (g.of_rest z i));
      })
