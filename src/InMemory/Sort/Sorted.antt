-- ===== src/InMemory/Sort/Sorted.antt =====
-- What the sort gives, where no two elements compare as equal.
use Prim.Native.Nat.{Ordering}
use mathlib.Core.List.{reverse}
use kubling_providers.Base.{
  ◌≡◌, ◌≢◌, refl, sym, subst, ◌∙◌, ◌⊎◌, inl, inr, List, [], ◌∷◌, In, Result, ok, bind_ok,
  Result-cases, arith, Bool-cases,
}
use kubling_providers.InMemory.Compare.Keys.{IsComparison}
use kubling_providers.InMemory.Sort.{is_less, less_of, insert_back, sort_back, stable_sort}

abbrev pub Sub : {A : Type 0} → List A → List A → Type 0
Sub {A} xs ys = (z : A) → In z xs → In z ys

module _ {F A : Type 0} (cmp : A → A → Result F Ordering) where
  -- All of them are less than `x`.
  abbrev pub Below : A → List A → Type 0
  Below x ys = (z : A) → In z ys → cmp z x ≡ ok Ordering.lt

  abbrev pub Descending : List A → Type 0
  Descending [] = Unit
  Descending (y ∷ ys) = Below y ys × Descending ys

  -- `x` ties with none of them.
  abbrev pub Apart : A → List A → Type 0
  Apart x ys = (z : A) → In z ys → cmp x z ≢ ok Ordering.eq

  abbrev pub Distinct : List A → Type 0
  Distinct [] = Unit
  Distinct (y ∷ ys) = ((z : A) → In z ys → cmp z y ≢ ok Ordering.eq) × Distinct ys

  -- Any two of them compare, the later one with the earlier one.
  abbrev pub Compares : List A → Type 0
  Compares [] = Unit
  Compares (y ∷ ys) = ((z : A) → In z ys → (o : Ordering) × (cmp z y ≡ ok o)) × Compares ys

-- No element stands twice.
abbrev pub Different : {A : Type 0} → List A → Type 0
Different [] = Unit
Different {A} (y ∷ ys) = ((z : A) → In z ys → z ≢ y) × Different ys

module _ {F A : Type 0} (cmp : A → A → Result F Ordering) (law : IsComparison cmp) where
  record Placed (x : A) (ys zs : List A) : Type 0 where
    descending : Descending cmp zs
    within : Sub zs (x ∷ ys)
    covers : Sub (x ∷ ys) zs

  insert_back-Placed :
      (x : A) (ys zs : List A)
      → Descending cmp ys
      → Apart cmp x ys
      → insert_back (less_of cmp) x ys ≡ ok zs
      → Placed x ys zs
  unfolding insert_back
  insert_back-Placed x [] zs d a h =
      let same : x ∷ [] ≡ zs = ground arith in
      rw (← same)
        (record { descending = (λ z e. absurd e, tt); within = λ z e. e; covers = λ z e. e })
  insert_back-Placed x (y ∷ ys) zs d a h = elim (Result-cases (cmp x y)) [
    | inr (e, failed) ↦ absurd (cc (rw (failed, insert_back) at h))
    | inl (Ordering.eq, tie) ↦ absurd (a y (inl refl) tie)
    | inl (Ordering.gt, greater) ↦
        let same : x ∷ y ∷ ys ≡ zs = cc (rw (greater, insert_back) at h) in
        let first : cmp y x ≡ ok Ordering.lt = law.flips x y Ordering.gt greater in
        rw (← same) (record {
          descending = (
            λ z e. elim e [
              | inl q ↦ subst (λ w. cmp w x ≡ ok Ordering.lt) q first
              | inr q ↦ law.lt_trans z y x (d.0 z q) first
            ],
            d,
          );
          within = λ z e. e;
          covers = λ z e. e;
        })
    | inl (Ordering.lt, smaller) ↦
        let more : List A → Result F (List A) = λ rest. ok (y ∷ rest) in
        let (rest, inserted, listed) =
          (bind_ok (insert_back (less_of cmp) x ys) more zs).0 (rw (smaller, insert_back) at h) in
        let p = insert_back-Placed x ys rest d.1 (λ z e. a z (inr e)) inserted in
        let same : y ∷ rest ≡ zs = cc in
        rw (← same) (record {
          descending = (
            λ z e. elim (p.within z e) [
              | inl q ↦ subst (λ w. cmp w y ≡ ok Ordering.lt) q smaller
              | inr q ↦ d.0 z q
            ],
            p.descending,
          );
          within = λ z e. elim e [
            | inl q ↦ inr (inl q)
            | inr q ↦ elim (p.within z q) [ inl r ↦ inl r | inr r ↦ inr (inr r) ]
          ];
          covers = λ z e. elim e [
            | inl q ↦ inr (p.covers z (inl q))
            | inr q ↦ elim q [ inl r ↦ inl r | inr r ↦ inr (p.covers z (inr r)) ]
          ];
        })
  ]

  -- the elements of either list, and no others
  pub record Gathers (done xs result : List A) : Type 0 where
    pub descending : Descending cmp result
    pub from : (z : A) → In z result → In z done ⊎ In z xs
    of_done : Sub done result
    pub of_rest : Sub xs result

  pub sort_back-Gathers :
      (done xs result : List A)
      → Descending cmp done
      → Distinct cmp xs
      → ((x : A) → In x xs → Apart cmp x done)
      → sort_back (less_of cmp) done xs ≡ ok result
      → Gathers done xs result
  unfolding sort_back
  sort_back-Gathers done [] result d k a h =
      let same : done ≡ result = ground arith in
      rw (← same) (record {
        descending = d;
        from = λ z e. inl e;
        of_done = λ z e. e;
        of_rest = λ z e. absurd e;
      })
  sort_back-Gathers done (x ∷ xs) result d k a h =
      let (more, inserted, rest) =
        (bind_ok (insert_back (less_of cmp) x done) (λ more. sort_back (less_of cmp) more xs)
            result).0
          h in
      let p = insert_back-Placed x done more d (a x (inl refl)) inserted in
      let g =
        sort_back-Gathers more xs result p.descending k.1
          (λ z e w f. elim (p.within w f) [
            | inl q ↦ subst (λ v. cmp z v ≢ ok Ordering.eq) q (k.0 z e)
            | inr q ↦ a z (inr e) w q
          ])
          rest in
      record {
        descending = g.descending;
        from = λ z e. elim (g.from z e) [
          | inl q ↦ elim (p.within z q) [ inl r ↦ inr (inl r) | inr r ↦ inl r ]
          | inr q ↦ inr (inr q)
        ];
        of_done = λ z e. g.of_done z (p.covers z (inr e));
        of_rest =
            λ z e. elim e [ inl q ↦ g.of_done z (p.covers z (inl q)) | inr q ↦ g.of_rest z q ];
      }

  insert_back_ok :
      (x : A) (ys : List A)
      → ((z : A) → In z ys → (o : Ordering) × (cmp x z ≡ ok o))
      → (zs : List A) × (insert_back (less_of cmp) x ys ≡ ok zs)
  unfolding insert_back
  insert_back_ok x [] h = (x ∷ [], refl)
  insert_back_ok x (y ∷ ys) h =
      let (o, compared) = h y (inl refl) in
      let (zs, inserted) = insert_back_ok x ys (λ z e. h z (inr e)) in
      elim (Bool-cases (is_less o)) [
        | inl t ↦ (y ∷ zs, rw (compared, insert_back, t, inserted) refl)
        | inr f ↦ (x ∷ y ∷ ys, rw (compared, insert_back, f) refl)
      ]

  sort_back_ok :
      (done xs : List A)
      → Descending cmp done
      → Distinct cmp xs
      → ((x : A) → In x xs → (z : A) → In z done → (o : Ordering) × (cmp x z ≡ ok o))
      → Compares cmp xs
      → ((x : A) → In x xs → Apart cmp x done)
      → (result : List A) × (sort_back (less_of cmp) done xs ≡ ok result)
  unfolding sort_back
  sort_back_ok done [] d k c c' a = (done, refl)
  sort_back_ok done (x ∷ xs) d k c c' a =
      let (more, inserted) = insert_back_ok x done (c x (inl refl)) in
      let p = insert_back-Placed x done more d (a x (inl refl)) inserted in
      let (result, rest) =
        sort_back_ok more xs p.descending k.1
          (λ z e w f. elim (p.within w f) [
            | inl q ↦ subst (λ v. (o : Ordering) × (cmp z v ≡ ok o)) q (c'.0 z e)
            | inr q ↦ c z (inr e) w q
          ])
          c'.1
          (λ z e w f. elim (p.within w f) [
            | inl q ↦ subst (λ v. cmp z v ≢ ok Ordering.eq) q (k.0 z e)
            | inr q ↦ a z (inr e) w q
          ]) in
      (result, rw (inserted, sort_back) rest)

  irreflexive : (x : A) → cmp x x ≢ ok Ordering.lt
  irreflexive x h = cc (law.flips x x Ordering.lt h)

  -- Two descending lists of the same elements are one list.
  Descending-unique :
      (xs ys : List A) → Descending cmp xs → Descending cmp ys → Sub xs ys → Sub ys xs → xs ≡ ys
  Descending-unique [] [] d k s t = refl
  Descending-unique [] (y ∷ ys) d k s t = absurd (t y (inl refl))
  Descending-unique (x ∷ xs) [] d k s t = absurd (s x (inl refl))
  Descending-unique (x ∷ xs) (y ∷ ys) d k s t =
      let heads : x ≡ y = elim (s x (inl refl)) [
        | inl q ↦ sym q
        | inr q ↦ elim (t y (inl refl)) [
          | inl r ↦ r
          | inr r ↦ absurd (irreflexive x (law.lt_trans x y x (k.0 x q) (d.0 y r)))
        ]
      ] in
      let tails =
        Descending-unique xs ys d.1 k.1
          (λ z e. elim (s z (inr e)) [
            | inr q ↦ q
            | inl q ↦
                absurd (
                  irreflexive x (subst (λ w. cmp w x ≡ ok Ordering.lt) (sym (heads ∙ q)) (d.0 z e)))
          ])
          (λ z e. elim (t z (inr e)) [
            | inr q ↦ q
            | inl q ↦ absurd (
                irreflexive y
                  (subst (λ w. cmp w y ≡ ok Ordering.lt) (sym (sym heads ∙ q)) (k.0 z e)))
          ]) in
      cc (heads, tails)

  -- Among descending elements any two compare.
  Descending-compares :
      (xs : List A)
      → Descending cmp xs
      → (x z : A) → In x xs
      → In z xs
      → (x ≡ z) ⊎ ((o : Ordering) × (cmp x z ≡ ok o))
  Descending-compares [] d x z e f = absurd e
  Descending-compares (y ∷ xs) d x z (inl e) (inl f) = inl (sym e ∙ f)
  Descending-compares (y ∷ xs) d x z (inl e) (inr f) =
      inr
        (Ordering.gt, subst (λ w. cmp w z ≡ ok Ordering.gt) e (law.flips z y Ordering.lt (d.0 z f)))
  Descending-compares (y ∷ xs) d x z (inr e) (inl f) =
      inr (Ordering.lt, subst (λ w. cmp x w ≡ ok Ordering.lt) f (d.0 x e))
  Descending-compares (y ∷ xs) d x z (inr e) (inr f) = Descending-compares xs d.1 x z e f

  Compares-of_Descending :
      (xs ys : List A) → Descending cmp ys → Sub xs ys → Different xs → Compares cmp xs
  Compares-of_Descending [] ys d s k = tt
  Compares-of_Descending (x ∷ xs) ys d s k = (
    λ z e. elim (Descending-compares ys d z x (s z (inr e)) (s x (inl refl))) [
      | inl same ↦ absurd (k.0 z e same)
      | inr compared ↦ compared
    ],
    Compares-of_Descending xs ys d (λ z e. s z (inr e)) k.1,
  )

  -- A list that is sorted, and any list of the same elements, are sorted to the same list.
  pub stable_sort_same :
      (xs ys result : List A)
      → Distinct cmp xs
      → Distinct cmp ys
      → Different ys
      → Sub xs ys
      → Sub ys xs
      → stable_sort (less_of cmp) xs ≡ ok result
      → stable_sort (less_of cmp) ys ≡ ok result
  unfolding stable_sort
  stable_sort_same xs ys result k k' n s t h =
      let finish : List A → Result F (List A) = λ done. ok (reverse done) in
      let (done, sorted, reversed) = (bind_ok (sort_back (less_of cmp) [] xs) finish result).0 h in
      let g = sort_back-Gathers [] xs done tt k (λ x e z f. absurd f) sorted in
      let (done', sorted') =
        sort_back_ok [] ys tt k' (λ x e z f. absurd f)
          (Compares-of_Descending ys done g.descending (λ z e. g.of_rest z (t z e)) n)
          (λ x e z f. absurd f) in
      let g' = sort_back-Gathers [] ys done' tt k' (λ x e z f. absurd f) sorted' in
      let same : done ≡ done' =
        Descending-unique done done' g.descending g'.descending
          (λ z e. elim (g.from z e) [ inl q ↦ absurd q | inr q ↦ g'.of_rest z (s z q) ])
          (λ z e. elim (g'.from z e) [ inl q ↦ absurd q | inr q ↦ g.of_rest z (t z q) ]) in
      rw sorted' (rw (← same) reversed)
