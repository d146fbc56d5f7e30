-- ===== src/InMemory/Grouped/Joined.antt =====
-- How a row joins the groups of an aggregate query (groupAggregateRows,
-- providers/inmemory/aggregate.go).
use kubling_providers.Base.{
  ◌≡◌, ◌≢◌, refl, sym, ◌∙◌, ap, ◌⊎◌, inl, inr, true, false, List, [], ◌∷◌, ◌++◌, Bytes, bytes_beq,
  bytes_eq, bytes_beq_iff, In, Bool-cases, arith, if◌then◌else◌,
}
use kubling_providers.InMemory.Model.{EntityRow}
use kubling_providers.InMemory.Query.Planned.{Separate}
use kubling_providers.InMemory.Grouped.{Group, add_to_group}

abbrev pub group_key : Group → Bytes
group_key g = g.key

-- The rows of the group with this key.
unfoldable pub rows_of : Bytes → List Group → List EntityRow
rows_of k [] = []
rows_of k (g ∷ gs) = if bytes_beq g.key k then g.rows else rows_of k gs

pub rows_of-add :
    (j k : Bytes) (row : EntityRow) (gs : List Group)
    → rows_of j (add_to_group k row gs)
      ≡ (if bytes_beq k j then rows_of j gs ++ row ∷ [] else rows_of j gs)
unfolding rows_of add_to_group
rows_of-add j k row [] = refl
rows_of-add j k row (g ∷ gs) =
    ground (
      arith,
      rows_of-add j k row gs,
      bytes_beq_iff g.key k,
      bytes_beq_iff g.key j,
      bytes_beq_iff k j,
    )

In-add :
    (k : Bytes) (row : EntityRow) (gs : List Group) (g : Group)
    → In g (add_to_group k row gs)
    → ((g.key ≡ k) ⊎ ((h : Group) × In h gs × (h.key ≡ g.key)))
unfolding add_to_group
In-add k row [] g (inl e) = inl (sym (ap group_key e))
In-add k row [] g (inr i) = absurd i
In-add k row (h ∷ gs) g i = elim (Bool-cases (bytes_beq h.key k)) [
  | inl hit ↦ elim (rw (hit, add_to_group) at i) [
    | inl e ↦ inr (h, inl refl, ap group_key e)
    | inr j ↦ inr (g, inr j, refl)
  ]
  | inr miss ↦ elim (rw (miss, add_to_group) at i) [
    | inl e ↦ inr (h, inl refl, ap group_key e)
    | inr j ↦ elim (In-add k row gs g j) [ inl e ↦ inl e | inr (u, here, e) ↦ inr (u, inr here, e) ]
  ]
]

miss_hit : (j k : Bytes) → bytes_beq j k ≡ false → j ≡ k → ⊥
miss_hit j k miss e = ground (arith, bytes_beq_iff j k)

pub add-Separate :
    (k : Bytes) (row : EntityRow) (gs : List Group)
    → Separate group_key gs
    → Separate group_key (add_to_group k row gs)
unfolding add_to_group
add-Separate k row [] s = ((λ z e. absurd e), tt)
add-Separate k row (g ∷ gs) s = elim (Bool-cases (bytes_beq g.key k)) [
  | inl hit ↦ rw (hit, add_to_group) s
  | inr miss ↦
      rw (miss, add_to_group)
        (
          λ z i e. elim (In-add k row gs z i) [
            | inl q ↦ absurd (miss_hit g.key k miss (sym e ∙ q))
            | inr (u, here, q) ↦ s.0 u here (q ∙ e)
          ],
          add-Separate k row gs s.1,
        )
]

abbrev pub Filled : List Group → Type 0
Filled gs = (g : Group) → In g gs → g.rows ≢ []

not_empty : (xs : List EntityRow) (row : EntityRow) → xs ++ row ∷ [] ≡ [] → ⊥
not_empty [] row e = cc
not_empty (x ∷ xs) row e = cc

pub add-Filled :
    (k : Bytes) (row : EntityRow) (gs : List Group) → Filled gs → Filled (add_to_group k row gs)
unfolding add_to_group
add-Filled k row [] f g (inl e) q = not_empty [] row (ap (λ h. h.rows) e ∙ q)
add-Filled k row [] f g (inr i) q = absurd i
add-Filled k row (h ∷ gs) f g i q = elim (Bool-cases (bytes_beq h.key k)) [
  | inl hit ↦ elim (rw (hit, add_to_group) at i) [
    | inl e ↦ not_empty h.rows row (ap (λ h. h.rows) e ∙ q)
    | inr j ↦ f g (inr j) q
  ]
  | inr miss ↦ elim (rw (miss, add_to_group) at i) [
    | inl e ↦ f g (inl e) q
    | inr j ↦ add-Filled k row gs (λ g i. f g (inr i)) g j q
  ]
]

pub rows_of-In :
    (k : Bytes) (gs : List Group) → rows_of k gs ≢ [] → (g : Group) × In g gs × (g.key ≡ k)
unfolding rows_of
rows_of-In k [] h = absurd (h refl)
rows_of-In k (g ∷ gs) h = elim (Bool-cases (bytes_beq g.key k)) [
  | inl hit ↦ (g, inl refl, (bytes_beq_iff g.key k).0 hit)
  | inr miss ↦ let (u, here, e) = rows_of-In k gs (λ q. h (rw miss q)) in (u, inr here, e)
]

pub rows_of_own :
    (g : Group) (gs : List Group) → Separate group_key gs → In g gs → rows_of g.key gs ≡ g.rows
unfolding rows_of
rows_of_own g [] s i = absurd i
rows_of_own g (h ∷ gs) s (inl e) =
    let hit : bytes_beq h.key g.key ≡ true = (bytes_beq_iff h.key g.key).1 (ap group_key e) in
    rw hit (ap (λ h. h.rows) e)
rows_of_own g (h ∷ gs) s (inr i) = elim (Bool-cases (bytes_beq h.key g.key)) [
  | inl hit ↦ absurd (s.0 g i (sym ((bytes_beq_iff h.key g.key).0 hit)))
  | inr miss ↦ rw miss (rows_of_own g gs s.1 i)
]
