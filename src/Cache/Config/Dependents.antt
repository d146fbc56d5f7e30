-- ===== src/Cache/Config/Dependents.antt =====
-- The dependents that the configuration gives one entity.
use kubling_providers.Base.{
  ◌≡◌, ◌≢◌, refl, sym, subst, ◌∙◌, ◌⊎◌, inl, inr, List, [], ◌∷◌, ◌++◌, Option, some, Map, IsMap,
  Bytes, bytes_eq, bytes_beq, bytes_beq_iff, ok, lookup, insert, insert-IsMap, lookup-insert, In,
  In-append, In-append_left, In-append_right, Bool-cases, Option-cases, Result-cases, ok_unique,
  ok_not_err, arith,
}
use kubling_providers.Messages.{EntityReference}
use kubling_providers.Cache.State.{EntitySet}
use kubling_providers.Cache.State.Expand.{dependents_of}
use kubling_providers.Cache.Entities.{normalized_entity_key}
use kubling_providers.Cache.Config.{add_dependents}

-- one entity's dependents
abbrev pub Names : List (Option EntityReference) → Bytes → Type 0
Names refs d =
    (reference : Option EntityReference) × In reference refs
    × (normalized_entity_key reference ≡ ok d)

pub record Adds (entity : Bytes) (refs : List (Option EntityReference))
    (before after : Map Bytes (List Bytes)) : Type 0 where
  pub is_map : IsMap before → IsMap after
  pub others : (e : Bytes) → e ≢ entity → dependents_of after e ≡ dependents_of before e
  pub keeps : (d : Bytes) → In d (dependents_of before entity) → In d (dependents_of after entity)
  pub only :
      (d : Bytes)
      → In d (dependents_of after entity)
      → In d (dependents_of before entity) ⊎ (Names refs d × (d ≢ entity))
  pub all : (d : Bytes) → Names refs d → d ≢ entity → In d (dependents_of after entity)

-- a reference that brings nothing new
Adds-skip :
    (entity : Bytes) (ref : Option EntityReference) (refs : List (Option EntityReference))
    (m after : Map Bytes (List Bytes))
    → ((d : Bytes) → normalized_entity_key ref ≡ ok d → d ≢ entity → In d (dependents_of m entity))
    → Adds entity refs m after
    → Adds entity (ref ∷ refs) m after
Adds-skip entity ref refs m after old a = record {
  is_map = a.is_map;
  others = a.others;
  keeps = a.keeps;
  only = λ d h. elim (a.only d h) [ inl k ↦ inl k | inr ((r, i, p), n) ↦ inr ((r, inr i, p), n) ];
  all = λ d names n. all_names d names n;
}
  where
    all_names : (d : Bytes) → Names (ref ∷ refs) d → d ≢ entity → In d (dependents_of after entity)
    all_names d (r, inl e, p) n =
        a.keeps d (old d (subst (λ x. normalized_entity_key x ≡ ok d) (sym e) p) n)
    all_names d (r, inr i, p) n = a.all d (r, i, p) n

dependents_of-insert :
    (entity e : Bytes) (ds : List Bytes) (m : Map Bytes (List Bytes))
    → ((e ≡ entity) × (dependents_of (insert entity ds m) e ≡ ds))
      ⊎ ((e ≢ entity) × (dependents_of (insert entity ds m) e ≡ dependents_of m e))
dependents_of-insert entity e ds m = elim (Bool-cases (bytes_beq entity e)) [
  | inl same ↦
      inl (sym ((bytes_beq_iff entity e).0 same), ground (arith, lookup-insert entity e ds m))
  | inr ne ↦
      inr (λ p. ground (arith, bytes_beq_iff entity e), ground (arith, lookup-insert entity e ds m))
]

-- a reference to a new dependent
Adds-new :
    (entity : Bytes) (ref : Option EntityReference) (refs : List (Option EntityReference))
    (d : Bytes) (m after : Map Bytes (List Bytes))
    → normalized_entity_key ref ≡ ok d
    → d ≢ entity
    → Adds entity refs (insert entity (dependents_of m entity ++ d ∷ []) m) after
    → Adds entity (ref ∷ refs) m after
Adds-new entity ref refs d m after p apart a = record {
  is_map = λ h. a.is_map (insert-IsMap entity (dependents_of m entity ++ d ∷ []) m h);
  others = λ e n. a.others e n ∙ kept e n;
  keeps = λ x h.
      a.keeps x (subst (In x) (sym mine) (In-append_left x (dependents_of m entity) (d ∷ []) h));
  only = λ x h. first x (a.only x h);
  all = λ x names n. all_names x names n;
}
  where
    kept :
        (e : Bytes)
        → e ≢ entity
        → dependents_of (insert entity (dependents_of m entity ++ d ∷ []) m) e ≡ dependents_of m e
    kept e n = elim (dependents_of-insert entity e (dependents_of m entity ++ d ∷ []) m) [
      | inl (q, _) ↦ absurd (n q)
      | inr (_, q) ↦ q
    ]

    mine :
        dependents_of (insert entity (dependents_of m entity ++ d ∷ []) m) entity
        ≡ dependents_of m entity ++ d ∷ []
    mine = elim (dependents_of-insert entity entity (dependents_of m entity ++ d ∷ []) m) [
      | inl (_, q) ↦ q
      | inr (n, _) ↦ absurd (n refl)
    ]

    first :
        (x : Bytes)
        → In x (dependents_of (insert entity (dependents_of m entity ++ d ∷ []) m) entity)
          ⊎ (Names refs x × (x ≢ entity))
        → In x (dependents_of m entity) ⊎ (Names (ref ∷ refs) x × (x ≢ entity))
    first x (inr ((r, i, q), n)) = inr ((r, inr i, q), n)
    first x (inl h) = elim (In-append x (dependents_of m entity) (d ∷ []) (subst (In x) mine h)) [
      | inl k ↦ inl k
      | inr (inl e) ↦ inr (
        (ref, inl refl, subst (λ y. normalized_entity_key ref ≡ ok y) e p),
        subst (λ y. y ≢ entity) e apart,
      )
      | inr (inr k) ↦ absurd k
    ]

    all_names : (x : Bytes) → Names (ref ∷ refs) x → x ≢ entity → In x (dependents_of after entity)
    all_names x (r, inr i, q) n = a.all x (r, i, q) n
    all_names x (r, inl e, q) n = a.keeps x (
        subst (In x) (sym mine) (
          In-append_right x (dependents_of m entity) (d ∷ []) (
            inl (
              ok_unique (normalized_entity_key ref) d x p
                (subst (λ y. normalized_entity_key y ≡ ok x) (sym e) q)))))

pub add_dependents-Adds :
    (entity : Bytes) (refs : List (Option EntityReference)) (seen : EntitySet)
    (m : Map Bytes (List Bytes))
    → ((d : Bytes) (u : Unit {0}) → lookup d seen ≡ some u → In d (dependents_of m entity))
    → Adds entity refs m (add_dependents entity refs seen m)
unfolding add_dependents
add_dependents-Adds entity [] seen m old = record {
  is_map = λ h. h;
  others = λ e n. refl;
  keeps = λ d h. h;
  only = λ d h. inl h;
  all = λ d names n. absurd names.1;
}
add_dependents-Adds entity (ref ∷ refs) seen m old =
    elim (Result-cases (normalized_entity_key ref)) [
      | inr (x, p) ↦
          rw (p, add_dependents)
            (Adds-skip entity ref refs m _
              (λ d q n. absurd (ok_not_err (normalized_entity_key ref) d x q p))
              (add_dependents-Adds entity refs seen m old))
      | inl (d, p) ↦ elim (Bool-cases (bytes_beq d entity)) [
        | inl self ↦
            rw (p, self, add_dependents)
              (Adds-skip entity ref refs m _
                (λ x q n. absurd (
                  n (
                    ok_unique (normalized_entity_key ref) x d q p
                    ∙ (bytes_beq_iff d entity).0 self)))
                (add_dependents-Adds entity refs seen m old))
        | inr apart ↦ elim (Option-cases (lookup d seen)) [
          | inr (u, again) ↦
              rw (p, apart, again, add_dependents)
                (Adds-skip entity ref refs m _
                  (λ x q n.
                    subst (λ y. In y (dependents_of m entity))
                      (ok_unique (normalized_entity_key ref) d x p q) (old d u again))
                  (add_dependents-Adds entity refs seen m old))
          | inl fresh ↦
              rw (p, apart, fresh, add_dependents)
                (Adds-new entity ref refs d m _ p (λ e. ground (arith, bytes_beq_iff d entity))
                  (add_dependents-Adds entity refs (insert d tt seen)
                    (insert entity (dependents_of m entity ++ d ∷ []) m) (now_seen d)))
        ]
      ]
    ]
  where
    now_seen :
        (d x : Bytes) (u : Unit {0})
        → lookup x (insert d tt seen) ≡ some u
        → In x (dependents_of (insert entity (dependents_of m entity ++ d ∷ []) m) entity)
    now_seen d x u h =
        elim (dependents_of-insert entity entity (dependents_of m entity ++ d ∷ []) m) [
          | inr (n, _) ↦ absurd (n refl)
          | inl (_, q) ↦ subst (In x) (sym q) (elim (Bool-cases (bytes_beq d x)) [
            | inl e ↦
                In-append_right x (dependents_of m entity) (d ∷ []) (inl ((bytes_beq_iff d x).0 e))
            | inr e ↦
                In-append_left x (dependents_of m entity) (d ∷ [])
                  (old x u (ground (arith, lookup-insert d x tt seen)))
          ])
        ]
