-- ===== src/Cache/Config/Dependencies.antt =====
-- What the normalised configuration holds.
use kubling_providers.Base.{
  ℕ, zero, suc, ◌≤◌, ◌<◌, ◌≡◌, ◌≢◌, refl, sym, subst, ◌⊎◌, inl, inr, List, [], ◌∷◌, Option, some,
  true, Map, IsMap, Bytes, bytes_eq, bytes_beq, bytes_beq_iff, pos, ℤ, negsuc, ok, err, lookup, In,
  Bool-cases, Result-cases, ok_unique, ok_not_err, ltb, ◌↔◌, is_nonpos, arith,
}
use kubling_providers.Messages.{EntityReference}
use kubling_providers.Cache.State.Expand.{dependents_of}
use kubling_providers.Cache.Entities.{EntityError, normalized_entity_key}
use kubling_providers.Cache.Config.Dependents.{Names, Adds, add_dependents-Adds}
use kubling_providers.Cache.Config.{
  default_ttl, default_max_entries, default_max_bytes, default_max_entry_bytes, Dependency, Config,
  or_default, add_dependents, add_dependencies, normalize_dependencies, normalize_config,
}

-- The configuration lists `d` as a dependent of `e`, under their keys, and they differ.
abbrev pub Lists : List Dependency → Bytes → Bytes → Type 0
Lists deps e d =
    (dependency : Dependency) × In dependency deps
    × (normalized_entity_key dependency.entity ≡ ok e)
    × ((reference : Option EntityReference) × In reference dependency.dependents
        × (normalized_entity_key reference ≡ ok d))
    × (d ≢ e)

nothing_seen :
    (m : Map Bytes (List Bytes)) (entity d : Bytes) (u : Unit {0})
    → lookup {V = Unit {0}} d [] ≡ some u
    → In d (dependents_of m entity)
unfolding lookup
nothing_seen m entity d u q = cc

add_dependencies-IsMap :
    (deps : List Dependency) (m : Map Bytes (List Bytes))
    → IsMap m
    → IsMap (add_dependencies deps m)
unfolding add_dependencies
add_dependencies-IsMap [] m h = h
add_dependencies-IsMap (dep ∷ deps) m h = elim (Result-cases (normalized_entity_key dep.entity)) [
  | inr (x, p) ↦ rw (p, add_dependencies) (add_dependencies-IsMap deps m h)
  | inl (e, p) ↦
      rw (p, add_dependencies)
        (add_dependencies-IsMap deps _
          ((add_dependents-Adds e dep.dependents [] m (nothing_seen m e)).is_map h))
]

Lists-later :
    (dep : Dependency) (deps : List Dependency) (e d : Bytes)
    → Lists deps e d
    → Lists (dep ∷ deps) e d
Lists-later dep deps e d (x, i, p, names, n) = (x, inr i, p, names, n)

-- one entity's dependents, seen from any entity
Adds-step :
    (entity : Bytes) (dep : Dependency) (m after : Map Bytes (List Bytes)) (e d : Bytes)
    → normalized_entity_key dep.entity ≡ ok entity
    → Adds entity dep.dependents m after
    → (In d (dependents_of after e) → In d (dependents_of m e) ⊎ Lists (dep ∷ []) e d)
      × (In d (dependents_of m e) → In d (dependents_of after e))
      × (Lists (dep ∷ []) e d → In d (dependents_of after e))
Adds-step entity dep m after e d p a = elim (Bool-cases (bytes_beq entity e)) [
  | inl same ↦
      let q : entity ≡ e = (bytes_beq_iff entity e).0 same in
      subst
        (λ x.
          (In d (dependents_of after x) → In d (dependents_of m x) ⊎ Lists (dep ∷ []) x d)
          × (In d (dependents_of m x) → In d (dependents_of after x))
          × (Lists (dep ∷ []) x d → In d (dependents_of after x)))
        q here
  | inr ne ↦
      let n : e ≢ entity = λ q. ground (arith, bytes_beq_iff entity e) in
      (
        λ h. inl (subst (In d) (a.others e n) h),
        λ h. subst (In d) (sym (a.others e n)) h,
        λ l. absurd (elsewhere n l),
      )
]
  where
    here :
        (In d (dependents_of after entity)
          → In d (dependents_of m entity) ⊎ Lists (dep ∷ []) entity d)
        × (In d (dependents_of m entity) → In d (dependents_of after entity))
        × (Lists (dep ∷ []) entity d → In d (dependents_of after entity))
    here = (
      λ h. elim (a.only d h) [ inl k ↦ inl k | inr (names, n) ↦ inr (dep, inl refl, p, names, n) ],
      a.keeps d,
      listed,
    )
      where
        listed : Lists (dep ∷ []) entity d → In d (dependents_of after entity)
        listed (x, inl q, s, names, n) =
            a.all d (subst (λ (y : Dependency). Names y.dependents d) (sym q) names) n
        listed (x, inr none_left, s, names, n) = absurd none_left

    elsewhere : e ≢ entity → Lists (dep ∷ []) e d → ⊥
    elsewhere n (x, inl q, s, names, _) = n (
        ok_unique (normalized_entity_key dep.entity) e entity
          (subst (λ (y : Dependency). normalized_entity_key y.entity ≡ ok e) (sym q) s) p)
    elsewhere n (x, inr none_left, s, names, _) = none_left

abbrev Collected :
    List Dependency → Map Bytes (List Bytes) → Map Bytes (List Bytes) → Bytes → Bytes → Type 0
Collected deps m after e d =
    (In d (dependents_of after e) → In d (dependents_of m e) ⊎ Lists deps e d)
    × (In d (dependents_of m e) → In d (dependents_of after e))
    × (Lists deps e d → In d (dependents_of after e))

Lists-head :
    (dep : Dependency) (deps : List Dependency) (e d : Bytes)
    → Lists (dep ∷ []) e d
    → Lists (dep ∷ deps) e d
Lists-head dep deps e d (x, inl p, rest, names, n) = (x, inl p, rest, names, n)
Lists-head dep deps e d (x, inr none_left, rest, names, n) = absurd none_left

Lists-split :
    (dep : Dependency) (deps : List Dependency) (e d : Bytes)
    → Lists (dep ∷ deps) e d
    → Lists (dep ∷ []) e d ⊎ Lists deps e d
Lists-split dep deps e d (x, inl p, rest, names, n) = inl (x, inl p, rest, names, n)
Lists-split dep deps e d (x, inr i, rest, names, n) = inr (x, i, rest, names, n)

Lists-no_key :
    (dep : Dependency) (x : EntityError) (e d : Bytes)
    → normalized_entity_key dep.entity ≡ err x
    → ¬ Lists (dep ∷ []) e d
Lists-no_key dep x e d p (y, inl q, s, names, n) =
    ok_not_err (normalized_entity_key dep.entity) e x
      (subst (λ (z : Dependency). normalized_entity_key z.entity ≡ ok e) (sym q) s) p
Lists-no_key dep x e d p (y, inr none_left, s, names, n) = none_left

Collected-skip :
    (dep : Dependency) (deps : List Dependency) (m : Map Bytes (List Bytes)) (x : EntityError)
    (e d : Bytes)
    → normalized_entity_key dep.entity ≡ err x
    → Collected deps m (add_dependencies deps m) e d
    → Collected (dep ∷ deps) m (add_dependencies deps m) e d
Collected-skip dep deps m x e d p c = (
  λ h. elim (c.0 h) [ inl k ↦ inl k | inr l ↦ inr (Lists-later dep deps e d l) ],
  c.1,
  λ l. elim (Lists-split dep deps e d l) [
    | inl one ↦ absurd (Lists-no_key dep x e d p one)
    | inr more ↦ c.2 more
  ],
)

Collected-add :
    (dep : Dependency) (deps : List Dependency) (m m' : Map Bytes (List Bytes)) (e d : Bytes)
    → Collected (dep ∷ []) m m' e d
    → Collected deps m' (add_dependencies deps m') e d
    → Collected (dep ∷ deps) m (add_dependencies deps m') e d
Collected-add dep deps m m' e d a c = (
  λ h. elim (c.0 h) [
    | inr l ↦ inr (Lists-later dep deps e d l)
    | inl k ↦ elim (a.0 k) [ inl j ↦ inl j | inr l ↦ inr (Lists-head dep deps e d l) ]
  ],
  λ h. c.1 (a.1 h),
  λ l. elim (Lists-split dep deps e d l) [ inl one ↦ c.1 (a.2 one) | inr more ↦ c.2 more ],
)

add_dependencies-Collected :
    (deps : List Dependency) (m : Map Bytes (List Bytes)) (e d : Bytes)
    → Collected deps m (add_dependencies deps m) e d
unfolding add_dependencies
add_dependencies-Collected [] m e d = (λ h. inl h, λ h. h, λ l. absurd l.1)
add_dependencies-Collected (dep ∷ deps) m e d =
    elim (Result-cases (normalized_entity_key dep.entity)) [
      | inr (x, p) ↦
          rw (p, add_dependencies)
            (Collected-skip dep deps m x e d p (add_dependencies-Collected deps m e d))
      | inl (entity, p) ↦
          let m' = add_dependents entity dep.dependents [] m in
          rw (p, add_dependencies)
            (Collected-add dep deps m m' e d
              (Adds-step entity dep m m' e d p
                (add_dependents-Adds entity dep.dependents [] m (nothing_seen m entity)))
              (add_dependencies-Collected deps m' e d))
    ]

or_default-pos : (x : ℤ) (d : ℕ) → 0 < d → 0 < or_default x d
or_default-pos (pos zero) d h = h
or_default-pos (pos (suc n)) d h = omega arith
or_default-pos (negsuc n) d h = h

or_default-kept : (x : ℤ) (d : ℕ) → (is_nonpos x ≡ true) ⊎ (x ≡ pos (or_default x d))
or_default-kept (pos zero) d = inl refl
or_default-kept (pos (suc n)) d = inr refl
or_default-kept (negsuc n) d = inl refl

-- The normalised map holds each key once, and lists `d` under `e` exactly if the configuration has
-- `d` among the dependents of an entity with key `e`, both with keys, and `d` is not `e` itself.
pub normalize_dependencies-Lists :
    (deps : List Dependency) (e d : Bytes)
    → IsMap (normalize_dependencies deps)
      × (In d (dependents_of (normalize_dependencies deps) e) ↔ Lists deps e d)
unfolding normalize_dependencies
normalize_dependencies-Lists deps e d =
    let c = add_dependencies-Collected deps [] e d in
    (
      add_dependencies-IsMap deps [] tt,
      (λ h. elim (c.0 h) [ inl k ↦ absurd (no_dependents k) | inr l ↦ l ], c.2),
    )
  where
    no_dependents : In d (dependents_of [] e) → ⊥
    no_dependents k = unfold lookup in k

-- Whatever the configuration, the limits are positive and one entry may not pass the whole cache's
-- byte limit. A positive byte limit is kept, and a positive limit for one entry is kept or cut to the
-- byte limit.
pub normalize_config-bounds :
    (config : Config)
    → (0 < (normalize_config config).ttl)
      × (0 < (normalize_config config).max_entries)
      × (0 < (normalize_config config).max_entry_bytes)
      × ((normalize_config config).max_entry_bytes ≤ (normalize_config config).max_bytes)
      × ((is_nonpos config.max_bytes ≡ true)
          ⊎ (config.max_bytes ≡ pos (normalize_config config).max_bytes))
      × ((is_nonpos config.max_entry_bytes ≡ true)
          ⊎ (config.max_entry_bytes ≡ pos (normalize_config config).max_entry_bytes)
          ⊎ ((normalize_config config).max_entry_bytes ≡ (normalize_config config).max_bytes))
unfolding normalize_config
normalize_config-bounds config = (
  or_default-pos config.ttl default_ttl (omega arith),
  or_default-pos config.max_entries default_max_entries (omega arith),
  ground (
    arith,
    or_default-pos config.max_bytes default_max_bytes (omega arith),
    or_default-pos config.max_entry_bytes default_max_entry_bytes (omega arith),
  ),
  ground arith,
  or_default-kept config.max_bytes default_max_bytes,
  elim (Bool-cases (
      ltb (or_default config.max_bytes default_max_bytes)
        (or_default config.max_entry_bytes default_max_entry_bytes))) [
          | inl e ↦ inr (inr (rw e refl))
          | inr e ↦ elim (or_default-kept config.max_entry_bytes default_max_entry_bytes) [
            | inl n ↦ inl n
            | inr k ↦ inr (inl (rw e k))
          ]
        ],
)
