-- ===== src/Cache/State/Expand.antt =====
-- The transitive expansion of invalidated entities (sdk-go/provider/cache/state.go,
-- expandEntities): a work queue over the dependency map.
use kubling_providers.Base.{
  ℕ, zero, suc, ◌+◌, List, [], ◌∷◌, ◌++◌, Option, none, some, Bool, true, false, Map, Bytes,
  bytes_eq, lookup, insert, length,
}

abbrev pub or_empty : Option (List Bytes) → List Bytes
or_empty none = []
or_empty (some es) = es

-- `s.dependencies[entity]`
abbrev pub dependents_of : Map Bytes (List Bytes) → Bytes → List Bytes
dependents_of dependencies entity = or_empty (lookup entity dependencies)

abbrev pub is_empty : Bytes → Bool
is_empty [] = true
is_empty (c ∷ cs) = false

unfoldable pub expand_loop :
    Map Bytes (List Bytes) → ℕ → List Bytes → Map Bytes (Unit {0}) → List Bytes → List Bytes
expand_loop dependencies zero queue seen expanded = expanded
expand_loop dependencies (suc fuel) [] seen expanded = expanded
expand_loop dependencies (suc fuel) (entity ∷ queue) seen expanded = elim (is_empty entity) [
  | true ↦ expand_loop dependencies fuel queue seen expanded
  | false ↦ elim (lookup entity seen) [
    | some _ ↦ expand_loop dependencies fuel queue seen expanded
    | none ↦
        expand_loop dependencies fuel (queue ++ dependents_of dependencies entity)
          (insert entity tt seen) (expanded ++ entity ∷ [])
  ]
]

-- the dependents listed for all entities
abbrev pub listed : Map Bytes (List Bytes) → ℕ
listed [] = 0
listed ((k, ds) ∷ m) = length ds + listed m

unfoldable pub expand_from : Map Bytes (List Bytes) → List Bytes → List Bytes
unfolding expand_loop
expand_from dependencies entities =
    expand_loop dependencies (length entities + listed dependencies) entities [] []
