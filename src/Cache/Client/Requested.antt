-- ===== src/Cache/Client/Requested.antt =====
-- What a controller's request does to the entities that it names.
use kubling_providers.Base.{
  ℕ, ◌++◌, ◌≡◌, refl, ◌⊎◌, inl, inr, List, [], ◌∷◌, Option, none, some, true, false, IsMap, Bytes,
  bytes_eq, Result, ok, err, Result-cases, In, Bool, arith, ok_unique, decimal, length, sym, ◌∙◌,
  subst, ap,
}
use kubling_providers.Messages.{EntityReference}
use kubling_providers.Cache.State.{CacheState}
use kubling_providers.Cache.State.Expand.{is_empty}
use kubling_providers.Cache.State.Moved.{Moved, invalidate_entities-Moved}
use kubling_providers.Cache.Entities.{
  entity_name_required, EntityError, normalized_entity_key, entity_key, normalized_name,
}
use kubling_providers.Cache.Client.{
  entity_keys, controller_invalidate, ControllerError, context_ended, bad_entity,
}

entity_keys-In :
    (references : List (Option EntityReference)) (keys : List Bytes)
    (reference : Option EntityReference)
    → entity_keys references ≡ ok keys
    → In reference references
    → (key : Bytes) × (normalized_entity_key reference ≡ ok key) × In key keys
unfolding entity_keys
entity_keys-In [] keys reference p i = absurd i
entity_keys-In (x ∷ rest) keys reference p i = elim (Result-cases (normalized_entity_key x)) [
  | inr (e, q) ↦ absurd (ground (arith, q))
  | inl (key, q) ↦ elim (Result-cases (entity_keys rest)) [
    | inr (e, t) ↦ absurd (ground (arith, q, t))
    | inl (others, t) ↦
        let same : key ∷ others ≡ keys = ground (arith, q, t) in
        elim i [
          | inl e ↦
              (key, ap normalized_entity_key (sym e) ∙ q, subst (λ ks. In key ks) same (inl refl))
          | inr j ↦
              let (found, at_key, there) = entity_keys-In rest others reference t j in
              (found, at_key, subst (λ ks. In found ks) same (inr there))
        ]
  ]
]

append-filled : (xs ys : Bytes) (c : ℕ) → is_empty (xs ++ c ∷ ys) ≡ false
append-filled [] ys c = refl
append-filled (x ∷ xs) ys c = refl

key_filled :
    (reference : Option EntityReference) (key : Bytes)
    → normalized_entity_key reference ≡ ok key
    → is_empty key ≡ false
unfolding normalized_entity_key
key_filled none key p = cc
key_filled (some entity) key p = named (normalized_name entity) p
  where
    named :
        (name : Bytes)
        → ◌≡◌ {A = Result EntityError Bytes}
            (elim name [
              | [] ↦ err entity_name_required
              | c ∷ cs ↦ ok (entity_key entity.namespace (c ∷ cs))
            ])
            (ok key)
        → is_empty key ≡ false
    named [] q = cc
    named (c ∷ cs) q =
        subst (λ k. is_empty k ≡ false)
          (ok_unique _ (entity_key entity.namespace (c ∷ cs)) key refl q)
          (unfold entity_key in
            append-filled (decimal (length entity.namespace))
              (entity.namespace ++ 47 ∷ (decimal (length (c ∷ cs)) ++ 58 ∷ c ∷ cs)) 58)

-- Where the dependency map has each key once, a request of the controller is carried out as a whole
-- or not at all: with an error the shared state is as it was, and without one each entity that the
-- request names has a key, and a generation that its cached results are kept under has moved.
pub controller_invalidate-Moved :
    (s : CacheState) (live : Bool) (references : List (Option EntityReference))
    (reference : Option EntityReference)
    → IsMap s.dependencies
    → In reference references
    → ((e : ControllerError) × (controller_invalidate s live references ≡ (s, some e)))
      ⊎ (((controller_invalidate s live references).1 ≡ none)
          × ((key : Bytes) × (normalized_entity_key reference ≡ ok key)
              × Moved s (controller_invalidate s live references).0 key))
unfolding controller_invalidate
controller_invalidate-Moved s false references reference m i = inl (context_ended, refl)
controller_invalidate-Moved s true [] reference m i = absurd i
controller_invalidate-Moved s true (x ∷ rest) reference m i =
    elim (Result-cases (entity_keys (x ∷ rest))) [
      | inr (e, p) ↦ inl (bad_entity e, rw (p, controller_invalidate) refl)
      | inl (keys, p) ↦
          let (key, at_key, there) = entity_keys-In (x ∷ rest) keys reference p i in
          rw (p, controller_invalidate)
            (inr (
              refl,
              (
                key,
                at_key,
                invalidate_entities-Moved s keys key m (key_filled reference key at_key) there,
              ),
            ))
    ]
