-- ===== src/Cache/State/Reach.antt =====
-- The work queue ends, and finds exactly the entities that depend on the given ones.
use kubling_providers.Base.{
  ℕ, zero, suc, ◌+◌, ◌≤◌, ◌≡◌, refl, sym, ◌⊎◌, inl, inr, List, [], ◌∷◌, ◌++◌, none, some, false,
  Map, IsMap, Bytes, bytes_eq, bytes_beq, bytes_beq_iff, lookup, insert, lookup-insert, length,
  length-append, In, In-append, In-append_left, In-append_right, Bool-cases, Option-cases, subst,
  arith,
}
use kubling_providers.Cache.State.Expand.{dependents_of, is_empty, listed, expand_loop, expand_from}

-- `e` is one of the roots, or a dependent of an entity that is reached; empty names are passed over.
pub data Reach (dependencies : Map Bytes (List Bytes)) (roots : List Bytes) : Bytes → Type 0 where
  root : (e : Bytes) → In e roots → is_empty e ≡ false → Reach dependencies roots e
  dependent :
      (e d : Bytes)
      → Reach dependencies roots e
      → In d (dependents_of dependencies e)
      → is_empty d ≡ false
      → Reach dependencies roots d

abbrev pub Unique : List Bytes → Type 0
Unique [] = Unit
Unique (x ∷ xs) = (¬ In x xs) × Unique xs

pub record IsExpansion (dependencies : Map Bytes (List Bytes)) (roots es : List Bytes)
    : Type 0 where
  pub sound : (e : Bytes) → In e es → Reach dependencies roots e
  pub complete : (e : Bytes) → Reach dependencies roots e → In e es
  pub unique : Unique es

-- the dependents listed for entities that the loop has not seen
remaining : Map Bytes (List Bytes) → Map Bytes (Unit {0}) → ℕ
remaining [] seen = 0
remaining ((k, ds) ∷ m) seen =
    (elim (lookup k seen) [ none ↦ length ds | some _ ↦ 0 ]) + remaining m seen

remaining-empty : (m : Map Bytes (List Bytes)) → remaining m [] ≡ listed m
unfolding remaining lookup
remaining-empty [] = refl
remaining-empty ((k, ds) ∷ m) = omega (arith, remaining-empty m)

remaining-insert :
    (e : Bytes) (m : Map Bytes (List Bytes)) (seen : Map Bytes (Unit {0}))
    → IsMap m
    → lookup e seen ≡ none
    → remaining m (insert e tt seen) + length (dependents_of m e) ≡ remaining m seen
unfolding remaining lookup
remaining-insert e [] seen h n = omega arith
remaining-insert e ((k, ds) ∷ m) seen h n = ground (
  arith,
  remaining-insert e m seen h.1 n,
  lookup-insert e k tt seen,
  bytes_beq_iff e k,
  bytes_beq_iff k e,
  h.0,
)

module _ (dependencies : Map Bytes (List Bytes)) (roots : List Bytes) where
  record LoopInv (queue : List Bytes) (seen : Map Bytes (Unit {0})) (expanded : List Bytes)
      : Type 0 where
    queue_reach : (e : Bytes) → In e queue → is_empty e ≡ false → Reach dependencies roots e
    expanded_reach : (e : Bytes) → In e expanded → Reach dependencies roots e
    seen_in : (e : Bytes) (u : Unit {0}) → lookup e seen ≡ some u → In e expanded
    not_seen : (e : Bytes) → lookup e seen ≡ none → ¬ In e expanded
    roots_covered : (e : Bytes) → In e roots → is_empty e ≡ false → In e queue ⊎ In e expanded
    dependents_covered :
        (e d : Bytes)
        → In e expanded
        → In d (dependents_of dependencies e)
        → is_empty d ≡ false
        → In d queue ⊎ In d expanded
    unique : Unique expanded

  -- a queued entity that is empty or already there can go
  skip :
      (e : Bytes) (queue : List Bytes) (seen : Map Bytes (Unit {0})) (expanded : List Bytes)
      → (is_empty e ≡ false → In e expanded)
      → LoopInv (e ∷ queue) seen expanded
      → LoopInv queue seen expanded
  skip e queue seen expanded there v = record {
    queue_reach = λ x h. v.queue_reach x (inr h);
    expanded_reach = v.expanded_reach;
    seen_in = v.seen_in;
    not_seen = v.not_seen;
    roots_covered = λ x h n. still x n (v.roots_covered x h n);
    dependents_covered = λ x d h k n. still d n (v.dependents_covered x d h k n);
    unique = v.unique;
  }
    where
      still :
          (x : Bytes)
          → is_empty x ≡ false
          → In x (e ∷ queue) ⊎ In x expanded
          → In x queue ⊎ In x expanded
      still x n (inl (inl p)) =
          inr (subst (λ y. In y expanded) p (there (subst (λ y. is_empty y ≡ false) (sym p) n)))
      still x n (inl (inr h)) = inl h
      still x n (inr h) = inr h

  Unique-append : (e : Bytes) (xs : List Bytes) → Unique xs → ¬ In e xs → Unique (xs ++ e ∷ [])
  Unique-append e [] u n = (λ h. h, tt)
  Unique-append e (x ∷ xs) u n = (apart, Unique-append e xs u.1 (λ h. n (inr h)))
    where
      apart : In x (xs ++ e ∷ []) → ⊥
      apart h = elim (In-append x xs (e ∷ []) h) [
        | inl k ↦ u.0 k
        | inr (inl p) ↦ n (inl (sym p))
        | inr (inr k) ↦ k
      ]

  take_entity :
      (e : Bytes) (queue : List Bytes) (seen : Map Bytes (Unit {0})) (expanded : List Bytes)
      → is_empty e ≡ false
      → lookup e seen ≡ none
      → LoopInv (e ∷ queue) seen expanded
      → LoopInv (queue ++ dependents_of dependencies e) (insert e tt seen) (expanded ++ e ∷ [])
  take_entity e queue seen expanded n fresh v = record {
    queue_reach = λ x h k. elim (In-append x queue (dependents_of dependencies e) h) [
      | inl q ↦ v.queue_reach x (inr q) k
      | inr d ↦ dependent e x e_reach d k
    ];
    expanded_reach = λ x h. elim (In-append x expanded (e ∷ []) h) [
      | inl q ↦ v.expanded_reach x q
      | inr (inl p) ↦ subst (Reach dependencies roots) p e_reach
      | inr (inr k) ↦ absurd k
    ];
    seen_in = λ x u h. elim (Bool-cases (bytes_beq e x)) [
      | inl same ↦ In-append_right x expanded (e ∷ []) (inl ((bytes_beq_iff e x).0 same))
      | inr ne ↦
          In-append_left x expanded (e ∷ [])
            (v.seen_in x u (ground (arith, lookup-insert e x tt seen)))
    ];
    not_seen = λ x h k. elim (In-append x expanded (e ∷ []) k) [
      | inl q ↦ v.not_seen x (ground (arith, lookup-insert e x tt seen)) q
      | inr (inl p) ↦ ground (arith, lookup-insert e x tt seen, bytes_beq_iff e x)
      | inr (inr none_left) ↦ none_left
    ];
    roots_covered = λ x h k. moved x (v.roots_covered x h k);
    dependents_covered = λ x d h k m. elim (In-append x expanded (e ∷ []) h) [
      | inl q ↦ moved d (v.dependents_covered x d q k m)
      | inr (inl p) ↦ inl (
          In-append_right d queue (dependents_of dependencies e)
            (subst (λ y. In d (dependents_of dependencies y)) (sym p) k))
      | inr (inr none_left) ↦ absurd none_left
    ];
    unique = Unique-append e expanded v.unique (v.not_seen e fresh);
  }
    where
      e_reach : Reach dependencies roots e
      e_reach = v.queue_reach e (inl refl) n

      moved :
          (x : Bytes)
          → In x (e ∷ queue) ⊎ In x expanded
          → In x (queue ++ dependents_of dependencies e) ⊎ In x (expanded ++ e ∷ [])
      moved x (inl (inl p)) = inr (In-append_right x expanded (e ∷ []) (inl p))
      moved x (inl (inr h)) = inl (In-append_left x queue (dependents_of dependencies e) h)
      moved x (inr h) = inr (In-append_left x expanded (e ∷ []) h)

  finished :
      (seen : Map Bytes (Unit {0})) (expanded : List Bytes)
      → LoopInv [] seen expanded
      → IsExpansion dependencies roots expanded
  finished seen expanded v = record {
    sound = v.expanded_reach;
    complete = covered;
    unique = v.unique;
  }
    where
      settled : (x : Bytes) → In x [] ⊎ In x expanded → In x expanded
      settled x (inl h) = absurd h
      settled x (inr h) = h

      covered : (x : Bytes) → Reach dependencies roots x → In x expanded
      covered x (root x' h n) = settled x (v.roots_covered x h n)
      covered x (dependent e x' r h n) = settled x (v.dependents_covered e x (covered e r) h n)

  expand_loop-IsExpansion :
      (fuel : ℕ) (queue : List Bytes) (seen : Map Bytes (Unit {0})) (expanded : List Bytes)
      → IsMap dependencies
      → length queue + remaining dependencies seen ≤ fuel
      → LoopInv queue seen expanded
      → IsExpansion dependencies roots (expand_loop dependencies fuel queue seen expanded)
  unfolding expand_loop
  expand_loop-IsExpansion zero [] seen expanded m h v = finished seen expanded v
  expand_loop-IsExpansion zero (e ∷ queue) seen expanded m h v = absurd (omega arith)
  expand_loop-IsExpansion (suc fuel) [] seen expanded m h v = finished seen expanded v
  expand_loop-IsExpansion (suc fuel) (e ∷ queue) seen expanded m h v =
      elim (Bool-cases (is_empty e)) [
        | inl empty ↦
            rw (empty, expand_loop)
              (expand_loop-IsExpansion fuel queue seen expanded m (omega arith)
                (skip e queue seen expanded (λ n. ground arith) v))
        | inr named ↦ elim (Option-cases (lookup e seen)) [
          | inl fresh ↦
              rw (named, fresh, expand_loop)
                (expand_loop-IsExpansion fuel (queue ++ dependents_of dependencies e)
                  (insert e tt seen) (expanded ++ e ∷ []) m
                  (omega (
                    arith,
                    length-append queue (dependents_of dependencies e),
                    remaining-insert e dependencies seen m fresh,
                  ))
                  (take_entity e queue seen expanded named fresh v))
          | inr (u, old) ↦
              rw (named, old, expand_loop)
                (expand_loop-IsExpansion fuel queue seen expanded m (omega arith)
                  (skip e queue seen expanded (λ _. v.seen_in e u old) v))
        ]
      ]

-- Of any dependency map with each key once, cyclic ones included, the expansion of `roots` ends with
-- its queue empty: it holds the nonempty roots and all their transitive dependents, nothing else,
-- each once.
pub expand_from-IsExpansion :
    (dependencies : Map Bytes (List Bytes)) (roots : List Bytes)
    → IsMap dependencies
    → IsExpansion dependencies roots (expand_from dependencies roots)
unfolding expand_from
expand_from-IsExpansion dependencies roots m =
    expand_loop-IsExpansion dependencies roots (length roots + listed dependencies) roots [] [] m
      (omega (arith, remaining-empty dependencies))
      (unfold lookup in
        record {
          queue_reach = root;
          expanded_reach = λ e h. absurd h;
          seen_in = λ e u h. cc;
          not_seen = λ e h k. k;
          roots_covered = λ e h n. inl h;
          dependents_covered = λ e d h k n. absurd h;
          unique = tt;
        })
