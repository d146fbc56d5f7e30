-- ===== src/Server/Registry/Steps.antt =====
-- The registry's steps, in any interleaving, and what they keep.
use kubling_providers.Base.{
  ℕ, zero, suc, ◌-◌, ◌<◌, ◌≡◌, refl, ap, subst, inl, inr, List, [], ◌∷◌, ◌++◌, none, some, true,
  false, Bytes, bytes_eq, lookup, insert, length, get_elem?, All, All-append, All-get_elem?,
  Option-cases, Bool-cases, arith,
}
use kubling_providers.Server.Registry.{
  ManagedConnection, Registry, new_registry, fresh_connection, add, update, hold, release, take_out,
  take_all, close_managed,
}

-- One operation's turn under a lock. A release is called by a holder, and the exclusive lock is taken
-- only where nobody holds the connection; the number is one that was found, now or earlier.
pub data Step (r : Registry) : Registry → Type 0 where
  adds : (id : Bytes) (r' : Registry) → add r id ≡ some r' → Step r r'
  holds : (n : ℕ) → Step r (hold r n).0
  releases :
      (n : ℕ) (c : ManagedConnection)
      → get_elem? r.managed n ≡ some c
      → 0 < c.holders
      → Step r (release r n)
  takes_out : (id : Bytes) → Step r (take_out r id).0
  takes_all : Step r (take_all r).0
  closes :
      (n : ℕ) (c : ManagedConnection)
      → get_elem? r.managed n ≡ some c
      → c.holders ≡ 0
      → Step r (close_managed r n)

-- any number of steps
pub data Steps (r : Registry) : Registry → Type 0 where
  start : Steps r r
  next : (s t : Registry) → Steps r s → Step s t → Steps r t

-- The provider's connection is closed at most once, and nobody holds it from then on.
pub record IsSound (c : ManagedConnection) : Type 0 where
  pub open_count : c.closed ≡ false → c.closings ≡ 0
  pub closed_count : c.closed ≡ true → c.closings ≡ 1
  pub closed_free : c.closed ≡ true → c.holders ≡ 0

All-update :
    (P : ManagedConnection → Type 0) (n : ℕ) (c : ManagedConnection) (xs : List ManagedConnection)
    → All P xs
    → P c
    → All P (update n c xs)
unfolding update
All-update P n c [] v p = tt
All-update P zero c (x ∷ xs) v p = (p, v.1)
All-update P (suc n) c (x ∷ xs) v p = (v.0, All-update P n c xs v.1 p)

pub length-update :
    (n : ℕ) (c : ManagedConnection) (xs : List ManagedConnection)
    → length (update n c xs) ≡ length xs
unfolding update
length-update n c [] = refl
length-update zero c (x ∷ xs) = refl
length-update (suc n) c (x ∷ xs) = omega (arith, length-update n c xs)

fresh-IsSound : IsSound fresh_connection
fresh-IsSound = record { open_count = λ p. refl; closed_count = λ p. cc; closed_free = λ p. refl }

pub added :
    (r : Registry) (id : Bytes) (s : Registry)
    → lookup id r.connections ≡ none
    → add r id ≡ some s
    → record {
      connections = insert id (length r.managed) r.connections;
      managed = r.managed ++ fresh_connection ∷ [];
    }
      ≡ s
unfolding add
added r id s e p = ground (arith, e, p)

Step-IsSound :
    (r : Registry) {s : Registry} → All IsSound r.managed → Step r s → All IsSound s.managed
unfolding add hold release take_out take_all close_managed
Step-IsSound r v (adds id r' p) = elim (Option-cases (lookup id r.connections)) [
  | inr (n, e) ↦ absurd (ground (arith, e, p))
  | inl e ↦
      subst (λ x. All IsSound x.managed) (added r id r' e p)
        (All-append IsSound r.managed (fresh_connection ∷ []) v (fresh-IsSound, tt))
]
Step-IsSound r v (holds n) = elim (Option-cases (get_elem? r.managed n)) [
  | inl e ↦ rw (e, hold) v
  | inr (c, e) ↦ elim (Bool-cases c.closed) [
    | inl shut ↦ rw (e, shut, hold) v
    | inr live ↦
        let sound = All-get_elem? IsSound r.managed n c v e in
        rw (e, live, hold)
          (All-update IsSound n
            (record { closed = false; holders = suc c.holders; closings = c.closings }) r.managed v
            (record {
              open_count = λ p. sound.open_count live;
              closed_count = λ p. cc;
              closed_free = λ p. cc;
            }))
  ]
]
Step-IsSound r v (releases n c e held) =
    let sound = All-get_elem? IsSound r.managed n c v e in
    rw (e, release)
      (All-update IsSound n (record c { holders = c.holders - 1 }) r.managed v
        (record {
          open_count = sound.open_count;
          closed_count = sound.closed_count;
          closed_free = λ p. omega (arith, sound.closed_free p);
        }))
Step-IsSound r v (takes_out id) = elim (Option-cases (lookup id r.connections)) [
  | inl e ↦ rw (e, take_out) v
  | inr (n, e) ↦ rw (e, take_out) v
]
Step-IsSound r v takes_all = v
Step-IsSound r v (closes n c e free) = elim (Bool-cases c.closed) [
  | inl shut ↦ rw (e, shut, close_managed) v
  | inr live ↦
      let sound = All-get_elem? IsSound r.managed n c v e in
      rw (e, live, close_managed)
        (All-update IsSound n (record c { closed = true; closings = suc c.closings }) r.managed v
          (record {
            open_count = λ p. cc;
            closed_count = λ p. ap suc (sound.open_count live);
            closed_free = λ p. free;
          }))
]

Steps-IsSound :
    (r : Registry) {s : Registry} → All IsSound r.managed → Steps r s → All IsSound s.managed
Steps-IsSound r v start = v
Steps-IsSound r v (next s t before step) = Step-IsSound s (Steps-IsSound r v before) step

-- In every interleaving of the registry's operations from a new registry on, each connection of the
-- provider is closed at most once, and no operation holds it from then on.
pub registry-IsSound : (r : Registry) → Steps new_registry r → All IsSound r.managed
unfolding new_registry
registry-IsSound r steps = Steps-IsSound new_registry tt steps
