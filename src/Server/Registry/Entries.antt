-- ===== src/Server/Registry/Entries.antt =====
-- Which identifiers find which connections.
use kubling_providers.Base.{
  ℕ, ◌≤◌, ◌<◌, ◌≡◌, ◌≢◌, refl, sym, ap, subst, ◌∙◌, ◌⊎◌, inl, inr, [], ◌∷◌, ◌++◌, some, Bytes,
  bytes_eq, bytes_beq, bytes_beq_iff, lookup, insert, lookup-insert, lookup-delete, length,
  length-append, get_elem?, Option-cases, Bool-cases, arith,
}
use kubling_providers.Server.Registry.{
  Registry, new_registry, fresh_connection, add, find, hold, release, take_out, take_all,
  close_managed,
}
use kubling_providers.Server.Registry.Steps.{
  Step, adds, holds, releases, takes_out, takes_all, closes, Steps, start, next, length-update,
  added,
}

-- An entry's connection is there, and no two identifiers share one.
record IsTidy (r : Registry) : Type 0 where
  there : (id : Bytes) (n : ℕ) → find r id ≡ some n → n < length r.managed
  own : (id other : Bytes) (n : ℕ) → find r id ≡ some n → find r other ≡ some n → id ≡ other

-- What a step does to the entries: none is new but one for a new connection.
record Keeps (r s : Registry) : Type 0 where
  grows : length r.managed ≤ length s.managed
  from : (id : Bytes) (n : ℕ) → find s id ≡ some n → (find r id ≡ some n) ⊎ (length r.managed ≤ n)
  tidy : IsTidy r → IsTidy s

same_entries :
    (r s : Registry)
    → r.connections ≡ s.connections
    → length r.managed ≡ length s.managed
    → Keeps r s
same_entries r s p q = record {
  grows = omega (arith, q);
  from = λ id n h. inl (subst (λ m. lookup id m ≡ some n) (sym p) h);
  tidy = λ v. record {
    there = λ id n h. omega (arith, q, v.there id n (subst (λ m. lookup id m ≡ some n) (sym p) h));
    own = λ id other n h k.
        v.own id other n (subst (λ m. lookup id m ≡ some n) (sym p) h)
          (subst (λ m. lookup other m ≡ some n) (sym p) k);
  };
}

-- The entries of `s` are some of those of `r`.
fewer_entries :
    (r s : Registry)
    → length r.managed ≡ length s.managed
    → ((id : Bytes) (n : ℕ) → find s id ≡ some n → find r id ≡ some n)
    → Keeps r s
fewer_entries r s q sub = record {
  grows = omega (arith, q);
  from = λ id n h. inl (sub id n h);
  tidy = λ v. record {
    there = λ id n h. omega (arith, q, v.there id n (sub id n h));
    own = λ id other n h k. v.own id other n (sub id n h) (sub other n k);
  };
}

abbrev with_entry : Registry → Bytes → Registry
with_entry r id = record {
  connections = insert id (length r.managed) r.connections;
  managed = r.managed ++ fresh_connection ∷ [];
}

entry_either :
    (r : Registry) (id other : Bytes) (n : ℕ)
    → find (with_entry r id) other ≡ some n
    → ((id ≡ other) × (length r.managed ≡ n)) ⊎ (find r other ≡ some n)
entry_either r id other n h = elim (Bool-cases (bytes_beq id other)) [
  | inl same ↦ inl (
    (bytes_beq_iff id other).0 same,
    ground (arith, lookup-insert id other (length r.managed) r.connections),
  )
  | inr apart ↦ inr (ground (arith, lookup-insert id other (length r.managed) r.connections))
]

add-Keeps : (r : Registry) (id : Bytes) → Keeps r (with_entry r id)
add-Keeps r id = record {
  grows = omega (arith, length-append r.managed (fresh_connection ∷ []));
  from = λ other n h. elim (entry_either r id other n h) [
    | inl (same, at) ↦ inr (omega arith)
    | inr old ↦ inl old
  ];
  tidy = λ v. record {
    there = λ other n h. elim (entry_either r id other n h) [
      | inl (same, at) ↦ omega (arith, length-append r.managed (fresh_connection ∷ []))
      | inr old ↦
          omega (arith, length-append r.managed (fresh_connection ∷ []), v.there other n old)
    ];
    own = λ x y n h k. elim (entry_either r id x n h) [
      | inl (same, at) ↦ elim (entry_either r id y n k) [
        | inl (also, there) ↦ sym same ∙ also
        | inr old ↦ absurd (omega (arith, v.there y n old))
      ]
      | inr old ↦ elim (entry_either r id y n k) [
        | inl (also, there) ↦ absurd (omega (arith, v.there x n old))
        | inr other ↦ v.own x y n old other
      ]
    ];
  };
}

empty_find : (id : Bytes) (n : ℕ) → lookup {V = ℕ} id [] ≡ some n → ⊥
unfolding lookup
empty_find id n h = cc

Step-Keeps : (r : Registry) {s : Registry} → Step r s → Keeps r s
unfolding hold release take_out take_all close_managed
Step-Keeps r (adds id r' p) = elim (Option-cases (lookup id r.connections)) [
  | inr (n, e) ↦ absurd (unfold add in ground (arith, e, p))
  | inl e ↦ subst (Keeps r) (added r id r' e p) (add-Keeps r id)
]
Step-Keeps r (holds n) = elim (Option-cases (get_elem? r.managed n)) [
  | inl e ↦ rw (e, hold) (same_entries r r refl refl)
  | inr (c, e) ↦ elim (Bool-cases c.closed) [
    | inl shut ↦ rw (e, shut, hold) (same_entries r r refl refl)
    | inr live ↦ rw (e, live, hold) (same_entries r _ refl (sym (length-update n _ r.managed)))
  ]
]
Step-Keeps r (releases n c e held) =
    rw (e, release) (same_entries r _ refl (sym (length-update n _ r.managed)))
Step-Keeps r (takes_out id) = elim (Option-cases (lookup id r.connections)) [
  | inl e ↦ rw (e, take_out) (same_entries r r refl refl)
  | inr (n, e) ↦
      rw (e, take_out)
        (fewer_entries r _ refl
          (λ other m h. ground (arith, lookup-delete id other r.connections, h)))
]
Step-Keeps r takes_all =
    fewer_entries r (record r { connections = [] }) refl (λ id n h. absurd (empty_find id n h))
Step-Keeps r (closes n c e free) = elim (Bool-cases c.closed) [
  | inl shut ↦ rw (e, shut, close_managed) (same_entries r r refl refl)
  | inr live ↦
      rw (e, live, close_managed) (same_entries r _ refl (sym (length-update n _ r.managed)))
]

Steps-IsTidy : (r : Registry) {s : Registry} → IsTidy r → Steps r s → IsTidy s
Steps-IsTidy r v start = v
Steps-IsTidy r v (next s t before step) = (Step-Keeps s step).tidy (Steps-IsTidy r v before)

-- A connection that no entry has stays without one.
abbrev Gone : Registry → ℕ → Type 0
Gone r n = (n < length r.managed) × ((id : Bytes) → find r id ≢ some n)

Steps-Gone : (r : Registry) (n : ℕ) {s : Registry} → Gone r n → Steps r s → Gone s n
Steps-Gone r n g start = g
Steps-Gone r n g (next s t before step) =
    let (small, none_there) = Steps-Gone r n g before in
    let k = Step-Keeps s step in
    (
      omega (arith, k.grows),
      λ id h. elim (k.from id n h) [
        | inl old ↦ none_there id old
        | inr later ↦ absurd (omega arith)
      ],
    )

take_out-Gone :
    (r : Registry) (id : Bytes) (n : ℕ)
    → IsTidy r
    → (take_out r id).1 ≡ some n
    → Gone (take_out r id).0 n
unfolding take_out
take_out-Gone r id n v p = elim (Option-cases (lookup id r.connections)) [
  | inl e ↦ absurd (ground (arith, e, p))
  | inr (m, e) ↦
      let same : m ≡ n = ground (arith, e, p) in
      rw (e, take_out)
        (
          omega (arith, v.there id m e),
          λ other h.
              let kept : find r other ≡ some n =
                ground (arith, lookup-delete id other r.connections, h) in
              let id_is : id ≡ other = v.own id other n (e ∙ ap some same) kept in
              ground (arith, lookup-delete id other r.connections, h, bytes_beq_iff id other),
        )
]

new-IsTidy : IsTidy new_registry
unfolding new_registry lookup
new-IsTidy = record {
  there = λ id n h. absurd (ground arith);
  own = λ id other n h k. absurd (ground arith);
}

-- In every interleaving from a new registry on, once a connection is taken out to be closed, no
-- identifier ever finds it again, whatever operations come after.
pub taken_out_gone :
    (r : Registry) (id : Bytes) (n : ℕ) (s : Registry) (other : Bytes)
    → Steps new_registry r
    → (take_out r id).1 ≡ some n
    → Steps (take_out r id).0 s
    → find s other ≢ some n
taken_out_gone r id n s other before p after =
    (Steps-Gone (take_out r id).0 n
        (take_out-Gone r id n (Steps-IsTidy new_registry new-IsTidy before) p) after).1
      other
