-- ===== src/Cache/State/Behind.antt =====
-- Captured keys never get ahead of the generations, and the steps keep the session sound.
use native.Mathlib.Nat.{add-zero}
use kubling_providers.Base
use kubling_providers.Base.{
  ℕ, zero, suc, ◌+◌, ◌≤◌, ◌<◌, ◌≡◌, refl, sym, ap, subst, ◌∙◌, ◌⊎◌, inl, inr, List, [], ◌∷◌, ◌++◌,
  Option, none, some, true, false, Map, IsMap, Bytes, bytes_eq, In, All, All-map, All-append,
  All-get_elem?, get_elem?-append, get_elem?, length-append, length, Bool-cases, Option-cases, ltb,
  if◌then◌else◌, arith,
}
use kubling_providers.Cache.Keys.{
  Generation, QueryKey, CachedResult, generation_beq, generation_beq_iff, key_eq,
}
use kubling_providers.Cache.Memory
use kubling_providers.Cache.Memory.{MemoryStore, find_key, find_key_found, All_found}
use kubling_providers.Cache.Memory.Invariant.{
  IsLinked, get-IsLinked, set-IsLinked, new_memory_store-IsLinked,
}
use kubling_providers.Cache.State
use kubling_providers.Cache.State.{
  CacheState, NormalizedConfig, u64_mod, generation, query_key, store_if_current,
  invalidate_entities, invalidate_all,
}
use kubling_providers.Cache.State.Generations.{
  Within, GenLe, invalidate_entities-Within, invalidate_all-Within, AllStored, set-AllStored,
  get-AllStored,
}
use kubling_providers.Cache.State.Session.{
  Session, Event, begin, finish, invalidate, invalidate_everything, record_miss, offer, step, run,
  new_session,
}

-- What the steps keep whatever they are: a linked store, the dependencies, counters below the step count.
pub record IsSound (n : ℕ) (t : Session) : Type 0 where
  pub linked : IsLinked t.cache.store
  pub dependencies : IsMap t.cache.dependencies
  pub within : Within n t.cache

generation_store :
    (s : CacheState) (store' : MemoryStore) (e : Bytes)
    → generation (record s { store = store' }) e ≡ generation s e
unfolding generation
generation_store s store' e = refl

Within-suc :
    (n : ℕ) (s : CacheState) (store' : MemoryStore)
    → Within n s
    → Within (suc n) (record s { store = store' })
Within-suc n s store' w = record {
  global = omega (arith, w.global);
  entity = λ e. rw (generation_store s store' e) (omega (arith, w.entity e));
}

-- A stored result changes the store alone.
store_if_current_store :
    (s : CacheState) (now : ℕ) (key : QueryKey) (r : CachedResult)
    → (store' : MemoryStore) × (store_if_current s now key r ≡ record s { store = store' })
      × (IsLinked s.store → IsLinked store')
unfolding store_if_current
store_if_current_store s now key r = elim (Bool-cases (ltb s.max_entry_bytes r.size)) [
  | inl e ↦ (s.store, rw e refl, λ l. l)
  | inr e ↦ elim (Bool-cases (generation_beq (generation s key.entity) key.generation)) [
    | inl c ↦ (Memory.set s.store now key r, rw (e, c) refl, set-IsLinked s.store now key r)
    | inr c ↦ (s.store, rw (e, c) refl, λ l. l)
  ]
]

offer_store :
    (s : CacheState) (now : ℕ) (o : Option QueryKey) (r : CachedResult)
    → (store' : MemoryStore) × (offer s now o r ≡ record s { store = store' })
      × (IsLinked s.store → IsLinked store')
offer_store s now none r = (s.store, refl, λ l. l)
offer_store s now (some key) r = store_if_current_store s now key r

pub step-IsSound :
    (n : ℕ) (t : Session) (event : Event)
    → suc n < u64_mod
    → IsSound n t
    → IsSound (suc n) (step t event)
      × ((e : Bytes) → GenLe (generation t.cache e) (generation (step t event).cache e))
unfolding step
step-IsSound n t (begin now entity digest) h v =
    unfold State.lookup in
    (
      record {
        linked = get-IsLinked t.cache.store now (query_key t.cache entity digest) v.linked;
        dependencies = v.dependencies;
        within =
            Within-suc n t.cache (Memory.get t.cache.store now (query_key t.cache entity digest)).0
              v.within;
      },
      λ e.
          rw
            (generation_store t.cache
              (Memory.get t.cache.store now (query_key t.cache entity digest)).0 e)
            (omega arith, omega arith),
    )
step-IsSound n t (finish now i r) h v =
    let (store', same, linked') = offer_store t.cache now (get_elem? t.running i) r in
    rw same (
      record {
        linked = linked' v.linked;
        dependencies = v.dependencies;
        within = Within-suc n t.cache store' v.within;
      },
      λ e. rw (generation_store t.cache store' e) (omega arith, omega arith),
    )
step-IsSound n t (invalidate es) h v =
    let (w, mono) = invalidate_entities-Within n t.cache es v.dependencies h v.within in
    (
      record {
        linked = unfold invalidate_entities in v.linked;
        dependencies = unfold invalidate_entities in v.dependencies;
        within = w;
      },
      mono,
    )
step-IsSound n t invalidate_everything h v =
    let (w, mono) = invalidate_all-Within n t.cache h v.within in
    (
      record {
        linked = unfold invalidate_all in v.linked;
        dependencies = unfold invalidate_all in v.dependencies;
        within = w;
      },
      mono,
    )

-- No event changes the dependencies.
dependencies-step :
    (t : Session) (event : Event) → (step t event).cache.dependencies ≡ t.cache.dependencies
unfolding step
dependencies-step t (begin now entity digest) = unfold State.lookup in refl
dependencies-step t (finish now i r) =
    let (store', same, _) = offer_store t.cache now (get_elem? t.running i) r in rw same
dependencies-step t (invalidate es) = unfold invalidate_entities in refl
dependencies-step t invalidate_everything = unfold invalidate_all in refl

pub dependencies-run :
    (t : Session) (events : List Event) → (run t events).cache.dependencies ≡ t.cache.dependencies
unfolding run
dependencies-run t [] = refl
dependencies-run t (event ∷ events) =
    dependencies-run (step t event) events ∙ dependencies-step t event

pub new_session-IsSound :
    (config : NormalizedConfig) → IsMap config.dependencies → IsSound 0 (new_session config)
new_session-IsSound config m = record {
  linked =
      unfold new_session in
      new_memory_store-IsLinked config.max_entries config.max_bytes config.ttl;
  dependencies = unfold new_session in m;
  within = record {
    global = unfold new_session in omega arith;
    entity = λ e. unfold new_session generation Base.lookup in omega arith;
  };
}

-- An offered result is stored only under the current generation of its entity.
pub offer-AllStored :
    (Q : QueryKey → CachedResult → Type 0) (s : CacheState) (now : ℕ) (o : Option QueryKey)
    (r : CachedResult)
    → ((key : QueryKey) → o ≡ some key → generation s key.entity ≡ key.generation → Q key r)
    → AllStored Q s.store
    → AllStored Q (offer s now o r).store
offer-AllStored Q s now none r f a = a
offer-AllStored Q s now (some key) r f a = elim (Bool-cases (ltb s.max_entry_bytes r.size)) [
  | inl e ↦ unfold store_if_current in rw e a
  | inr e ↦ elim (Bool-cases (generation_beq (generation s key.entity) key.generation)) [
    | inl c ↦
        unfold store_if_current in
        rw (e, c)
          (set-AllStored Q s.store now key r
            (f key refl ((generation_beq_iff (generation s key.entity) key.generation).0 c)) a)
    | inr c ↦ unfold store_if_current in rw (e, c) a
  ]
]

module _ (stamp : Generation → ℕ) (mono : (g h : Generation) → GenLe g h → stamp g ≤ stamp h)
    (e : Bytes) where
  abbrev pub now_at : Session → ℕ
  now_at t = stamp (generation t.cache e)

  abbrev pub UpTo : ℕ → QueryKey → Type 0
  UpTo c key = key.entity ≡ e → stamp key.generation ≤ c

  -- No capture for `e` is ahead of `c`.
  pub record Behind (c : ℕ) (t : Session) : Type 0 where
    pub stored : AllStored (λ key r. UpTo c key) t.cache.store
    pub captured : All (UpTo c) t.running

  pub Behind-mono : (c d : ℕ) (t : Session) → c ≤ d → Behind c t → Behind d t
  Behind-mono c d t le b = record {
    stored =
        All-map (λ el. UpTo c el.key) (λ el. UpTo d el.key) t.cache.store.recency
          (λ el h q. omega (arith, h q)) b.stored;
    captured = All-map (UpTo c) (UpTo d) t.running (λ key h q. omega (arith, h q)) b.captured;
  }

  pub record_miss-UpTo :
      (c : ℕ) (running : List QueryKey) (key : QueryKey) (o : Option CachedResult)
      → UpTo c key
      → All (UpTo c) running
      → All (UpTo c) (record_miss running key o)
  record_miss-UpTo c running key none q a = All-append (UpTo c) running (key ∷ []) a (q, tt)
  record_miss-UpTo c running key (some r) q a = a

  pub generation_at :
      (t : Session) (entity : Bytes) → entity ≡ e → stamp (generation t.cache entity) ≤ now_at t
  generation_at t entity p = rw p (omega arith)

  pub step-Behind :
      (t : Session) (event : Event) → Behind (now_at t) t → Behind (now_at t) (step t event)
  unfolding step
  step-Behind t (begin now entity digest) b =
      unfold State.lookup in
      record {
        stored =
            get-AllStored (λ key r. UpTo (now_at t) key) t.cache.store now
              (query_key t.cache entity digest) b.stored;
        captured =
            record_miss-UpTo (now_at t) t.running (query_key t.cache entity digest)
              (Memory.get t.cache.store now (query_key t.cache entity digest)).1
              (generation_at t entity) b.captured;
      }
  step-Behind t (finish now i r) b = record {
    stored =
        offer-AllStored (λ key r. UpTo (now_at t) key) t.cache now (get_elem? t.running i) r
          (λ key p _. All-get_elem? (UpTo (now_at t)) t.running i key b.captured p) b.stored;
    captured = b.captured;
  }
  step-Behind t (invalidate es) b =
      unfold invalidate_entities in record { stored = b.stored; captured = b.captured }
  step-Behind t invalidate_everything b =
      unfold invalidate_all in record { stored = b.stored; captured = b.captured }

  -- A run keeps the counters sound and the captures behind them.
  pub run-Behind :
      (n : ℕ) (t : Session) (events : List Event)
      → n + length events < u64_mod
      → IsSound n t
      → Behind (now_at t) t
      → IsSound (n + length events) (run t events) × Behind (now_at (run t events)) (run t events)
  unfolding run
  run-Behind n t [] h v b = (rw add-zero v, b)
  run-Behind n t (event ∷ events) h v b =
      let (v', m) = step-IsSound n t event (omega arith) v in
      let next : Behind (now_at (step t event)) (step t event) =
        Behind-mono (now_at t) (now_at (step t event)) (step t event) (mono _ _ (m e))
          (step-Behind t event b) in
      let (w, b') = run-Behind (suc n) (step t event) events (omega arith) v' next in
      (subst (λ k. IsSound k (run (step t event) events)) (omega arith) w, b')

  pub new_session-Behind :
      (config : NormalizedConfig) → Behind (now_at (new_session config)) (new_session config)
  new_session-Behind config = unfold new_session in record { stored = tt; captured = tt }
