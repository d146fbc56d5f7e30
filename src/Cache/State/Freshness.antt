-- ===== src/Cache/State/Freshness.antt =====
-- No result of a query that began before an invalidation is served after it.
use native.Mathlib.Decide.{dec_lt}
use kubling_providers.Base.{
  ℕ, suc, ◌+◌, ◌≤◌, ◌<◌, ◌≡◌, refl, sym, ap, subst, ◌∙◌, ◌⊎◌, inl, inr, List, [], ◌∷◌, Option, none,
  some, Bytes, bytes_eq, All, All-map, All-get_elem?, get_elem?-append, get_elem?, length-append,
  length, Option-cases, arith,
}
use kubling_providers.Cache.Keys.{Generation, QueryKey, CachedResult, key_eq}
use kubling_providers.Cache.Memory
use kubling_providers.Cache.Memory.{Element, MemoryStore, find_key, find_key_found, All_found}
use kubling_providers.Cache.Memory.Invariant.{IsLinked}
use kubling_providers.Cache.Memory.Hits.{live, get-eq-live}
use kubling_providers.Cache.State
use kubling_providers.Cache.State.{
  CacheState, u64_mod, generation, query_key, store_if_current, invalidate_entities, invalidate_all,
}
use kubling_providers.Cache.State.Generations.{GenLe, AllStored, get-AllStored}
use kubling_providers.Cache.State.Behind.{IsSound, Behind, now_at, step-IsSound, offer-AllStored}
use kubling_providers.Cache.State.Session.{
  Session, Event, begin, finish, invalidate, invalidate_everything, record_miss, step, run,
}

-- What a finished query may bring after the invalidation: `P` of the result, if the query is one of
-- those that began later.
abbrev pub LaterHas : (CachedResult → Type 0) → ℕ → Event → Type 0
LaterHas P base (finish now number r) = base ≤ number → P r
LaterHas P base _ = Unit

module _ (stamp : Generation → ℕ) (mono : (g h : Generation) → GenLe g h → stamp g ≤ stamp h)
    (e : Bytes) (P : CachedResult → Type 0) (least base : ℕ) where
  abbrev pub Good : QueryKey → CachedResult → Type 0
  Good key r = key.entity ≡ e → P r ⊎ (stamp key.generation < least)

  -- After: what is stored for `e` has `P` or is out of date, as are the earlier captures.
  pub record Fresh (t : Session) : Type 0 where
    pub stored : AllStored Good t.cache.store
    pub current : least ≤ now_at stamp mono e t
    pub earlier :
        (i : ℕ) (key : QueryKey)
        → i < base
        → get_elem? t.running i ≡ some key
        → key.entity ≡ e
        → stamp key.generation < least
    pub room : base ≤ length t.running

  record_miss_earlier :
      (running : List QueryKey) (key : QueryKey) (o : Option CachedResult)
      → base ≤ length running
      → (base ≤ length (record_miss running key o))
        × ((i : ℕ) → i < base → get_elem? (record_miss running key o) i ≡ get_elem? running i)
  record_miss_earlier running key none h = (
    omega (arith, length-append running (key ∷ [])),
    λ i k. get_elem?-append running (key ∷ []) i (omega arith),
  )
  record_miss_earlier running key (some r) h = (h, λ i k. refl)

  offered_Good :
      (t : Session) (i : ℕ) (r : CachedResult)
      → Fresh t
      → (base ≤ i → P r)
      → (key : QueryKey) → get_elem? t.running i ≡ some key
      → generation t.cache key.entity ≡ key.generation
      → Good key r
  offered_Good t i r f later key there current same = elim (dec_lt i base) [
    | no h ↦ inl (later (omega arith))
    | yes h ↦ absurd (stale (f.earlier i key h there same))
  ]
    where
      stale : stamp key.generation < least → ⊥
      stale old =
          omega
            (arith, f.current, ap stamp (sym current), ap (λ x. stamp (generation t.cache x)) same)

  step-Fresh :
      (n : ℕ) (t : Session) (event : Event)
      → suc n < u64_mod
      → IsSound n t
      → LaterHas P base event
      → Fresh t
      → Fresh (step t event)
  step-Fresh n t (begin now entity digest) h v later f =
      let (_, m) = step-IsSound n t (begin now entity digest) h v in
      let key = query_key t.cache entity digest in
      let found = (Memory.get t.cache.store now key).1 in
      unfold step State.lookup in
      record {
        stored = get-AllStored Good t.cache.store now key f.stored;
        current = omega (arith, f.current, mono _ _ (unfold step State.lookup in m e));
        earlier = λ i k lt there.
            f.earlier i k lt
              (sym ((record_miss_earlier t.running key found f.room).1 i lt) ∙ there);
        room = (record_miss_earlier t.running key found f.room).0;
      }
  step-Fresh n t (finish now i r) h v later f =
      let (_, m) = step-IsSound n t (finish now i r) h v in
      unfold step in
      record {
        stored =
            offer-AllStored Good t.cache now (get_elem? t.running i) r (offered_Good t i r f later)
              f.stored;
        current = omega (arith, f.current, mono _ _ (unfold step in m e));
        earlier = f.earlier;
        room = f.room;
      }
  step-Fresh n t (invalidate es) h v later f =
      let (_, m) = step-IsSound n t (invalidate es) h v in
      record {
        stored = unfold step invalidate_entities in f.stored;
        current = omega (arith, f.current, mono _ _ (m e));
        earlier = unfold step in f.earlier;
        room = unfold step in f.room;
      }
  step-Fresh n t invalidate_everything h v later f =
      let (_, m) = step-IsSound n t invalidate_everything h v in
      record {
        stored = unfold step invalidate_all in f.stored;
        current = omega (arith, f.current, mono _ _ (m e));
        earlier = unfold step in f.earlier;
        room = unfold step in f.room;
      }

  pub run-Fresh :
      (n : ℕ) (t : Session) (events : List Event)
      → n + length events < u64_mod
      → IsSound n t
      → All (LaterHas P base) events
      → Fresh t
      → IsLinked (run t events).cache.store × Fresh (run t events)
  unfolding run
  run-Fresh n t [] h v later f = (v.linked, f)
  run-Fresh n t (event ∷ events) h v later f =
      run-Fresh (suc n) (step t event) events (omega arith)
        (step-IsSound n t event (omega arith) v).0 later.1
        (step-Fresh n t event (omega arith) v later.0 f)

  live_result :
      (now : ℕ) (el : Element) (r : CachedResult) → live now (some el) ≡ some r → el.result ≡ r
  live_result now el r q = ground arith

  -- a hit is an element under the current generation
  pub hit :
      (t : Session) (now : ℕ) (digest : Bytes) (r : CachedResult)
      → IsLinked t.cache.store
      → (State.lookup t.cache now e digest).2 ≡ some r
      → Fresh t
      → P r
  unfolding State.lookup
  hit t now digest r l found f =
      let key = query_key t.cache e digest in
      elim (Option-cases (find_key key t.cache.store.recency)) [
        | inl none_there ↦ absurd (ground (arith, get-eq-live t.cache.store now key l))
        | inr (el, there) ↦
            let (same, at) = find_key_found key el t.cache.store.recency l.distinct there in
            let good =
              All_found (λ x. Good x.key x.result) el.handle el t.cache.store.recency f.stored at in
            fresh el good same (
              live_result now el r
                (sym (ap (live now) there) ∙ (sym (get-eq-live t.cache.store now key l) ∙ found)))
      ]
    where
      fresh :
          (el : Element)
          → Good el.key el.result
          → el.key ≡ query_key t.cache e digest
          → el.result ≡ r
          → P r
      fresh el good same there = elim (good (ap (λ (k : QueryKey). k.entity) same)) [
        | inl p ↦ subst P there p
        | inr old ↦
            absurd (omega (arith, f.current, ap (λ (k : QueryKey). stamp k.generation) same))
      ]

  -- An event that moves the generation of `e` leaves nothing up to date behind.
  pub bumped-Fresh :
      (t u : Session)
      → Behind stamp mono e (now_at stamp mono e t) t
      → suc (now_at stamp mono e t) ≡ least
      → length t.running ≡ base
      → u.cache.store ≡ t.cache.store
      → u.running ≡ t.running
      → now_at stamp mono e u ≡ least
      → Fresh u
  bumped-Fresh t u b p q same_store same_running moved = record {
    stored = subst (AllStored Good) (sym same_store) (
        All-map
          (λ (el : Element). el.key.entity ≡ e → stamp el.key.generation ≤ now_at stamp mono e t)
          (λ (el : Element). Good el.key el.result) t.cache.store.recency
          (λ el h k. inr (omega (arith, h k, p))) b.stored);
    current = omega (arith, moved);
    earlier = λ i key lt there k. omega (
      arith,
      All-get_elem? (λ (x : QueryKey). x.entity ≡ e → stamp x.generation ≤ now_at stamp mono e t)
          t.running i key b.captured (ap (λ xs. get_elem? xs i) (sym same_running) ∙ there) k,
      p,
    );
    room = omega (arith, q, ap length same_running);
  }
