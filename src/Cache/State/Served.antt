-- ===== src/Cache/State/Served.antt =====
-- What a read of an invalidated entity can be answered with.
use kubling_providers.Base.{
  ℕ, suc, ◌+◌, ◌≤◌, ◌<◌, ◌≡◌, refl, sym, ap, subst, inl, inr, List, some, Map, IsMap, Bytes,
  bytes_eq, All, length, arith,
}
use kubling_providers.Cache.Keys.{Generation, CachedResult, key_eq}
use kubling_providers.Cache.State
use kubling_providers.Cache.State.{
  CacheState, NormalizedConfig, u64_mod, generation, query_key, store_if_current,
  invalidate_entities, invalidate_all,
}
use kubling_providers.Cache.State.Reach.{Reach}
use kubling_providers.Cache.State.Generations.{GenLe, generation-invalidate_entities}
use kubling_providers.Cache.State.Behind.{
  IsSound, Behind, new_session-IsSound, new_session-Behind, dependencies-run, now_at, step-IsSound,
  run-Behind,
}
use kubling_providers.Cache.State.Freshness.{LaterHas, bumped-Fresh, run-Fresh, hit}
use kubling_providers.Cache.State.Session.{
  Session, Event, begin, finish, invalidate, invalidate_everything, step, run, new_session,
}

-- The event invalidates `e`, by name, through its dependencies, or with everything.
abbrev pub Invalidates : Map Bytes (List Bytes) → Event → Bytes → Type 0
Invalidates dependencies (invalidate es) e = Reach dependencies es e
Invalidates dependencies invalidate_everything e = Unit
Invalidates dependencies _ e = ⊥

abbrev entity_stamp : Generation → ℕ
entity_stamp g = g.entity_generation

abbrev global_stamp : Generation → ℕ
global_stamp g = g.global

entity_mono : (g h : Generation) → GenLe g h → entity_stamp g ≤ entity_stamp h
entity_mono g h le = le.1

global_mono : (g h : Generation) → GenLe g h → global_stamp g ≤ global_stamp h
global_mono g h le = le.0

module _ (e : Bytes) (P : CachedResult → Type 0) (n : ℕ) (t : Session) (v : IsSound n t)
    (after : List Event) (short : suc n + length after < u64_mod)
    (later : All (LaterHas P (length t.running)) after) (now : ℕ) (digest : Bytes)
    (r : CachedResult) where
  moved_by :
      (es : List Bytes)
      → Reach t.cache.dependencies es e
      → now_at entity_stamp entity_mono e (step t (invalidate es))
        ≡ suc (now_at entity_stamp entity_mono e t)
  unfolding step
  moved_by es reach = elim (generation-invalidate_entities t.cache es e v.dependencies) [
    | inl (never, _) ↦ absurd (never reach)
    | inr (_, p) ↦ omega (arith, ap entity_stamp p, v.within.entity e)
  ]

  after_entities :
      (es : List Bytes)
      → Reach t.cache.dependencies es e
      → Behind entity_stamp entity_mono e (now_at entity_stamp entity_mono e t) t
      → (State.lookup (run (step t (invalidate es)) after).cache now e digest).2 ≡ some r
      → P r
  after_entities es reach b found =
      let least = suc (now_at entity_stamp entity_mono e t) in
      let base = length t.running in
      let u = step t (invalidate es) in
      let moved : now_at entity_stamp entity_mono e u ≡ least = moved_by es reach in
      let f =
        bumped-Fresh entity_stamp entity_mono e P least base t u b refl refl
          (unfold step invalidate_entities in refl) (unfold step in refl) moved in
      let (l, f') =
        run-Fresh entity_stamp entity_mono e P least base (suc n) u after short
          (step-IsSound n t (invalidate es) (omega arith) v).0 later f in
      hit entity_stamp entity_mono e P least base (run u after) now digest r l found f'

  after_everything :
      Behind global_stamp global_mono e (now_at global_stamp global_mono e t) t
      → (State.lookup (run (step t invalidate_everything) after).cache now e digest).2 ≡ some r
      → P r
  after_everything b found =
      let least = suc (now_at global_stamp global_mono e t) in
      let base = length t.running in
      let u = step t invalidate_everything in
      let moved : now_at global_stamp global_mono e u ≡ least =
        unfold step invalidate_all generation in omega (arith, v.within.global) in
      let f =
        bumped-Fresh global_stamp global_mono e P least base t u b refl refl
          (unfold step invalidate_all in refl) (unfold step in refl) moved in
      let (l, f') =
        run-Fresh global_stamp global_mono e P least base (suc n) u after short
          (step-IsSound n t invalidate_everything (omega arith) v).0 later f in
      hit global_stamp global_mono e P least base (run u after) now digest r l found f'

dependencies-started :
    (config : NormalizedConfig) (events : List Event)
    → config.dependencies ≡ (run (new_session config) events).cache.dependencies
unfolding new_session
dependencies-started config events = sym (dependencies-run (new_session config) events)

-- Take any cache in its first state whose dependency map has each key once, any events, an event
-- that invalidates an entity (by name, through its dependencies, or with everything), and any
-- further events, fewer than 2^64 in all. If every result that a query brings in after the
-- invalidation has `P` whenever that query began after it, then each result that a read of the
-- entity is answered with has `P`: no result of a query that began before the invalidation is served
-- after it, however late that query ends.
pub served_after_invalidation :
    (config : NormalizedConfig) (before : List Event) (event : Event) (after : List Event)
    (e : Bytes) (P : CachedResult → Type 0) (now : ℕ) (digest : Bytes) (r : CachedResult)
    → IsMap config.dependencies
    → length before + suc (length after) < u64_mod
    → Invalidates config.dependencies event e
    → All (LaterHas P (length (run (new_session config) before).running)) after
    → (State.lookup (run (step (run (new_session config) before) event) after).cache now e digest).2
      ≡ some r
    → P r
served_after_invalidation config before (invalidate es) after e P now digest r m short touched later
      found =
    let (v, b) =
      run-Behind entity_stamp entity_mono e 0 (new_session config) before (omega arith)
        (new_session-IsSound config m) (new_session-Behind entity_stamp entity_mono e config) in
    after_entities e P (0 + length before) (run (new_session config) before) v after (omega arith)
      later now digest r es (subst (λ d. Reach d es e) (dependencies-started config before) touched)
      b found
served_after_invalidation config before invalidate_everything after e P now digest r m short touched
      later found =
    let (v, b) =
      run-Behind global_stamp global_mono e 0 (new_session config) before (omega arith)
        (new_session-IsSound config m) (new_session-Behind global_stamp global_mono e config) in
    after_everything e P (0 + length before) (run (new_session config) before) v after (omega arith)
      later now digest r b found
served_after_invalidation config before (begin t x y) after e P now digest r m short touched later
      found =
    absurd touched
served_after_invalidation config before (finish t x y) after e P now digest r m short touched later
      found =
    absurd touched
