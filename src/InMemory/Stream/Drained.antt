-- ===== src/InMemory/Stream/Drained.antt =====
-- A client that reads a result to its end (resultStream.Next, providers/inmemory/result_stream.go).
use kubling_providers.Base.{
  ℕ, zero, suc, ◌+◌, ◌-◌, ◌≤◌, ◌<◌, ◌≡◌, refl, sym, ap, ◌∙◌, Bool, true, false, List, [], ◌∷◌, ◌++◌,
  Option, none, some, All, take, drop, length, length-take, length-drop, take-append-drop, ltb, leb,
  arith, Bool-cases, inl, inr,
}
use kubling_providers.Messages.{Field}
use kubling_providers.InMemory.Values.{Value}
use kubling_providers.InMemory.Query.{ResultStream, new_result_stream, query_batch_size}
use kubling_providers.InMemory.Stream.{Batch, batch, end_of_file, interrupted, next}

-- The batches of that many calls of Next at most, and whether the end was reported.
unfoldable pub drain : ℕ → ResultStream → List Batch × Bool
unfolding next
drain zero s = ([], false)
drain (suc calls) s =
    let (reply, after) = next none s in
    let (rest, ended) = drain calls after in
    elim reply [
      | batch b ↦ (b ∷ rest, ended)
      | end_of_file ↦ ([], true)
      | interrupted e ↦ ([], false)
    ]

abbrev pub joined : List Batch → List (List Value)
joined [] = []
joined (b ∷ bs) = b.tuples ++ joined bs

-- The batch has the fields, and some tuples, at most so many.
pub record IsBatch (fields : List Field) (size : ℕ) (b : Batch) : Type 0 where
  pub same_fields : b.fields ≡ fields
  pub filled : 0 < length b.tuples
  pub bounded : length b.tuples ≤ size

drop-drop : {A : Type 0} (n m k : ℕ) (xs : List A) → n + m ≡ k → drop m (drop n xs) ≡ drop k xs
unfolding drop
drop-drop zero m k xs h = let e : m ≡ k = omega arith in rw e refl
drop-drop (suc n) zero zero [] h = refl
drop-drop (suc n) zero (suc k) [] h = refl
drop-drop (suc n) (suc m) zero [] h = refl
drop-drop (suc n) (suc m) (suc k) [] h = refl
drop-drop (suc n) m zero (x ∷ xs) h = absurd (omega arith)
drop-drop (suc n) m (suc k) (x ∷ xs) h = drop-drop n m k xs (omega arith)

drop_all : {A : Type 0} (n : ℕ) (xs : List A) → length xs ≤ n → drop n xs ≡ []
unfolding drop
drop_all zero [] h = refl
drop_all zero (x ∷ xs) h = absurd (omega arith)
drop_all (suc n) [] h = refl
drop_all (suc n) (x ∷ xs) h = drop_all n xs (omega arith)

-- The tuples that are left.
abbrev left : ResultStream → List (List Value)
left s = drop s.index s.tuples

abbrev cut : ℕ → ResultStream → Batch
cut end s = record { fields = s.fields; tuples = take (end - s.index) (left s) }

abbrev moved : ℕ → ResultStream → ResultStream
moved end s = record s { index = end }

-- A call of Next gives the tuples up to `end`.
record Cuts (end : ℕ) (s : ResultStream) : Type 0 where
  given : next none s ≡ (batch (cut end s), moved end s)
  filled : s.index < end
  bounded : end - s.index ≤ s.batch_size
  within : end ≤ length s.tuples

next-Cuts :
    (s : ResultStream)
    → s.closed ≡ false
    → 0 < s.batch_size
    → s.index < length s.tuples
    → (end : ℕ) × Cuts end s
unfolding next
next-Cuts s reads size more = elim (Bool-cases (ltb (length s.tuples) (s.index + s.batch_size))) [
  | inl past ↦ (
    length s.tuples,
    record { given = ground arith; filled = more; bounded = ground arith; within = omega arith },
  )
  | inr short ↦ (
    s.index + s.batch_size,
    record {
      given = ground arith;
      filled = omega arith;
      bounded = omega arith;
      within = ground arith;
    },
  )
]

record Drains (calls : ℕ) (s : ResultStream) : Type 0 where
  all : joined (drain calls s).0 ≡ left s
  each : All (IsBatch s.fields s.batch_size) (drain calls s).0
  ended : (drain calls s).1 ≡ true

drain_more :
    (calls end : ℕ) (s : ResultStream)
    → next none s ≡ (batch (cut end s), moved end s)
    → drain (suc calls) s
      ≡ (cut end s ∷ (drain calls (moved end s)).0, (drain calls (moved end s)).1)
unfolding drain
drain_more calls end s given = ground arith

drain_step :
    (calls end : ℕ) (s : ResultStream)
    → Cuts end s
    → Drains calls (moved end s)
    → Drains (suc calls) s
drain_step calls end s c g =
    let sized : length (take (end - s.index) (left s)) ≡ end - s.index =
      length-take (end - s.index) (left s)
        (omega (arith, length-drop s.index s.tuples, c.within)) in
    let more = drain_more calls end s c.given in
    record {
      all = rw more (
          ap (λ rest. take (end - s.index) (left s) ++ rest)
            (g.all ∙ sym (drop-drop s.index (end - s.index) end s.tuples (omega (arith, c.filled))))
          ∙ take-append-drop (end - s.index) (left s));
      each = rw more (
        record {
          same_fields = refl;
          filled = omega (arith, sized, c.filled);
          bounded = omega (arith, sized, c.bounded);
        },
        g.each,
      );
      ended = rw more g.ended;
    }

drain_end :
    (calls : ℕ) (s : ResultStream)
    → next none s ≡ (end_of_file, s)
    → length s.tuples ≤ s.index
    → Drains (suc calls) s
unfolding drain
drain_end calls s out over = record {
  all = rw (out, drain) (sym (drop_all s.index s.tuples over));
  each = rw (out, drain) tt;
  ended = rw (out, drain) refl;
}

drain-Drains :
    (calls : ℕ) (s : ResultStream)
    → s.closed ≡ false
    → 0 < s.batch_size
    → length s.tuples - s.index < calls
    → Drains calls s
unfolding next
drain-Drains zero s reads size enough = absurd (omega arith)
drain-Drains (suc calls) s reads size enough = elim (Bool-cases (leb (length s.tuples) s.index)) [
  | inl over ↦ drain_end calls s (ground arith) (ground arith)
  | inr more ↦
      let (end, c) = next-Cuts s reads size (ground arith) in
      drain_step calls end s c
        (drain-Drains calls (moved end s) reads size (omega (arith, c.filled, c.within)))
]

query_batch_size_positive : (requested : Option ℕ) → 0 < query_batch_size requested
unfolding query_batch_size
query_batch_size_positive none = omega arith
query_batch_size_positive (some n) = ground arith

-- A client that calls Next more often than a result has tuples, with a live context, reads to the end of the
-- file: the batches joined are the tuples of the result in their order, and each batch has the result's fields
-- and at least one tuple, and no more than the request's batch size, or a hundred if it asks for none.
pub drain-tuples :
    (calls : ℕ) (fields : List Field) (tuples : List (List Value)) (requested : Option ℕ)
    → length tuples < calls
    → (joined (drain calls (new_result_stream fields tuples (query_batch_size requested))).0
        ≡ tuples)
      × All
          (IsBatch fields (query_batch_size requested))
          (drain calls (new_result_stream fields tuples (query_batch_size requested))).0
      × ((drain calls (new_result_stream fields tuples (query_batch_size requested))).1 ≡ true)
unfolding drop
drain-tuples calls fields tuples requested enough =
    let s : ResultStream = new_result_stream fields tuples (query_batch_size requested) in
    let g = drain-Drains calls s refl (query_batch_size_positive requested) (omega arith) in
    (g.all, g.each, g.ended)
