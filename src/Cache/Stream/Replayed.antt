-- ===== src/Cache/Stream/Replayed.antt =====
-- A replay delivers what was recorded.
use kubling_providers.Base.{
  ℕ, zero, suc, ◌+◌, ◌≤◌, ◌≡◌, refl, ap, sym, ◌∙◌, List, [], ◌∷◌, ◌++◌, Option, none, some, false,
  inl, inr, Result, ok, err, length, get_elem?, Option-cases, arith,
}
use mathlib.Core.List.{append_assoc, append-nil}
use kubling_providers.Messages.{TupleBatch, QueryOutcome}
use kubling_providers.Cache.Keys.{CachedResult}
use kubling_providers.Cache.Stream.{
  Reply, gives, ends, fails, complete_outcome, close, new_recording, StreamError, end_of_file,
  Replay, new_replay, replay_next, replay_outcome,
}
use kubling_providers.Cache.Stream.Recorded.{read, finish, recordable, recorded}

-- The batches that a reader of the wrapped stream saw before its end, and the outcome it had.
abbrev pub delivered : List Reply → List TupleBatch
delivered (gives (some batch) ∷ replies) = batch ∷ delivered replies
delivered _ = []

abbrev pub said : List Reply → Option QueryOutcome
said [] = none
said (gives b ∷ replies) = said replies
said (ends none ∷ replies) = some complete_outcome
said (ends (some outcome) ∷ replies) = outcome
said (fails e ∷ replies) = none

on_next : (Replay → List TupleBatch) → Replay × Result StreamError TupleBatch → List TupleBatch
on_next rest (s, ok batch) = batch ∷ rest s
on_next rest (s, err e) = []

-- The reader calls Next up to `n` times, until it is refused.
unfoldable pub deliver : ℕ → Replay → List TupleBatch
unfolding on_next
deliver zero s = []
deliver (suc n) s = on_next (λ s'. deliver n s') (replay_next s none)

drop : ℕ → List TupleBatch → List TupleBatch
drop zero xs = xs
drop (suc n) [] = []
drop (suc n) (x ∷ xs) = drop n xs

drop-get :
    (n : ℕ) (xs : List TupleBatch) (x : TupleBatch)
    → get_elem? xs n ≡ some x
    → drop n xs ≡ x ∷ drop (suc n) xs
unfolding drop
drop-get n [] x e = cc
drop-get zero (y ∷ xs) x e = cc
drop-get (suc n) (y ∷ xs) x e = drop-get n xs x e

drop-none :
    (n : ℕ) (xs : List TupleBatch) → get_elem? xs n ≡ none → (drop n xs ≡ []) × (length xs ≤ n)
unfolding drop
drop-none zero [] e = (refl, omega arith)
drop-none (suc n) [] e = (refl, omega arith)
drop-none zero (y ∷ xs) e = cc
drop-none (suc n) (y ∷ xs) e = ground (arith, drop-none n xs e)

length-drop :
    (n : ℕ) (xs : List TupleBatch) (x : TupleBatch) → get_elem? xs n ≡ some x → suc n ≤ length xs
length-drop n [] x e = cc
length-drop zero (y ∷ xs) x e = omega arith
length-drop (suc n) (y ∷ xs) x e = omega (arith, length-drop n xs x e)

drop_past : (n : ℕ) (xs : List TupleBatch) → length xs ≤ n → drop n xs ≡ []
unfolding drop
drop_past zero [] h = refl
drop_past zero (x ∷ xs) h = absurd (omega arith)
drop_past (suc n) [] h = refl
drop_past (suc n) (x ∷ xs) h = drop_past n xs (omega arith)

replay_next-batch :
    (s : Replay) (batch : TupleBatch)
    → s.is_closed ≡ false
    → get_elem? s.result.batches s.position ≡ some batch
    → replay_next s none ≡ (record s { position = suc s.position }, ok batch)
unfolding replay_next
replay_next-batch s batch k e = ground (arith, length-drop s.position s.result.batches batch e)

replay_next-end :
    (s : Replay)
    → get_elem? s.result.batches s.position ≡ none
    → (replay_next s none).1 ≡ err end_of_file
unfolding replay_next
replay_next-end s e = ground (arith, drop-none s.position s.result.batches e)

deliver-drop :
    (n : ℕ) (s : Replay)
    → s.is_closed ≡ false
    → length s.result.batches ≤ n + s.position
    → deliver n s ≡ drop s.position s.result.batches
unfolding deliver
deliver-drop zero s k h = sym (drop_past s.position s.result.batches (omega arith))
deliver-drop (suc n) s k h = elim (Option-cases (get_elem? s.result.batches s.position)) [
  | inl e ↦
      refused (replay_next s none) (replay_next-end s e)
      ∙ sym (drop-none s.position s.result.batches e).0
  | inr (batch, e) ↦
      ap (on_next (λ s'. deliver n s')) (replay_next-batch s batch k e)
      ∙ ap (λ xs. batch ∷ xs)
          (deliver-drop n (record s { position = suc s.position }) k (omega arith))
      ∙ sym (drop-get s.position s.result.batches batch e)
]
  where
    refused :
        (a : Replay × Result StreamError TupleBatch)
        → a.1 ≡ err end_of_file
        → on_next (λ s'. deliver n s') a ≡ []
    refused (s', ok batch) q = cc
    refused (s', err x) q = refl

module _ (batch_size : TupleBatch → ℕ) (outcome_size : QueryOutcome → ℕ) (max_entry_bytes : ℕ) where
  finish-parts :
      (batches : List TupleBatch) (size : ℕ) (outcome : QueryOutcome) (r : CachedResult)
      → finish batch_size outcome_size max_entry_bytes batches size outcome ≡ some r
      → (r.batches ≡ batches) × (r.outcome ≡ some outcome) × (r.size ≤ max_entry_bytes)
  finish-parts batches size outcome r p = ground arith

  recordable-parts :
      (batches : List TupleBatch) (size : ℕ) (replies : List Reply) (r : CachedResult)
      → recordable batch_size outcome_size max_entry_bytes batches size replies ≡ some r
      → (r.batches ≡ batches ++ delivered replies)
        × (r.outcome ≡ said replies)
        × (r.size ≤ max_entry_bytes)
  unfolding recordable
  recordable-parts batches size [] r p = cc
  recordable-parts batches size (fails e ∷ replies) r p = cc
  recordable-parts batches size (ends none ∷ replies) r p =
      rw (append-nil batches) (finish-parts batches size complete_outcome r p)
  recordable-parts batches size (ends (some none) ∷ replies) r p = cc
  recordable-parts batches size (ends (some (some outcome)) ∷ replies) r p =
      rw (append-nil batches) (finish-parts batches size outcome r p)
  recordable-parts batches size (gives none ∷ replies) r p = cc
  recordable-parts batches size (gives (some batch) ∷ replies) r p =
      let (same, outcome, small) =
        recordable-parts (batches ++ batch ∷ []) (size + batch_size batch) replies r (went_on p) in
      (same ∙ append_assoc batches (batch ∷ []) (delivered replies), outcome, small)
    where
      went_on :
          recordable batch_size outcome_size max_entry_bytes batches size
              (gives (some batch) ∷ replies)
            ≡ some r
          → recordable batch_size outcome_size max_entry_bytes
              (batches ++ batch ∷ [])
              (size + batch_size batch)
              replies
            ≡ some r
      went_on q = ground arith

-- If the cache is offered the result of a stream, a replay of it, to a reader that calls Next often
-- enough, gives the batches that the stream gave, in order; it has the stream's outcome, and its
-- size is within the limit for one entry.
pub replay-recorded :
    (batch_size : TupleBatch → ℕ) (outcome_size : QueryOutcome → ℕ) (max_entry_bytes : ℕ)
    (replies : List Reply) (r : CachedResult) (n : ℕ)
    → (close (read batch_size outcome_size max_entry_bytes new_recording replies) none).1 ≡ some r
    → length (delivered replies) ≤ n
    → (deliver n (new_replay r) ≡ delivered replies)
      × (replay_outcome (new_replay r) ≡ said replies)
      × (r.size ≤ max_entry_bytes)
unfolding drop
replay-recorded batch_size outcome_size max_entry_bytes replies r n p h =
    let offered = recorded batch_size outcome_size max_entry_bytes replies 0 in
    let (same, outcome, small) =
      recordable-parts batch_size outcome_size max_entry_bytes [] 0 replies r (sym offered.0 ∙ p) in
    (deliver-drop n (new_replay r) refl (omega (arith, ap length same)) ∙ same, outcome, small)
