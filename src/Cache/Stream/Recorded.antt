-- ===== src/Cache/Stream/Recorded.antt =====
-- What a recording stream offers to the cache.
use kubling_providers.Base.{
  ℕ, ◌+◌, ◌≡◌, refl, ap, ◌∙◌, List, [], ◌∷◌, ◌++◌, Option, none, some, true, false, ◌||◌, inl, inr,
  Bool-cases, ltb, if◌then◌else◌, arith,
}
use kubling_providers.Messages.{TupleBatch, QueryOutcome}
use kubling_providers.Cache.Keys.{CachedResult}
use kubling_providers.Cache.Stream.{
  batch_contains_lob_reference, Reply, gives, ends, fails, Recording, new_recording,
  complete_outcome, is_plain, next, close,
}

module _ (batch_size : TupleBatch → ℕ) (outcome_size : QueryOutcome → ℕ) (max_entry_bytes : ℕ) where
  -- A reader calls Next again and again, with what the wrapped stream has to say.
  unfoldable pub read : Recording → List Reply → Recording
  read s [] = s
  read s (reply ∷ replies) = read (next batch_size outcome_size max_entry_bytes s reply).0 replies

  -- The outcome ends the recording, if it is complete, without warnings and still fits.
  abbrev pub finish : List TupleBatch → ℕ → QueryOutcome → Option CachedResult
  finish batches size outcome =
      if is_plain outcome
      then (if ltb max_entry_bytes (size + outcome_size outcome)
          then none
          else some (record {
            batches = batches;
            outcome = some outcome;
            size = size + outcome_size outcome;
          }))
      else none

  -- What may be cached of a stream, written as a function of its replies: every batch up to the end,
  -- none of them nil or with a LOB reference, no error before the end, and all within the limit.
  unfoldable pub recordable : List TupleBatch → ℕ → List Reply → Option CachedResult
  recordable batches size [] = none
  recordable batches size (fails e ∷ replies) = none
  recordable batches size (ends none ∷ replies) = finish batches size complete_outcome
  recordable batches size (ends (some none) ∷ replies) = none
  recordable batches size (ends (some (some outcome)) ∷ replies) = finish batches size outcome
  recordable batches size (gives none ∷ replies) = none
  recordable batches size (gives (some batch) ∷ replies) =
      let rest = recordable (batches ++ batch ∷ []) (size + batch_size batch) replies in
      if batch_contains_lob_reference batch || ltb max_entry_bytes (size + batch_size batch)
      then none
      else rest

  -- once caching is off it stays off
  next-off :
      (s : Recording) (reply : Reply)
      → s.cacheable ≡ false
      → ((next batch_size outcome_size max_entry_bytes s reply).0.cacheable ≡ false)
        × ((next batch_size outcome_size max_entry_bytes s reply).0.closed ≡ s.closed)
  unfolding next
  next-off s (fails e) h = ground arith
  next-off s (ends none) h = ground arith
  next-off s (ends (some none)) h = ground arith
  next-off s (ends (some (some outcome))) h = ground arith
  next-off s (gives none) h = ground arith
  next-off s (gives (some batch)) h = ground arith

  close-off : (s : Recording) → s.closed ≡ false → s.cacheable ≡ false → (close s none).1 ≡ none
  unfolding close
  close-off s k h = ground arith

  read-off :
      (s : Recording) (replies : List Reply)
      → s.closed ≡ false
      → s.cacheable ≡ false
      → (close (read s replies) none).1 ≡ none
  unfolding read
  read-off s [] k h = close-off s k h
  read-off s (reply ∷ replies) k h =
      let (off, same) = next-off s reply h in
      read-off (next batch_size outcome_size max_entry_bytes s reply).0 replies (same ∙ k) off

  next-complete :
      (s : Recording) (reply : Reply)
      → s.complete ≡ true
      → (next batch_size outcome_size max_entry_bytes s reply).0 ≡ s
  unfolding next
  next-complete s reply h = ground arith

  read-complete : (s : Recording) (replies : List Reply) → s.complete ≡ true → read s replies ≡ s
  unfolding read
  read-complete s [] h = refl
  read-complete s (reply ∷ replies) h =
      ap (λ x. read x replies) (next-complete s reply h) ∙ read-complete s replies h

  record IsRecording (s : Recording) : Type 0 where
    opened : s.closed ≡ false
    going : s.complete ≡ false
    caching : s.cacheable ≡ true

  -- the stream's end
  next-ends :
      (s : Recording) (o : Option (Option QueryOutcome)) (replies : List Reply)
      → IsRecording s
      → (close (next batch_size outcome_size max_entry_bytes s (ends o)).0 none).1
          ≡ recordable s.batches s.size (ends o ∷ replies)
        × ((next batch_size outcome_size max_entry_bytes s (ends o)).0.complete ≡ true)
  unfolding next close recordable
  next-ends s none replies v = ground (arith, v.opened, v.going, v.caching)
  next-ends s (some none) replies v = ground (arith, v.opened, v.going, v.caching)
  next-ends s (some (some outcome)) replies v = ground (arith, v.opened, v.going, v.caching)

  next-batch :
      (s : Recording) (batch : TupleBatch)
      → IsRecording s
      → ((batch_contains_lob_reference batch || ltb max_entry_bytes (s.size + batch_size batch))
            ≡ true
          → ((next batch_size outcome_size max_entry_bytes s (gives (some batch))).0.cacheable
              ≡ false)
            × ((next batch_size outcome_size max_entry_bytes s (gives (some batch))).0.closed
                ≡ false))
        × ((batch_contains_lob_reference batch || ltb max_entry_bytes (s.size + batch_size batch))
              ≡ false
            → (next batch_size outcome_size max_entry_bytes s (gives (some batch))).0
              ≡ record s { batches = s.batches ++ batch ∷ []; size = s.size + batch_size batch })
  unfolding next
  next-batch s batch v = (
    λ h. ground (arith, v.opened, v.going, v.caching),
    λ h. ground (arith, v.opened, v.going, v.caching),
  )

  read-recordable :
      (s : Recording) (replies : List Reply)
      → IsRecording s
      → (close (read s replies) none).1 ≡ recordable s.batches s.size replies
  unfolding read recordable
  read-recordable s [] v = unfold close in ground (arith, v.opened, v.going)
  read-recordable s (fails e ∷ replies) v =
      read-off _ replies (unfold next in ground (arith, v.opened, v.going))
        (unfold next in ground (arith, v.opened, v.going))
  read-recordable s (ends o ∷ replies) v =
      let (same, done) = next-ends s o replies v in
      ap (λ x. (close x none).1) (read-complete _ replies done) ∙ same
  read-recordable s (gives none ∷ replies) v =
      read-off _ replies (unfold next in ground (arith, v.opened, v.going))
        (unfold next in ground (arith, v.opened, v.going))
  read-recordable s (gives (some batch) ∷ replies) v =
      let (dropped, kept) = next-batch s batch v in
      elim (Bool-cases
        (batch_contains_lob_reference batch || ltb max_entry_bytes (s.size + batch_size batch))) [
          | inl bad ↦ rw bad (read-off _ replies (dropped bad).1 (dropped bad).0)
          | inr good ↦
              rw (good, kept good)
                (read-recordable
                  (record s { batches = s.batches ++ batch ∷ []; size = s.size + batch_size batch })
                  replies (record { opened = v.opened; going = v.going; caching = v.caching }))
        ]

-- Of a stream that is read to any point and closed, the cache is offered exactly what may be cached of
-- it: with an error on closing nothing, and otherwise the result that `recordable` describes.
pub recorded :
    (batch_size : TupleBatch → ℕ) (outcome_size : QueryOutcome → ℕ) (max_entry_bytes : ℕ)
    (replies : List Reply) (close_error : ℕ)
    → ((close (read batch_size outcome_size max_entry_bytes new_recording replies) none).1
        ≡ recordable batch_size outcome_size max_entry_bytes [] 0 replies)
      × ((close
            (read batch_size outcome_size max_entry_bytes new_recording replies)
            (some close_error)).1
          ≡ none)
recorded batch_size outcome_size max_entry_bytes replies close_error = (
  read-recordable batch_size outcome_size max_entry_bytes new_recording replies
      (record { opened = refl; going = refl; caching = refl }),
  unfold close in ground arith,
)
