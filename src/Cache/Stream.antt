-- ===== src/Cache/Stream.antt =====
-- Result streams of the cache: the one that records a query as it is read, and the one that replays
-- a cached result (sdk-go/provider/cache/query.go). The wrapped stream's answers are arguments, and
-- so are the encoded sizes of messages.
pub mod Recorded
pub mod Replayed
use kubling_providers.Base.{
  ℕ, zero, suc, ◌+◌, List, [], ◌∷◌, ◌++◌, Option, none, some, Bool, true, false, not, ◌&&◌, ◌||◌,
  Result, ok, err, length, get_elem?, ltb, leb, if◌then◌else◌,
}
use kubling_providers.Messages.{
  Value, array_value, lob_reference, Values, end, item, TupleBatch, QueryOutcome, complete, partial,
  unspecified, unknown_completion, QueryWarning,
}
use kubling_providers.Cache.Keys.{CachedResult}

unfoldable mutual
  pub value_contains_lob_reference : Value → Bool
  value_contains_lob_reference (lob_reference r) = true
  value_contains_lob_reference (array_value element_type vs) = values_contain_lob_reference vs
  value_contains_lob_reference _ = false

  pub values_contain_lob_reference : Values → Bool
  values_contain_lob_reference end = false
  values_contain_lob_reference (item v vs) =
      value_contains_lob_reference v || values_contain_lob_reference vs

unfoldable pub tuples_contain_lob_reference : List (Option Values) → Bool
unfolding value_contains_lob_reference values_contain_lob_reference
tuples_contain_lob_reference [] = false
tuples_contain_lob_reference (none ∷ tuples) = tuples_contain_lob_reference tuples
tuples_contain_lob_reference (some vs ∷ tuples) =
    values_contain_lob_reference vs || tuples_contain_lob_reference tuples

unfoldable pub batch_contains_lob_reference : TupleBatch → Bool
unfolding tuples_contain_lob_reference
batch_contains_lob_reference batch = tuples_contain_lob_reference batch.tuples

pub data StreamError : Type 0 where
  end_of_file : StreamError
  failed : ℕ → StreamError

-- What the wrapped stream's Next gives: a batch, which may be nil, with no error; the end; or another
-- error. At the end a stream with an outcome says it, and it may be nil.
pub data Reply : Type 0 where
  gives : Option TupleBatch → Reply
  ends : Option (Option QueryOutcome) → Reply
  fails : ℕ → Reply

pub record Recording : Type 0 where
  pub batches : List TupleBatch
  pub outcome : Option QueryOutcome
  pub size : ℕ
  pub cacheable : Bool
  pub complete : Bool
  pub closed : Bool
  pub close_error : Option ℕ

-- `&recordingStream{cacheable: true}`
abbrev pub new_recording : Recording
new_recording = record {
  batches = [];
  outcome = none;
  size = 0;
  cacheable = true;
  complete = false;
  closed = false;
  close_error = none;
}

abbrev pub disable_caching : Recording → Recording
disable_caching s = record s { batches = []; size = 0; cacheable = false }

abbrev pub complete_outcome : QueryOutcome
complete_outcome = record { completion = complete; warnings = [] }

-- complete, and without warnings
unfoldable pub is_plain : QueryOutcome → Bool
is_plain outcome = elim outcome.completion [
  | complete ↦ elim outcome.warnings [ [] ↦ true | w ∷ ws ↦ false ]
  | _ ↦ false
]

module _ (batch_size : TupleBatch → ℕ) (outcome_size : QueryOutcome → ℕ) (max_entry_bytes : ℕ) where
  unfoldable pub keep_outcome : Recording → QueryOutcome → Recording
  keep_outcome s outcome =
      if is_plain outcome
      then (if s.cacheable
          then (if ltb max_entry_bytes (s.size + outcome_size outcome)
              then disable_caching (record s { outcome = some outcome })
              else record s { outcome = some outcome; size = s.size + outcome_size outcome })
          else record s { outcome = some outcome })
      else disable_caching (record s { outcome = some outcome })

  -- captureOutcome, on what the wrapped stream says of its outcome
  unfoldable pub capture_outcome : Recording → Option (Option QueryOutcome) → Recording
  unfolding keep_outcome is_plain
  capture_outcome s none = keep_outcome s complete_outcome
  capture_outcome s (some none) = disable_caching (record s { outcome = none })
  capture_outcome s (some (some outcome)) = keep_outcome s outcome

  unfoldable pub record_batch : Recording → TupleBatch → Recording
  record_batch s batch =
      if s.cacheable
      then (if batch_contains_lob_reference batch
          then disable_caching s
          else (if ltb max_entry_bytes (s.size + batch_size batch)
              then disable_caching s
              else record s {
                batches = s.batches ++ batch ∷ [];
                size = s.size + batch_size batch;
              }))
      else s

  on_reply : Recording → Reply → Recording × Result StreamError (Option TupleBatch)
  unfolding capture_outcome record_batch
  on_reply s (ends outcome) =
      (capture_outcome (record s { complete = true }) outcome, err end_of_file)
  on_reply s (fails e) = (record s { cacheable = false }, err (failed e))
  on_reply s (gives none) = (record s { cacheable = false }, ok none)
  on_reply s (gives (some batch)) = (record_batch s batch, ok (some batch))

  unfoldable pub next : Recording → Reply → Recording × Result StreamError (Option TupleBatch)
  unfolding on_reply
  next s reply = if s.closed || s.complete then (s, err end_of_file) else on_reply s reply

-- Close: the new state, what is offered to the cache, and the error returned.
unfoldable pub close : Recording → Option ℕ → Recording × Option CachedResult × Option ℕ
close s reply = if s.closed then (s, none, s.close_error) else (
  record s { closed = true; close_error = reply },
  elim reply [
    | some e ↦ none
    | none ↦
        if s.complete && s.cacheable
        then some (record { batches = s.batches; outcome = s.outcome; size = s.size })
        else none
  ],
  reply,
)

unfoldable pub outcome_of : Recording → Option QueryOutcome
outcome_of s = if s.complete then s.outcome else none

pub record Replay : Type 0 where
  pub result : CachedResult
  pub position : ℕ
  pub is_closed : Bool

abbrev pub new_replay : CachedResult → Replay
new_replay result = record { result = result; position = 0; is_closed = false }

abbrev pub or_end : Replay → Option TupleBatch → Replay × Result StreamError TupleBatch
or_end s none = (s, err end_of_file)
or_end s (some batch) = (record s { position = suc s.position }, ok batch)

-- Next of the replay stream; `context_error` is the caller's context's error.
unfoldable pub replay_next : Replay → Option ℕ → Replay × Result StreamError TupleBatch
replay_next s (some e) = (s, err (failed e))
replay_next s none =
    if s.is_closed || leb (length s.result.batches) s.position
    then (s, err end_of_file)
    else or_end s (get_elem? s.result.batches s.position)

unfoldable pub replay_close : Replay → Replay
replay_close s = record s { is_closed = true }

abbrev pub replay_outcome : Replay → Option QueryOutcome
replay_outcome s = s.result.outcome
