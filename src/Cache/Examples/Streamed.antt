-- ===== src/Cache/Examples/Streamed.antt =====
-- A recorded stream and its replay (sdk-go/provider/cache/query.go).
use kubling_providers.Base.{◌≡◌, ◌≤◌, ◌+◌, ℕ, refl, some, none, List, [], ◌∷◌, length, arith}
use kubling_providers.Messages.{TupleBatch, QueryOutcome}
use kubling_providers.Cache.Keys.{CachedResult}
use kubling_providers.Cache.Stream.{
  Reply, gives, ends, complete_outcome, new_recording, close, next, new_replay, replay_outcome,
  batch_contains_lob_reference, is_plain,
}
use kubling_providers.Cache.Stream.Recorded.{read, recordable, recorded}
use kubling_providers.Cache.Stream.Replayed.{deliver, delivered, said, replay-recorded}

abbrev batch : TupleBatch
batch = record { fields = []; tuples = none ∷ [] }

abbrev batch_size : TupleBatch → ℕ
batch_size b = 2 + length b.tuples

abbrev outcome_size : QueryOutcome → ℕ
outcome_size o = 1 + length o.warnings

abbrev replies : List Reply
replies = gives (some batch) ∷ gives (some batch) ∷ ends none ∷ []

abbrev expected : CachedResult
expected = record { batches = batch ∷ batch ∷ []; outcome = some complete_outcome; size = 7 }

offered : (close (read batch_size outcome_size 10 new_recording replies) none).1 ≡ some expected
unfolding close read next batch_contains_lob_reference is_plain
offered = refl

recorded_example :
    ((close (read batch_size outcome_size 10 new_recording replies) none).1
      ≡ recordable batch_size outcome_size 10 [] 0 replies)
    × ((close (read batch_size outcome_size 10 new_recording replies) (some 5)).1 ≡ none)
recorded_example = recorded batch_size outcome_size 10 replies 5

replay-recorded_example :
    (deliver 4 (new_replay expected) ≡ delivered replies)
    × (replay_outcome (new_replay expected) ≡ said replies)
    × (expected.size ≤ 10)
replay-recorded_example =
    replay-recorded batch_size outcome_size 10 replies expected 4 offered (omega arith)
