-- ===== src/InMemory/Stream.antt =====
-- The stream of a result's batches (providers/inmemory/result_stream.go). The sum of the index and the batch
-- size does not wrap: the one is at most the length of a slice of pointers, the other comes from 32 bits.
pub mod Drained
use kubling_providers.Base.{
  ℕ, ◌+◌, ◌-◌, Bool, true, false, ◌||◌, List, [], ◌∷◌, Option, none, some, take, drop, length, ltb,
  leb, if◌then◌else◌,
}
use kubling_providers.Messages.{Field}
use kubling_providers.InMemory.Values.{Value}
use kubling_providers.InMemory.Query.{ResultStream}

-- TupleBatch
pub record Batch : Type 0 where
  pub fields : List Field
  pub tuples : List (List Value)

-- What Next gives: a batch, io.EOF, or the context's error.
pub data NextBatch : Type 0 where
  batch : Batch → NextBatch
  end_of_file : NextBatch
  interrupted : ℕ → NextBatch

-- Next
unfoldable pub next : Option ℕ → ResultStream → NextBatch × ResultStream
unfolding take drop
next (some e) s = (interrupted e, s)
next none s = elim (s.closed || leb (length s.tuples) s.index) [
  | true ↦ (end_of_file, s)
  | false ↦
      let sum = s.index + s.batch_size in
      let end = if ltb (length s.tuples) sum then length s.tuples else sum in
      (
        batch (record { fields = s.fields; tuples = take (end - s.index) (drop s.index s.tuples) }),
        record s { index = end },
      )
]

-- Close
unfoldable pub close : ResultStream → ResultStream
close s = record s { closed = true; fields = []; tuples = [] }
