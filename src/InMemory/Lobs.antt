-- ===== src/InMemory/Lobs.antt =====
-- Connections and their large objects (providers/inmemory/connection.go and lob.go). The clock's readings,
-- in nanoseconds, and what crypto/rand gives are arguments.
pub mod Streamed
pub mod Kept
use kubling_providers.Base.{
  ℕ, ◌+◌, ◌-◌, ◌/◌, Bool, true, false, not, ◌&&◌, ◌||◌, List, [], ◌∷◌, Option, none, some, Bytes,
  bytes_eq, Map, lookup, insert, delete, Result, ok, err, ◌>>=◌, ◌>>◌, reject_if, length, take,
  drop, ltb, leb, nat_beq, if◌then◌else◌, ◌==◌,
}
use kubling_providers.Messages.{ValueType, clob}
use kubling_providers.Server.Structure.Types.{type_eq}
use kubling_providers.Server.Lob.{ReadLobRequest, Chunk}
use kubling_providers.InMemory.Values.{Value, lob_reference}
use kubling_providers.InMemory.Model.{
  Refusal, invalid_argument, not_found, failed_precondition, resource_exhausted, internal,
  unimplemented, interrupted,
}
use kubling_providers.InMemory.Utf8.{utf8_valid}

abbrev pub max_lob_chunk_bytes : ℕ
max_lob_chunk_bytes = 65_536

abbrev pub max_lob_bytes : ℕ
max_lob_bytes = 1_048_576

-- five minutes
abbrev pub lob_retention : ℕ
lob_retention = 300_000_000_000

pub record StoredLob : Type 0 where
  pub bytes : Bytes
  pub expires_at : ℕ

pub record Connection : Type 0 where
  pub closed : Bool
  pub lobs : Map Bytes StoredLob

pub record LobStream : Type 0 where
  pub bytes : Bytes
  pub offset : ℕ
  pub chunk_size : ℕ
  pub done : Bool
  pub closed : Bool

abbrev pub context_error : Option ℕ → Result Refusal (Unit {0})
context_error none = ok tt
context_error (some e) = err (interrupted e)

-- lockOpen
abbrev pub lock_open : Bool → Result Refusal (Unit {0})
lock_open closed = reject_if closed failed_precondition

-- Open
abbrev pub opened : Connection
opened = record { closed = false; lobs = [] }

-- Close
unfoldable pub close : Connection → Connection
close c = record { closed = true; lobs = [] }

-- Begin, Commit, Rollback and InTransaction
abbrev pub transactions_unsupported : Refusal
transactions_unsupported = unimplemented

-- The first identifier that is new; nothing where all that are drawn are in use.
unfoldable pub new_id : Map Bytes StoredLob → List (Option Bytes) → Option (Result Refusal Bytes)
unfolding lookup
new_id lobs [] = none
new_id lobs (none ∷ draws) = some (err internal)
new_id lobs (some id ∷ draws) = elim (lookup id lobs) [
  | none ↦ some (ok id)
  | some lob ↦ new_id lobs draws
]

-- newLobValue; nothing where it does not return.
unfoldable pub new_lob_value :
    ℕ
    → List (Option Bytes)
    → ValueType
    → Bytes
    → Connection
    → Option (Result Refusal Value × Connection)
unfolding utf8_valid new_id insert
new_lob_value now draws t bytes c = elim ((t == clob) && not (utf8_valid bytes)) [
  | true ↦ some (err internal, c)
  | false ↦ elim (ltb max_lob_bytes (length bytes)) [
    | true ↦ some (err resource_exhausted, c)
    | false ↦ elim (new_id c.lobs draws) [
      | none ↦ none
      | some (err e) ↦ some (err e, c)
      | some (ok id) ↦ some (
        ok (
            lob_reference (
              some (record {
                lob_id = id;
                lob_type = t;
                size_bytes = length bytes;
                expires_at_unix_ms = (now + lob_retention) / 1_000_000;
              }))),
        record c {
          lobs = insert id (record { bytes = bytes; expires_at = now + lob_retention }) c.lobs;
        },
      )
    ]
  ]
]

-- the end of the read, of an object of that size
unfoldable pub read_end : ReadLobRequest → ℕ → ℕ
read_end request size = elim request.requested_length [
  | none ↦ size
  | some n ↦ if ltb n (size - request.offset) then request.offset + n else size
]

unfoldable pub chunk_size_of : ReadLobRequest → ℕ
chunk_size_of request =
    if ltb 0 request.max_chunk_bytes && ltb request.max_chunk_bytes max_lob_chunk_bytes
    then request.max_chunk_bytes
    else max_lob_chunk_bytes

-- the stream over a part of the object
unfoldable pub stream_of : ReadLobRequest → Bytes → Result Refusal LobStream
unfolding take drop read_end chunk_size_of
stream_of request bytes =
    reject_if (ltb (length bytes) request.offset) invalid_argument
    >> ok (record {
      bytes = take (read_end request (length bytes) - request.offset) (drop request.offset bytes);
      offset = request.offset;
      chunk_size = chunk_size_of request;
      done = false;
      closed = false;
    })

-- ReadLob, by a clock that reads `now`; an object whose time is over is taken out.
unfoldable pub read_lob :
    Option ℕ → ℕ → ReadLobRequest → Connection → Result Refusal LobStream × Connection
unfolding lookup delete stream_of
read_lob context now request c = elim (lock_open c.closed >> context_error context) [
  | err e ↦ (err e, c)
  | ok u ↦ elim (lookup request.lob_id c.lobs) [
    | none ↦ (err not_found, c)
    | some lob ↦ elim (leb lob.expires_at now) [
      | true ↦ (err not_found, record c { lobs = delete request.lob_id c.lobs })
      | false ↦ (stream_of request lob.bytes, c)
    ]
  ]
]

-- ReleaseLob
unfoldable pub release_lob : Option ℕ → Bytes → Connection → Result Refusal (Unit {0}) × Connection
unfolding delete
release_lob context id c = elim (lock_open c.closed >> context_error context) [
  | err e ↦ (err e, c)
  | ok u ↦ (ok tt, record c { lobs = delete id c.lobs })
]

-- What Next gives: a chunk, the end of the stream, or an error.
pub data NextLob : Type 0 where
  chunk_read : Chunk → NextLob
  at_end : NextLob
  refused : Refusal → NextLob

-- Next, of the stream
unfoldable pub next : Option ℕ → LobStream → NextLob × LobStream
unfolding take drop
next (some e) s = (refused (interrupted e), s)
next none s = elim (s.closed || s.done) [
  | true ↦ (at_end, s)
  | false ↦
      let size = if ltb s.chunk_size (length s.bytes) then s.chunk_size else length s.bytes in
      let ends = nat_beq size (length s.bytes) in
      (
        chunk_read (record { offset = s.offset; bytes = take size s.bytes; end_of_read = ends }),
        record s { offset = s.offset + size; bytes = drop size s.bytes; done = ends },
      )
]

-- Close, of the stream
unfoldable pub close_stream : LobStream → LobStream
close_stream s = record s { closed = true; bytes = [] }
