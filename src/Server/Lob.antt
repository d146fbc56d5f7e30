-- ===== src/Server/Lob.antt =====
-- Streams of large objects (sdk-go/provider/lob.go). The connection's replies and those of the
-- transport are arguments. Offsets and counts are uint64 and wrap.
pub mod Chunks
pub mod Delivered
use kubling_providers.Base.{
  ℕ, ◌+◌, ◌-◌, ◌%◌, List, [], ◌∷◌, Option, none, some, Bool, true, false, not, ◌&&◌, ◌||◌, Bytes,
  Result, ok, err, ◌>>=◌, ◌>>◌, reject_if, length, ltb, nat_beq, if◌then◌else◌,
}
use kubling_providers.Cache.State.{u64_mod}
use kubling_providers.Cache.State.Expand.{is_empty}
use kubling_providers.Server.Status.{
  Fault, invalid_argument, internal, unimplemented, foreign, acquire_connection, Standing, waits,
  returned, with_close,
}

pub record ReadLobRequest : Type 0 where
  pub connection_id : Bytes
  pub lob_id : Bytes
  pub offset : ℕ
  pub requested_length : Option ℕ
  pub max_chunk_bytes : ℕ

pub record Chunk : Type 0 where
  pub offset : ℕ
  pub bytes : Bytes
  pub end_of_read : Bool

-- A reply of the connection's stream: the end, an error, or a chunk, which may be nil, with the error
-- of sending it on, if there is one.
pub data LobReply : Type 0 where
  gives : Option Chunk → Option ℕ → LobReply
  ends : LobReply
  fails : ℕ → LobReply

-- more than the requested length, with `sent` bytes sent before
unfoldable pub over_length : Option ℕ → ℕ → ℕ → Bool
over_length none size sent = false
over_length (some n) size sent = ltb n size || ltb (n - size) sent

unfoldable pub check_chunk : ReadLobRequest → ℕ → ℕ → Chunk → Result Fault (Unit {0})
unfolding over_length
check_chunk request expected sent chunk =
    let size = length chunk.bytes in
    reject_if (not (nat_beq chunk.offset expected)) internal
    >> reject_if (not chunk.end_of_read && nat_beq size 0) internal
    >> reject_if (ltb 0 request.max_chunk_bytes && ltb request.max_chunk_bytes size) internal
    >> reject_if (over_length request.requested_length size sent) internal
    >> reject_if (ltb (u64_mod - 1 - expected) size) internal

-- the loop: the chunks sent, and how the stream stands
unfoldable pub read_loop : ReadLobRequest → ℕ → ℕ → List LobReply → List Chunk × Standing
unfolding check_chunk
read_loop request expected sent [] = ([], waits)
read_loop request expected sent (ends ∷ replies) = ([], returned (some internal))
read_loop request expected sent (fails e ∷ replies) = ([], returned (some (foreign e)))
read_loop request expected sent (gives none sending ∷ replies) = ([], returned (some internal))
read_loop request expected sent (gives (some chunk) sending ∷ replies) =
    elim (check_chunk request expected sent chunk) [
      | err e ↦ ([], returned (some e))
      | ok _ ↦ elim sending [
        | some e ↦ ([], returned (some (foreign e)))
        | none ↦ elim chunk.end_of_read [
          | true ↦ (chunk ∷ [], returned none)
          | false ↦
              let size = length chunk.bytes in
              let (chunks, standing) =
                read_loop request ((expected + size) % u64_mod) ((sent + size) % u64_mod) replies in
              (chunk ∷ chunks, standing)
        ]
      ]
    ]

-- the checks before the stream is opened; `connections` tells of a registered connection whether it
-- has LOBs
unfoldable pub lob_connection : (Bytes → Option Bool) → Bytes → Bytes → Result Fault (Unit {0})
unfolding acquire_connection
lob_connection connections connection_id lob_id =
    acquire_connection connections connection_id >>= λ has_lobs.
    reject_if (not has_lobs) unimplemented >> reject_if (is_empty lob_id) invalid_argument

-- ReadLob; `opening` is what the connection's ReadLob gives: an error, a nil stream, or the replies of
-- the stream and of its Close.
unfoldable pub read_lob :
    (Bytes → Option Bool)
    → ReadLobRequest
    → Result ℕ (Option (List LobReply × Option ℕ))
    → List Chunk × Standing
unfolding lob_connection read_loop
read_lob connections request opening =
    elim (lob_connection connections request.connection_id request.lob_id) [
      | err e ↦ ([], returned (some e))
      | ok _ ↦ elim opening [
        | err e ↦ ([], returned (some (foreign e)))
        | ok none ↦ ([], returned (some internal))
        | ok (some (replies, closing)) ↦
            let (chunks, standing) = read_loop request request.offset 0 replies in
            (chunks, with_close standing closing)
      ]
    ]

-- ReleaseLob; `reply` is the connection's error, if it has one.
unfoldable pub release_lob : (Bytes → Option Bool) → Bytes → Bytes → Option ℕ → Option Fault
unfolding lob_connection
release_lob connections connection_id lob_id reply =
    elim (lob_connection connections connection_id lob_id) [
      | err e ↦ some e
      | ok _ ↦ elim reply [ none ↦ none | some e ↦ some (foreign e) ]
    ]
