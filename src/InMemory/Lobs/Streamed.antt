-- ===== src/InMemory/Lobs/Streamed.antt =====
-- A large object of the provider, read through the server (providers/inmemory/lob.go and
-- sdk-go/provider/lob.go).
use mathlib.Core.List.{append-nil}
use kubling_providers.Base.{
  ℕ, zero, suc, ◌+◌, ◌-◌, ◌%◌, ◌≤◌, ◌<◌, ◌≡◌, refl, ap, ◌∙◌, ◌⊎◌, inl, inr, true, false, not, ◌&&◌,
  List, [], ◌∷◌, ◌++◌, Option, none, some, Bytes, bytes_eq, ok, Bool-cases, length, take, drop,
  take-append-drop, length-take, length-drop, take_all, ltb, nat_beq, arith, ltb→lt,
}
use kubling_providers.Cache.State.{u64_mod}
use kubling_providers.Server.Status.{returned}
use kubling_providers.Server.Lob.{
  ReadLobRequest, Chunk, LobReply, gives, ends, over_length, check_chunk, read_loop,
}
use kubling_providers.InMemory.Lobs.{LobStream, NextLob, chunk_read, at_end, refused, next}

-- what the server sees of the stream, when it calls Next until the read ends, that often at most
unfoldable pub replies : ℕ → LobStream → List LobReply
unfolding next
replies zero s = []
replies (suc calls) s =
    let (reply, after) = next none s in
    elim reply [
      | chunk_read chunk ↦ elim chunk.end_of_read [
        | true ↦ gives (some chunk) none ∷ []
        | false ↦ gives (some chunk) none ∷ replies calls after
      ]
      | at_end ↦ ends ∷ []
      | refused e ↦ []
    ]

-- The bytes of the chunks, joined.
abbrev pub joined : List Chunk → Bytes
joined [] = []
joined (c ∷ cs) = c.bytes ++ joined cs

-- The stream can be read for this request, of which so much is sent.
pub record IsReadable (request : ReadLobRequest) (sent : ℕ) (s : LobStream) : Type 0 where
  pub is_open : (s.closed ≡ false) × (s.done ≡ false)
  pub some_size : 0 < s.chunk_size
  pub proper : (request.max_chunk_bytes ≡ 0) ⊎ (s.chunk_size ≤ request.max_chunk_bytes)
  pub within : over_length request.requested_length (length s.bytes) sent ≡ false
  pub no_wrap : (s.offset + length s.bytes < u64_mod) × (sent + length s.bytes < u64_mod)

over_length_part :
    (o : Option ℕ) (size whole sent : ℕ)
    → size ≤ whole
    → over_length o whole sent ≡ false
    → (over_length o size sent ≡ false) × (over_length o (whole - size) (sent + size) ≡ false)
unfolding over_length
over_length_part none size whole sent h k = (refl, refl)
over_length_part (some n) size whole sent h k = (ground arith, ground arith)

check_chunk_ok :
    (request : ReadLobRequest) (expected sent : ℕ) (c : Chunk)
    → c.offset ≡ expected
    → (c.end_of_read ≡ true) ⊎ (0 < length c.bytes)
    → (request.max_chunk_bytes ≡ 0) ⊎ (length c.bytes ≤ request.max_chunk_bytes)
    → over_length request.requested_length (length c.bytes) sent ≡ false
    → expected + length c.bytes < u64_mod
    → check_chunk request expected sent c ≡ ok tt
unfolding check_chunk
check_chunk_ok request expected sent c at filled proper within no_wrap =
    let b0 : not (nat_beq c.offset expected) ≡ false = ground arith in
    let b1 : (not c.end_of_read && nat_beq (length c.bytes) 0) ≡ false = ground arith in
    let b2 : (ltb 0 request.max_chunk_bytes && ltb request.max_chunk_bytes (length c.bytes))
        ≡ false =
      ground arith in
    let b3 : ltb (u64_mod - 1 - expected) (length c.bytes) ≡ false = ground arith in
    rw (b0, b1, b2, within, b3) refl

abbrev last_chunk : LobStream → Chunk
last_chunk s = record { offset = s.offset; bytes = s.bytes; end_of_read = true }

abbrev full_chunk : LobStream → Chunk
full_chunk s = record { offset = s.offset; bytes = take s.chunk_size s.bytes; end_of_read = false }

abbrev advanced : LobStream → LobStream
advanced s = record {
  bytes = drop s.chunk_size s.bytes;
  offset = s.offset + s.chunk_size;
  chunk_size = s.chunk_size;
  done = false;
  closed = s.closed;
}

next_last :
    (s : LobStream)
    → s.closed ≡ false
    → s.done ≡ false
    → ltb s.chunk_size (length s.bytes) ≡ false
    → (next none s).0 ≡ chunk_read (last_chunk s)
unfolding next
next_last s open_stream waiting last =
    let e : nat_beq (length s.bytes) (length s.bytes) ≡ true = ground arith in
    rw (open_stream, waiting, last, next, e, take_all (length s.bytes) s.bytes (omega arith)) refl

next_full :
    (s : LobStream)
    → s.closed ≡ false
    → s.done ≡ false
    → ltb s.chunk_size (length s.bytes) ≡ true
    → next none s ≡ (chunk_read (full_chunk s), advanced s)
unfolding next
next_full s open_stream waiting more =
    let e : nat_beq s.chunk_size (length s.bytes) ≡ false = ground arith in ground arith

-- The server takes the whole of such a stream, and ends without an error.
pub read_loop-replies :
    (request : ReadLobRequest) (calls sent : ℕ) (s : LobStream)
    → IsReadable request sent s
    → length s.bytes < calls
    → (joined (read_loop request s.offset sent (replies calls s)).0 ≡ s.bytes)
      × ((read_loop request s.offset sent (replies calls s)).1 ≡ returned none)
unfolding read_loop replies
read_loop-replies request zero sent s r h = absurd (omega arith)
read_loop-replies request (suc calls) sent s r h =
    elim (Bool-cases (ltb s.chunk_size (length s.bytes))) [
      | inr last ↦
          let e = next_last s r.is_open.0 r.is_open.1 last in
          let checked =
            check_chunk_ok request s.offset sent (last_chunk s) refl (inl refl) (ground arith)
              r.within (r.no_wrap.0) in
          rw (e, replies, checked, read_loop) (append-nil s.bytes, refl)
      | inl more ↦
          let fewer = ltb→lt s.chunk_size (length s.bytes) more in
          let size = length-take s.chunk_size s.bytes (omega (arith, fewer)) in
          let left = length-drop s.chunk_size s.bytes in
          let e = next_full s r.is_open.0 r.is_open.1 more in
          let (part, rest) =
            over_length_part request.requested_length s.chunk_size (length s.bytes) sent
              (omega (arith, fewer)) r.within in
          let checked =
            check_chunk_ok request s.offset sent (full_chunk s) refl (inr (rw size r.some_size))
              (rw size r.proper) (rw size part) (omega (arith, size, fewer)) in
          let at : (s.offset + length (take s.chunk_size s.bytes)) % u64_mod
              ≡ s.offset + s.chunk_size =
            omega (arith, size, fewer) in
          let told : (sent + length (take s.chunk_size s.bytes)) % u64_mod ≡ sent + s.chunk_size =
            omega (arith, size, fewer) in
          let moved : (next none s).1 ≡ advanced s = ap (λ (p : NextLob × LobStream). p.1) e in
          let ih =
            read_loop-replies request calls (sent + s.chunk_size) (advanced s)
              (record {
                is_open = (r.is_open.0, refl);
                some_size = r.some_size;
                proper = r.proper;
                within = rw left rest;
                no_wrap = (omega (arith, left, fewer), omega (arith, left, fewer));
              })
              (omega (arith, left, fewer)) in
          rw (e, replies, checked, read_loop, at, told, moved)
            (
              ap (λ t. take s.chunk_size s.bytes ++ t) ih.0 ∙ take-append-drop s.chunk_size s.bytes,
              ih.1,
            )
    ]
