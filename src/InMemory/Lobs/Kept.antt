-- ===== src/InMemory/Lobs/Kept.antt =====
-- A large object that is kept can be read as a whole, or in part (providers/inmemory/lob.go).
use kubling_providers.Base.{
  ℕ, ◌+◌, ◌-◌, ◌≤◌, ◌<◌, ◌≡◌, refl, sym, ◌∙◌, ◌⊎◌, inl, inr, false, not, ◌&&◌, List, Option, none,
  some, Bytes, lookup, insert, lookup-insert_self, bytes_eq, ok, Bool-cases, Option-cases,
  Result-cases, length, take, drop, length-drop, length-take, take_all, ltb, leb, arith, ◌==◌,
  subst,
}
use kubling_providers.Messages.{ValueType, clob}
use kubling_providers.Server.Structure.Types.{type_eq}
use kubling_providers.Server.Status.{returned}
use kubling_providers.Server.Lob.{ReadLobRequest, over_length, read_loop}
use kubling_providers.InMemory.Values.{StoredReference, lob_reference}
use kubling_providers.InMemory.Utf8.{utf8_valid}
use kubling_providers.InMemory.Lobs.{
  max_lob_bytes, lob_retention, StoredLob, Connection, LobStream, new_id, new_lob_value, read_end,
  chunk_size_of, stream_of, read_lob,
}
use kubling_providers.InMemory.Lobs.Streamed.{replies, joined, IsReadable, read_loop-replies}

-- The part of the object that a request asks for.
abbrev pub wanted : ReadLobRequest → Bytes → Bytes
wanted request bytes = elim request.requested_length [
  | none ↦ drop request.offset bytes
  | some n ↦ take n (drop request.offset bytes)
]

part : ReadLobRequest → Bytes → Bytes
part request bytes =
    take (read_end request (length bytes) - request.offset) (drop request.offset bytes)

part-wanted :
    (o : Option ℕ) (request : ReadLobRequest) (bytes : Bytes)
    → request.requested_length ≡ o
    → request.offset ≤ length bytes
    → (part request bytes ≡ wanted request bytes)
      × (over_length request.requested_length (length (part request bytes)) 0 ≡ false)
      × (request.offset + length (part request bytes) ≤ length bytes)
unfolding part read_end over_length
part-wanted none request bytes e h =
    let left = length-drop request.offset bytes in
    let all =
      take_all (length bytes - request.offset) (drop request.offset bytes) (omega (arith, left)) in
    rw (e, read_end, over_length) (all, refl, rw all (omega (arith, left)))
part-wanted (some n) request bytes e h =
    let left = length-drop request.offset bytes in
    elim (Bool-cases (ltb n (length bytes - request.offset))) [
      | inl fewer ↦
          let exact : request.offset + n - request.offset ≡ n = omega arith in
          let size = length-take n (drop request.offset bytes) (ground (arith, left)) in
          rw (e, read_end, over_length, fewer, exact)
            (refl, rw size (ground arith), rw size (ground arith))
      | inr more ↦
          let all =
            take_all (length bytes - request.offset) (drop request.offset bytes)
              (omega (arith, left)) in
          let whole = take_all n (drop request.offset bytes) (ground (arith, left)) in
          rw (e, read_end, over_length, more, all, whole)
            (refl, rw left (ground arith), rw left (omega arith))
    ]

not_less : (a b : ℕ) → ltb a b ≡ false → b ≤ a
not_less a b h = ground arith

chunk_size_proper :
    (request : ReadLobRequest)
    → (0 < chunk_size_of request)
      × ((request.max_chunk_bytes ≡ 0) ⊎ (chunk_size_of request ≤ request.max_chunk_bytes))
unfolding chunk_size_of
chunk_size_proper request = (ground arith, ground arith)

-- what a new reference stands for
record Kept (now : ℕ) (bytes : Bytes) (r : StoredReference) (before after : Connection)
    : Type 0 where
  same : after.closed ≡ before.closed
  kept :
      lookup r.lob_id after.lobs ≡ some (record { bytes = bytes; expires_at = now + lob_retention })
  small : length bytes ≤ max_lob_bytes

new_lob_value-Kept :
    (now : ℕ) (draws : List (Option Bytes)) (t : ValueType) (bytes : Bytes)
    (before after : Connection) (r : StoredReference)
    → new_lob_value now draws t bytes before ≡ some (ok (lob_reference (some r)), after)
    → Kept now bytes r before after
unfolding new_lob_value
new_lob_value-Kept now draws t bytes before after r h =
    elim (Bool-cases ((t == clob) && not (utf8_valid bytes))) [
      | inl invalid ↦ absurd (cc (rw (invalid, new_lob_value) at h))
      | inr valid ↦ elim (Bool-cases (ltb max_lob_bytes (length bytes))) [
        | inl large ↦ absurd (cc (rw (valid, large, new_lob_value) at h))
        | inr small ↦ elim (Option-cases (new_id before.lobs draws)) [
          | inl stuck ↦ absurd (cc (rw (valid, small, stuck, new_lob_value) at h))
          | inr (answer, drawn) ↦ elim (Result-cases answer) [
            | inr (e, failed) ↦ absurd (cc (rw (valid, small, drawn, failed, new_lob_value) at h))
            | inl (id, fresh) ↦
                let lob : StoredLob = record { bytes = bytes; expires_at = now + lob_retention } in
                let stored : Connection = record before { lobs = insert id lob before.lobs } in
                let h' = rw (valid, small, drawn, fresh, new_lob_value) at h in
                let same_id : id ≡ r.lob_id = ground arith in
                let same : stored ≡ after = cc h' in
                rw (← same) (record {
                  same = refl;
                  kept =
                      subst (λ i. lookup i (insert id lob before.lobs) ≡ some lob) same_id
                        (lookup-insert_self id lob before.lobs);
                  small = not_less max_lob_bytes (length bytes) small;
                })
          ]
        ]
      ]
    ]

read_lob_found :
    (later : ℕ) (request : ReadLobRequest) (c : Connection) (lob : StoredLob)
    → c.closed ≡ false
    → lookup request.lob_id c.lobs ≡ some lob
    → leb lob.expires_at later ≡ false
    → read_lob none later request c ≡ (stream_of request lob.bytes, c)
unfolding read_lob
read_lob_found later request c lob is_open found valid = ground arith

-- A large object that newLobValue has put into an open connection is read back through the server's loop
-- until its retention ends: for an offset that is not past its end, ReadLob gives a stream and keeps the
-- connection as it is; and with more calls of Next than the object has bytes the loop returns without an error,
-- and the chunks that it passed on, joined, are the bytes that were asked for.
pub new_lob_value-wanted :
    (now later : ℕ) (draws : List (Option Bytes)) (t : ValueType) (bytes : Bytes)
    (before after : Connection) (r : StoredReference) (request : ReadLobRequest)
    → new_lob_value now draws t bytes before ≡ some (ok (lob_reference (some r)), after)
    → before.closed ≡ false
    → request.lob_id ≡ r.lob_id
    → request.offset ≤ length bytes
    → later < now + lob_retention
    → (s : LobStream) × (read_lob none later request after ≡ (ok s, after))
      × ((calls : ℕ)
          → length bytes < calls
          → (joined (read_loop request request.offset 0 (replies calls s)).0 ≡ wanted request bytes)
            × ((read_loop request request.offset 0 (replies calls s)).1 ≡ returned none))
unfolding read_lob stream_of part
new_lob_value-wanted now later draws t bytes before after r request h open_before named offset
      soon =
    let k = new_lob_value-Kept now draws t bytes before after r h in
    let found : lookup request.lob_id after.lobs
        ≡ some (record { bytes = bytes; expires_at = now + lob_retention }) =
      subst
        (λ i.
          lookup i after.lobs ≡ some (record { bytes = bytes; expires_at = now + lob_retention }))
        (sym named) k.kept in
    let is_open : after.closed ≡ false = k.same ∙ open_before in
    let valid : leb (now + lob_retention) later ≡ false = ground arith in
    let inside : ltb (length bytes) request.offset ≡ false = ground arith in
    let s : LobStream = record {
      bytes = part request bytes;
      offset = request.offset;
      chunk_size = chunk_size_of request;
      done = false;
      closed = false;
    } in
    let (whole, within, size) = part-wanted request.requested_length request bytes refl offset in
    let (sized, proper) = chunk_size_proper request in
    let readable : IsReadable request 0 s = record {
      is_open = (refl, refl);
      some_size = sized;
      proper = proper;
      within = within;
      no_wrap = (omega (arith, size, k.small), omega (arith, size, k.small));
    } in
    (
      s,
      read_lob_found later request after
            (record { bytes = bytes; expires_at = now + lob_retention }) is_open found valid
          ∙ rw inside refl,
      λ calls enough.
          let (all, ended) = read_loop-replies request calls 0 s readable (omega (arith, size)) in
          (all ∙ whole, ended),
    )
