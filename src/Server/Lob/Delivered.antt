-- ===== src/Server/Lob/Delivered.antt =====
-- What a client of ReadLob receives.
use kubling_providers.Base.{
  ℕ, ◌+◌, ◌<◌, ◌≡◌, refl, inl, inr, subst, List, Option, none, some, Bool, Bytes, Result, ok, err,
  Result-cases, All, arith,
}
use kubling_providers.Cache.State.{u64_mod}
use kubling_providers.Server.Status.{returned, Standing, with_close, waits}
use kubling_providers.Server.Lob.{ReadLobRequest, LobReply, lob_connection, read_loop, read_lob}
use kubling_providers.Server.Lob.Chunks.{
  bytes_of, Contiguous, Within, IsProper, Ended, IsRead, nothing-IsRead, read_loop-IsRead,
  read_loop-Ended,
}

read_lob-IsRead :
    (connections : Bytes → Option Bool) (request : ReadLobRequest)
    (opening : Result ℕ (Option (List LobReply × Option ℕ)))
    → request.offset < u64_mod
    → IsRead request request.offset 0 (read_lob connections request opening).0
unfolding read_lob
read_lob-IsRead connections request opening small =
    elim (Result-cases (lob_connection connections request.connection_id request.lob_id)) [
      | inr (e, q) ↦
          rw (q, read_lob)
            (nothing-IsRead request request.offset 0 small (at_start request.requested_length))
      | inl (u, q) ↦ opened q opening
    ]
  where
    at_start : (l : Option ℕ) → Within l 0
    at_start none = tt
    at_start (some n) = omega arith

    opened :
        {u : Unit {0}}
        → lob_connection connections request.connection_id request.lob_id ≡ ok u
        → (o : Result ℕ (Option (List LobReply × Option ℕ)))
        → IsRead request request.offset 0 (read_lob connections request o).0
    opened q (err e) =
        rw (q, read_lob)
          (nothing-IsRead request request.offset 0 small (at_start request.requested_length))
    opened q (ok none) =
        rw (q, read_lob)
          (nothing-IsRead request request.offset 0 small (at_start request.requested_length))
    opened q (ok (some (replies, closing))) =
        rw (q, read_lob)
          (read_loop-IsRead request request.offset 0 replies small (omega arith)
            (at_start request.requested_length))

-- Whatever the connection's stream replies, the chunks that a read sends on join without gap or
-- overlap from the requested offset (a uint64) on, only the last of them may end the read, each
-- keeps to the requested maximum and only an ending one is empty; together they are within the
-- requested length, and no offset wraps.
pub read_lob-Contiguous :
    (connections : Bytes → Option Bool) (request : ReadLobRequest)
    (opening : Result ℕ (Option (List LobReply × Option ℕ)))
    → request.offset < u64_mod
    → Contiguous request.offset (read_lob connections request opening).0
      × All (IsProper request.max_chunk_bytes) (read_lob connections request opening).0
      × Within request.requested_length (bytes_of (read_lob connections request opening).0)
      × (request.offset + bytes_of (read_lob connections request opening).0 < u64_mod)
read_lob-Contiguous connections request opening small =
    let v = read_lob-IsRead connections request opening small in
    (
      v.contiguous,
      v.proper,
      subst (Within request.requested_length) (omega arith) v.within,
      v.no_wrap,
    )

closed_none :
    (standing : Standing) (closing : Option ℕ)
    → with_close standing closing ≡ returned none
    → standing ≡ returned none
closed_none waits closing p = absurd (ground arith)
closed_none (returned (some e)) closing p = absurd (ground arith)
closed_none (returned none) closing p = refl

-- A read that returns without an error has sent a chunk that ends it, as its last.
pub read_lob-Ended :
    (connections : Bytes → Option Bool) (request : ReadLobRequest)
    (opening : Result ℕ (Option (List LobReply × Option ℕ)))
    → (read_lob connections request opening).1 ≡ returned none
    → Ended (read_lob connections request opening).0
unfolding read_lob
read_lob-Ended connections request opening p =
    elim (Result-cases (lob_connection connections request.connection_id request.lob_id)) [
      | inr (e, q) ↦ absurd (ground (arith, q, p))
      | inl (u, q) ↦ opened q opening p
    ]
  where
    opened :
        {u : Unit {0}}
        → lob_connection connections request.connection_id request.lob_id ≡ ok u
        → (o : Result ℕ (Option (List LobReply × Option ℕ)))
        → (read_lob connections request o).1 ≡ returned none
        → Ended (read_lob connections request o).0
    opened q (err e) r = absurd (ground (arith, q, r))
    opened q (ok none) r = absurd (ground (arith, q, r))
    opened q (ok (some (replies, closing))) r =
        rw (q, read_lob)
          (read_loop-Ended request request.offset 0 replies (
            closed_none (read_loop request request.offset 0 replies).1 closing
              (ground (arith, q, r))))
