-- ===== src/Server/Lob/Chunks.antt =====
-- What a read of a large object sends.
use kubling_providers.Base.{
  ℕ, ◌+◌, ◌%◌, ◌≤◌, ◌<◌, ◌≡◌, subst, ◌⊎◌, inl, inr, List, [], ◌∷◌, Option, none, some, true, false,
  not, ◌&&◌, ok, reject_ok, Result-cases, Bool-cases, length, ltb, nat_beq, All, arith,
}
use kubling_providers.Cache.State.{u64_mod}
use kubling_providers.Server.Status.{internal, returned}
use kubling_providers.Server.Lob.{
  ReadLobRequest, Chunk, LobReply, gives, ends, fails, over_length, check_chunk, read_loop,
}

abbrev pub size_of : Chunk → ℕ
size_of chunk = length chunk.bytes

abbrev pub bytes_of : List Chunk → ℕ
bytes_of [] = 0
bytes_of (c ∷ cs) = size_of c + bytes_of cs

-- The chunks join without a gap or an overlap from that offset on, and only the last ends the read.
abbrev pub Contiguous : ℕ → List Chunk → Type 0
Contiguous at [] = Unit
Contiguous at (c ∷ []) = c.offset ≡ at
Contiguous at (c ∷ d ∷ cs) =
    (c.offset ≡ at) × (c.end_of_read ≡ false) × Contiguous (at + size_of c) (d ∷ cs)

-- `total` more bytes are within the requested length, if there is one.
abbrev pub Within : Option ℕ → ℕ → Type 0
Within none total = Unit
Within (some n) total = total ≤ n

-- The chunk keeps to the requested maximum, where 0 means none, and is not empty unless it is the end.
pub record IsProper (max : ℕ) (c : Chunk) : Type 0 where
  pub bounded : (max ≡ 0) ⊎ (size_of c ≤ max)
  pub filled : (c.end_of_read ≡ true) ⊎ (0 < size_of c)

pub record Checked (request : ReadLobRequest) (expected sent : ℕ) (c : Chunk) : Type 0 where
  at_offset : c.offset ≡ expected
  proper : IsProper request.max_chunk_bytes c
  within : Within request.requested_length (sent + size_of c)
  no_wrap : expected + size_of c < u64_mod

check_chunk-Checked :
    (request : ReadLobRequest) (expected sent : ℕ) (c : Chunk)
    → expected < u64_mod
    → check_chunk request expected sent c ≡ ok tt
    → Checked request expected sent c
unfolding check_chunk
check_chunk-Checked request expected sent c small p =
    let (offset_ok, p1) = (reject_ok (not (nat_beq c.offset expected)) internal _ tt).0 p in
    let (filled_ok, p2) =
      (reject_ok (not c.end_of_read && nat_beq (length c.bytes) 0) internal _ tt).0 p1 in
    let (bounded_ok, p3) =
      (reject_ok (ltb 0 request.max_chunk_bytes && ltb request.max_chunk_bytes (length c.bytes))
          internal _ tt).0
        p2 in
    let (within_ok, p4) =
      (reject_ok (over_length request.requested_length (length c.bytes) sent) internal _ tt).0 p3 in
    record {
      at_offset = ground arith;
      proper = record { bounded = ground arith; filled = ground arith };
      within = named request.requested_length within_ok;
      no_wrap = ground arith;
    }
  where
    named :
        (l : Option ℕ) → over_length l (length c.bytes) sent ≡ false → Within l (sent + size_of c)
    named none q = tt
    named (some n) q = unfold over_length in ground arith

-- What the loop has sent from that point on.
pub record IsRead (request : ReadLobRequest) (expected sent : ℕ) (chunks : List Chunk)
    : Type 0 where
  pub contiguous : Contiguous expected chunks
  pub proper : All (IsProper request.max_chunk_bytes) chunks
  pub within : Within request.requested_length (sent + bytes_of chunks)
  pub no_wrap : expected + bytes_of chunks < u64_mod

Contiguous-first :
    (at : ℕ) (c : Chunk) (cs : List Chunk)
    → c.offset ≡ at
    → c.end_of_read ≡ false
    → Contiguous (at + size_of c) cs
    → Contiguous at (c ∷ cs)
Contiguous-first at c [] p q v = p
Contiguous-first at c (d ∷ cs) p q v = (p, q, v)

pub nothing-IsRead :
    (request : ReadLobRequest) (expected sent : ℕ)
    → expected < u64_mod
    → Within request.requested_length sent
    → IsRead request expected sent []
nothing-IsRead request expected sent small within = record {
  contiguous = tt;
  proper = tt;
  within = subst (Within request.requested_length) (omega arith) within;
  no_wrap = omega arith;
}

pub read_loop-IsRead :
    (request : ReadLobRequest) (expected sent : ℕ) (replies : List LobReply)
    → expected < u64_mod
    → sent ≤ expected
    → Within request.requested_length sent
    → IsRead request expected sent (read_loop request expected sent replies).0
unfolding read_loop
read_loop-IsRead request expected sent [] small behind within =
    nothing-IsRead request expected sent small within
read_loop-IsRead request expected sent (ends ∷ replies) small behind within =
    nothing-IsRead request expected sent small within
read_loop-IsRead request expected sent (fails e ∷ replies) small behind within =
    nothing-IsRead request expected sent small within
read_loop-IsRead request expected sent (gives none sending ∷ replies) small behind within =
    nothing-IsRead request expected sent small within
read_loop-IsRead request expected sent (gives (some c) (some e) ∷ replies) small behind within =
    elim (Result-cases (check_chunk request expected sent c)) [
      | inr (f, q) ↦ rw (q, read_loop) (nothing-IsRead request expected sent small within)
      | inl (u, q) ↦ rw (q, read_loop) (nothing-IsRead request expected sent small within)
    ]
read_loop-IsRead request expected sent (gives (some c) none ∷ replies) small behind within =
    elim (Result-cases (check_chunk request expected sent c)) [
      | inr (f, q) ↦ rw (q, read_loop) (nothing-IsRead request expected sent small within)
      | inl (u, q) ↦
          let v = check_chunk-Checked request expected sent c small q in
          elim (Bool-cases c.end_of_read) [
            | inl last ↦
                rw (q, last, read_loop)
                  (record {
                    contiguous = v.at_offset;
                    proper = (v.proper, tt);
                    within = subst (Within request.requested_length) (omega arith) v.within;
                    no_wrap = omega (arith, v.no_wrap);
                  })
            | inr more ↦
                let at : (expected + size_of c) % u64_mod ≡ expected + size_of c =
                  omega (arith, v.no_wrap) in
                let count : (sent + size_of c) % u64_mod ≡ sent + size_of c =
                  omega (arith, v.no_wrap) in
                let rest =
                  read_loop-IsRead request (expected + size_of c) (sent + size_of c) replies
                    v.no_wrap (omega arith) v.within in
                rw (q, more, at, count, read_loop)
                  (record {
                    contiguous =
                        Contiguous-first expected c
                          (read_loop request (expected + size_of c) (sent + size_of c) replies).0
                          v.at_offset more rest.contiguous;
                    proper = (v.proper, rest.proper);
                    within = subst (Within request.requested_length) (omega arith) rest.within;
                    no_wrap = omega (arith, rest.no_wrap);
                  })
          ]
    ]

-- The last chunk ends the read.
abbrev pub Ended : List Chunk → Type 0
Ended [] = ⊥
Ended (c ∷ []) = c.end_of_read ≡ true
Ended (c ∷ d ∷ cs) = Ended (d ∷ cs)

Ended-first : (c : Chunk) (cs : List Chunk) → Ended cs → Ended (c ∷ cs)
Ended-first c [] e = absurd e
Ended-first c (d ∷ cs) e = e

pub read_loop-Ended :
    (request : ReadLobRequest) (expected sent : ℕ) (replies : List LobReply)
    → (read_loop request expected sent replies).1 ≡ returned none
    → Ended (read_loop request expected sent replies).0
unfolding read_loop
read_loop-Ended request expected sent [] p = absurd (ground arith)
read_loop-Ended request expected sent (ends ∷ replies) p = absurd (ground arith)
read_loop-Ended request expected sent (fails e ∷ replies) p = absurd (ground arith)
read_loop-Ended request expected sent (gives none sending ∷ replies) p = absurd (ground arith)
read_loop-Ended request expected sent (gives (some c) (some e) ∷ replies) p =
    elim (Result-cases (check_chunk request expected sent c)) [
      | inr (f, q) ↦ absurd (ground (arith, q, p))
      | inl (u, q) ↦ absurd (ground (arith, q, p))
    ]
read_loop-Ended request expected sent (gives (some c) none ∷ replies) p =
    elim (Result-cases (check_chunk request expected sent c)) [
      | inr (f, q) ↦ absurd (ground (arith, q, p))
      | inl (u, q) ↦ elim (Bool-cases c.end_of_read) [
        | inl last ↦ rw (q, last, read_loop) last
        | inr more ↦
            rw (q, more, read_loop)
              (Ended-first c
                (read_loop request ((expected + size_of c) % u64_mod) ((sent + size_of c) % u64_mod)
                  replies).0
                (read_loop-Ended request ((expected + size_of c) % u64_mod)
                  ((sent + size_of c) % u64_mod) replies (ground (arith, q, more, p))))
      ]
    ]
