-- ===== src/Server/Examples/Read.antt =====
-- Reads of a large object (sdk-go/provider/lob.go).
use kubling_providers.Base.{
  ℕ, ◌+◌, ◌<◌, ◌≡◌, refl, List, [], ◌∷◌, Option, none, some, Bool, true, false, Bytes, codes,
  Result, ok, All, arith,
}
use kubling_providers.Cache.State.{u64_mod}
use kubling_providers.Server.Status.{returned}
use kubling_providers.Server.Lob.{ReadLobRequest, LobReply, gives, read_lob}
use kubling_providers.Server.Lob.Chunks.{bytes_of, Contiguous, Within, IsProper}
use kubling_providers.Server.Lob.Delivered.{read_lob-Contiguous}

abbrev connections : Bytes → Option Bool
connections id = some true

abbrev request : ReadLobRequest
request = record {
  connection_id = codes "c1";
  lob_id = codes "photo";
  offset = 10;
  requested_length = some 5;
  max_chunk_bytes = 3;
}

abbrev opening : Result ℕ (Option (List LobReply × Option ℕ))
opening = ok (
    some (
      gives (some (record { offset = 10; bytes = 1 ∷ 2 ∷ 3 ∷ []; end_of_read = false })) none
          ∷ gives (some (record { offset = 13; bytes = 4 ∷ 5 ∷ []; end_of_read = true })) none
          ∷ [],
      none,
    ))

finished : (read_lob connections request opening).1 ≡ returned none
unfolding read_lob
finished = refl

-- a chunk that leaves a gap
gapped :
    (read_lob connections request (
      ok (
        some (
          gives (some (record { offset = 11; bytes = 1 ∷ []; end_of_read = true })) none ∷ [],
          none,
        )))).0
    ≡ []
unfolding read_lob
gapped = refl

read_lob-Contiguous_example :
    Contiguous 10 (read_lob connections request opening).0
    × All (IsProper 3) (read_lob connections request opening).0
    × Within (some 5) (bytes_of (read_lob connections request opening).0)
    × (10 + bytes_of (read_lob connections request opening).0 < u64_mod)
read_lob-Contiguous_example = read_lob-Contiguous connections request opening (omega arith)
