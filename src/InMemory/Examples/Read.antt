-- ===== src/InMemory/Examples/Read.antt =====
-- Large objects (providers/inmemory/lob.go).
use kubling_providers.Base.{
  ℕ, ◌+◌, ◌≤◌, ◌<◌, ◌≡◌, refl, arith, [], ◌∷◌, none, some, Bytes, codes, length, ok, ◌/◌, take,
  drop,
}
use kubling_providers.Messages.{blob}
use kubling_providers.Server.Structure.Types.{type_beq}
use kubling_providers.Server.Status.{returned}
use kubling_providers.Server.Lob.{ReadLobRequest, read_loop}
use kubling_providers.InMemory.Values.{StoredReference, lob_reference}
use kubling_providers.InMemory.Lobs.{
  Connection, LobStream, opened, lob_retention, new_lob_value, read_lob,
}
use kubling_providers.InMemory.Lobs.Streamed.{replies, joined}
use kubling_providers.InMemory.Lobs.Kept.{wanted, new_lob_value-wanted}

abbrev content : Bytes
content = 1 ∷ 2 ∷ 3 ∷ 4 ∷ 5 ∷ []

abbrev reference : StoredReference
reference = record {
  lob_id = codes "photo";
  lob_type = blob;
  size_bytes = 5;
  expires_at_unix_ms = (7 + lob_retention) / 1_000_000;
}

abbrev kept : Connection
kept = record opened {
  lobs = (codes "photo", record { bytes = content; expires_at = 7 + lob_retention }) ∷ [];
}

stored :
    new_lob_value 7 (some (codes "photo") ∷ []) blob content opened
    ≡ some (ok (lob_reference (some reference)), kept)
unfolding new_lob_value type_beq
stored = refl

abbrev request : ReadLobRequest
request = record {
  connection_id = codes "c1";
  lob_id = codes "photo";
  offset = 1;
  requested_length = some 3;
  max_chunk_bytes = 2;
}

asked : wanted request content ≡ 2 ∷ 3 ∷ 4 ∷ []
unfolding take drop
asked = refl

inside : request.offset ≤ length content
inside = ground arith

in_time : 9 < 7 + lob_retention
in_time = ground arith

new_lob_value-wanted_example :
    (s : LobStream) × (read_lob none 9 request kept ≡ (ok s, kept))
    × ((calls : ℕ)
        → length content < calls
        → (joined (read_loop request 1 0 (replies calls s)).0 ≡ wanted request content)
          × ((read_loop request 1 0 (replies calls s)).1 ≡ returned none))
new_lob_value-wanted_example =
    new_lob_value-wanted 7 9 (some (codes "photo") ∷ []) blob content opened kept reference request
      stored refl refl inside in_time
