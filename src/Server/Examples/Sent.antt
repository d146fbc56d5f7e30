-- ===== src/Server/Examples/Sent.antt =====
-- Values with LOB references (sdk-go/provider/value_features.go).
use kubling_providers.Base.{
  ◌≡◌, refl, List, [], ◌∷◌, map, some, none, true, Bytes, codes, pos, ok, bytes_beq,
}
use kubling_providers.Messages.{
  LobReference, blob, Value, array_value, lob_reference, end, item, TupleBatch,
}
use kubling_providers.Server.Features.{
  FeatureNames, check_value_features, with_session, prepare_output_batch,
}
use kubling_providers.Server.Features.Prepared.{
  tuple_references, RebindsTuples, prepare_output_batch-references,
}

abbrev features : FeatureNames
features = record {
  array_values = codes "array";
  spatial_values = codes "spatial";
  lob_read = codes "lob";
}

abbrev photo : LobReference
photo = record {
  lob_id = codes "photo";
  lob_type = blob;
  expires_at_unix_ms = some (pos 1_000);
  session_id = [];
}

abbrev photos : Value
photos = array_value none (item (lob_reference (some photo)) end)

abbrev accepted : List Bytes
accepted = codes "lob" ∷ codes "array" ∷ []

passed : check_value_features features accepted true photos ≡ ok tt
unfolding check_value_features bytes_beq
passed = refl

abbrev batch : TupleBatch
batch = record { fields = []; tuples = some (item photos end) ∷ none ∷ [] }

prepare_output_batch-references_example :
    (tuple_references (prepare_output_batch batch (codes "c1")).tuples
      ≡ map (with_session (codes "c1")) (tuple_references batch.tuples))
    × ((prepare_output_batch batch (codes "c1")).fields ≡ batch.fields)
    × RebindsTuples (codes "c1") batch.tuples (prepare_output_batch batch (codes "c1")).tuples
prepare_output_batch-references_example = prepare_output_batch-references batch (codes "c1")
