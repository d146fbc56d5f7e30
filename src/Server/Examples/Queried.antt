-- ===== src/Server/Examples/Queried.antt =====
-- The stream of a query (sdk-go/provider/query.go).
use kubling_providers.Base.{
  ◌≡◌, refl, List, [], ◌∷◌, some, none, true, false, Bytes, codes, ok, All, bytes_beq,
}
use kubling_providers.Messages.{
  integer, blob, scalar, lob_reference, end, item, TupleBatch, LobReference,
}
use kubling_providers.Base.{pos}
use kubling_providers.Server.Status.{returned}
use kubling_providers.Server.Features.{FeatureNames, check_values_features}
use kubling_providers.Server.Features.Readable.{Readable}
use kubling_providers.Server.Features.Prepared.{tuple_references}
use kubling_providers.Server.Structure.{validate_output_batch_structure}
use kubling_providers.Server.Outcome.{prepare_query_outcome}
use kubling_providers.Server.Structure.Types.{type_beq}
use kubling_providers.Server.Structure.Columns.{IsRow}
use kubling_providers.Server.Query.{
  validate_output_batch_features, StreamReply, gives, ends, query_loop,
}
use kubling_providers.Server.Query.Streamed.{
  IsSending, batches_sent, batches_prepared, output_batch_features-IsRow, query_loop-IsSending,
  query_loop_complete,
}

abbrev features : FeatureNames
features = record {
  array_values = codes "array";
  spatial_values = codes "spatial";
  lob_read = codes "lob";
}

abbrev photo : LobReference
photo = record {
  lob_id = codes "photo";
  lob_type = blob;
  expires_at_unix_ms = some (pos 1_000);
  session_id = [];
}

abbrev batch : TupleBatch
batch = record {
  fields =
      some (record { name = codes "ID"; field_type = integer; type_descriptor = none })
      ∷ some (record { name = codes "PHOTO"; field_type = blob; type_descriptor = none })
      ∷ [];
  tuples = some (item (scalar integer (codes "7")) (item (lob_reference (some photo)) end)) ∷ [];
}

abbrev accepted : List Bytes
accepted = codes "lob" ∷ []

passed : validate_output_batch_features features accepted true batch ≡ ok tt
unfolding validate_output_batch_features bytes_beq type_beq validate_output_batch_structure
    check_values_features
passed = refl

abbrev replies : List StreamReply
replies = gives (some batch) none ∷ ends none none ∷ []

finished : (query_loop features accepted true false true (codes "c1") replies).1 ≡ returned none
unfolding query_loop bytes_beq type_beq validate_output_batch_structure check_values_features
    prepare_query_outcome
finished = refl

output_batch_features-IsRow_example :
    All (IsRow batch.fields) batch.tuples
    × All (Readable features accepted true) (tuple_references batch.tuples)
output_batch_features-IsRow_example =
    output_batch_features-IsRow features accepted true batch passed

query_loop-IsSending_example :
    IsSending features accepted true false true
      (codes "c1")
      replies
      (query_loop features accepted true false true (codes "c1") replies).0
query_loop-IsSending_example =
    query_loop-IsSending features accepted true false true (codes "c1") replies

query_loop_complete_example :
    batches_sent (query_loop features accepted true false true (codes "c1") replies).0
    ≡ batches_prepared (codes "c1") replies
query_loop_complete_example =
    query_loop_complete features accepted true false true (codes "c1") replies finished
