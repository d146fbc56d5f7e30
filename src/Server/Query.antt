-- ===== src/Server/Query.antt =====
-- The stream of a query (sdk-go/provider/query.go), and the check of each batch that it sends
-- (sdk-go/provider/value_features.go). The replies of the provider's stream and of the transport are
-- arguments.
pub mod Streamed
use kubling_providers.Base.{
  ℕ, List, [], ◌∷◌, Option, none, some, Bool, true, false, ◌||◌, Bytes, Result, ok, err, ◌>>=◌,
  ◌>>◌, ◌==◌, Eq,
}
use kubling_providers.Messages.{
  ValueType, unknown, array, TypeDescriptor, Field, Values, end, item, TupleBatch, QueryOutcome,
}
use kubling_providers.Server.Status.{Fault, internal, foreign, Standing, waits, returned}
use kubling_providers.Server.Features.{
  FeatureNames, FeatureFault, require_accepted_feature, check_value_features, check_values_features,
  prepare_output_batch,
}
use kubling_providers.Server.Structure.{StructureFault, type_of, validate_output_batch_structure}
use kubling_providers.Server.Structure.Types.{type_eq}
use kubling_providers.Server.Outcome.{prepare_query_outcome}

pub data BatchFault : Type 0 where
  structure_fault : StructureFault → BatchFault
  feature_fault : FeatureFault → BatchFault

abbrev pub of_structure : Result StructureFault (Unit {0}) → Result BatchFault (Unit {0})
of_structure (ok u) = ok u
of_structure (err e) = err (structure_fault e)

abbrev pub of_features : Result FeatureFault (Unit {0}) → Result BatchFault (Unit {0})
of_features (ok u) = ok u
of_features (err e) = err (feature_fault e)

-- the type of a descriptor that may be nil
abbrev pub declared_type : Option TypeDescriptor → ValueType
declared_type none = unknown
declared_type (some d) = type_of d

abbrev pub is_array_field : Option Field → Bool
is_array_field none = false
is_array_field (some f) = (f.field_type == array) || (declared_type f.type_descriptor == array)

module _ (features : FeatureNames) (accepted : List Bytes) (lob_transport : Bool) where
  unfoldable pub check_fields_features : List (Option Field) → Result FeatureFault (Unit {0})
  check_fields_features [] = ok tt
  check_fields_features (f ∷ fs) = elim (is_array_field f) [
    | true ↦ require_accepted_feature accepted features.array_values >> check_fields_features fs
    | false ↦ check_fields_features fs
  ]

  unfoldable pub check_tuples_features : List (Option Values) → Result FeatureFault (Unit {0})
  check_tuples_features [] = ok tt
  check_tuples_features (none ∷ ts) = check_tuples_features ts
  check_tuples_features (some vs ∷ ts) =
      check_values_features features accepted lob_transport vs >> check_tuples_features ts

  -- validateOutputBatchFeatures
  unfoldable pub validate_output_batch_features : TupleBatch → Result BatchFault (Unit {0})
  unfolding check_fields_features check_tuples_features
  validate_output_batch_features batch =
      of_structure (validate_output_batch_structure (some batch))
      >> of_features (check_fields_features batch.fields)
      >> of_features (check_tuples_features batch.tuples)

-- A reply of the provider's stream: a batch, which may be nil; the end, with what the stream says of its
-- outcome; or an error. The transport answers to a sending with an error, if it has one.
pub data StreamReply : Type 0 where
  gives : Option TupleBatch → Option ℕ → StreamReply
  ends : Option (Option QueryOutcome) → Option ℕ → StreamReply
  fails : ℕ → StreamReply

pub data Sending : Type 0 where
  sends_batch : TupleBatch → Sending
  sends_outcome : QueryOutcome → Sending

abbrev pub sent_or : Sending → Option ℕ → List Sending × Standing
sent_or s none = (s ∷ [], returned none)
sent_or s (some e) = ([], returned (some (foreign e)))

module _ (features : FeatureNames) (accepted : List Bytes)
    (lob_transport allow_partial accept_outcome : Bool) (connection : Bytes) where
  -- the loop of Query: what is sent, and how the stream stands
  unfoldable pub query_loop : List StreamReply → List Sending × Standing
  unfolding validate_output_batch_features
  query_loop [] = ([], waits)
  query_loop (ends said sending ∷ replies) =
      elim (prepare_query_outcome said allow_partial accept_outcome) [
        | err e ↦ ([], returned (some internal))
        | ok none ↦ ([], returned none)
        | ok (some outcome) ↦ sent_or (sends_outcome outcome) sending
      ]
  query_loop (fails e ∷ replies) = ([], returned (some (foreign e)))
  query_loop (gives none sending ∷ replies) = ([], returned (some internal))
  query_loop (gives (some batch) sending ∷ replies) =
      elim (validate_output_batch_features features accepted lob_transport batch) [
        | err e ↦ ([], returned (some internal))
        | ok _ ↦ elim sending [
          | some e ↦ ([], returned (some (foreign e)))
          | none ↦
              let (sendings, standing) = query_loop replies in
              (sends_batch (prepare_output_batch batch connection) ∷ sendings, standing)
        ]
      ]
