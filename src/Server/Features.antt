-- ===== src/Server/Features.antt =====
-- Features of the values that a query sends, and the preparation of LOB references
-- (sdk-go/provider/value_features.go). The names of the features belong to the kubling-grpc module and
-- are arguments. Whether a batch holds a LOB reference is asked as in the cache, by the same code.
pub mod Readable
pub mod Prepared
use kubling_providers.Base.{
  ℕ, List, [], ◌∷◌, Option, none, some, Bool, true, false, not, ◌&&◌, ◌||◌, Bytes, bytes_beq, ℤ,
  is_nonpos, map, Result, ok, err, ◌>>=◌, ◌>>◌, reject_if, if◌then◌else◌,
}
use kubling_providers.Messages.{
  ValueType, blob, clob, LobReference, Value, array_value, geometry_with_crs, geography_with_crs,
  lob_reference, nil_array, Values, end, item, TupleBatch,
}
use kubling_providers.Cache.State.Expand.{is_empty}
use kubling_providers.Cache.Stream.{batch_contains_lob_reference}

pub record FeatureNames : Type 0 where
  pub array_values : Bytes
  pub spatial_values : Bytes
  pub lob_read : Bytes

pub data FeatureFault : Type 0 where
  not_accepted : Bytes → FeatureFault
  no_lob_transport lob_id_required lob_type_refused expiry_required session_refused : FeatureFault

-- `accepted` is a set
unfoldable pub is_accepted : List Bytes → Bytes → Bool
is_accepted [] feature = false
is_accepted (a ∷ accepted) feature = bytes_beq a feature || is_accepted accepted feature

unfoldable pub require_accepted_feature : List Bytes → Bytes → Result FeatureFault (Unit {0})
unfolding is_accepted
require_accepted_feature accepted feature =
    reject_if (not (is_accepted accepted feature)) (not_accepted feature)

-- a type that is not BLOB or CLOB
abbrev pub is_lob_type : ValueType → Bool
is_lob_type blob = true
is_lob_type clob = true
is_lob_type _ = false

-- no expiry, or one that is not positive
abbrev pub lacks_expiry : Option ℤ → Bool
lacks_expiry none = true
lacks_expiry (some t) = is_nonpos t

module _ (features : FeatureNames) (accepted : List Bytes) (lob_transport : Bool) where
  unfoldable pub check_lob_reference : Option LobReference → Result FeatureFault (Unit {0})
  unfolding require_accepted_feature
  check_lob_reference reference =
      require_accepted_feature accepted features.lob_read
      >> reject_if (not lob_transport) no_lob_transport
      >> elim reference [
        | none ↦ err lob_id_required
        | some r ↦
            reject_if (is_empty r.lob_id) lob_id_required
            >> reject_if (not (is_lob_type r.lob_type)) lob_type_refused
            >> reject_if (lacks_expiry r.expires_at_unix_ms) expiry_required
            >> reject_if (not (is_empty r.session_id)) session_refused
      ]

  unfoldable mutual
    unfolding check_lob_reference require_accepted_feature

    pub check_value_features : Value → Result FeatureFault (Unit {0})
    check_value_features nil_array = require_accepted_feature accepted features.array_values
    check_value_features (array_value element_type vs) =
        require_accepted_feature accepted features.array_values >> check_values_features vs
    check_value_features (geometry_with_crs g) =
        require_accepted_feature accepted features.spatial_values
    check_value_features (geography_with_crs g) =
        require_accepted_feature accepted features.spatial_values
    check_value_features (lob_reference reference) = check_lob_reference reference
    check_value_features _ = ok tt

    pub check_values_features : Values → Result FeatureFault (Unit {0})
    check_values_features end = ok tt
    check_values_features (item v vs) = check_value_features v >> check_values_features vs

-- setLobReferenceConnection. A nil reference would stop the program here; it has been refused before.
abbrev pub with_session : Bytes → Option LobReference → Option LobReference
with_session connection none = none
with_session connection (some r) = some (record r { session_id = connection })

unfoldable mutual
  pub set_lob_reference_connection : Bytes → Value → Value
  set_lob_reference_connection connection (lob_reference reference) =
      lob_reference (with_session connection reference)
  set_lob_reference_connection connection (array_value element_type vs) =
      array_value element_type (set_lob_reference_connections connection vs)
  set_lob_reference_connection connection v = v

  pub set_lob_reference_connections : Bytes → Values → Values
  set_lob_reference_connections connection end = end
  set_lob_reference_connections connection (item v vs) =
      item (set_lob_reference_connection connection v) (set_lob_reference_connections connection vs)

abbrev pub set_tuple : Bytes → Option Values → Option Values
set_tuple connection none = none
set_tuple connection (some vs) = some (set_lob_reference_connections connection vs)

abbrev pub set_tuples : Bytes → List (Option Values) → List (Option Values)
set_tuples connection [] = []
set_tuples connection (t ∷ ts) = set_tuple connection t ∷ set_tuples connection ts

unfoldable pub prepare_output_batch : TupleBatch → Bytes → TupleBatch
unfolding set_lob_reference_connection set_lob_reference_connections
prepare_output_batch batch connection =
    if batch_contains_lob_reference batch
    then record batch { tuples = set_tuples connection batch.tuples }
    else batch
