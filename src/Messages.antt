-- ===== src/Messages.antt =====
-- The protocol messages that the SDK and the cache handle (sdk-go/kubling/provider/v1/*.pb.go, and
-- the value messages of the kubling-grpc module). A message is a tree; a nil pointer is `none` or a
-- constructor of its own. An open enum keeps the numbers it does not name.
use kubling_providers.Base.{ℕ, List, Option, Bytes, ℤ, Bool}

-- The value types that the code names; `other` is a known type that it does not name.
pub data ValueType : Type 0 where
  unknown string varbinary char boolean byte short integer long biginteger : ValueType
  float double bigdecimal date time timestamp blob clob xml : ValueType
  geometry geography json array : ValueType
  other unrecognized : ℕ → ValueType

pub record LobReference : Type 0 where
  pub lob_id : Bytes
  pub lob_type : ValueType
  pub expires_at_unix_ms : Option ℤ
  pub session_id : Bytes

-- A type descriptor without and with an element type; its precision and its scale.
pub data TypeDescriptor : Type 0 where
  plain : ValueType → Option ℤ → Option ℤ → TypeDescriptor
  of_element : ValueType → TypeDescriptor → Option ℤ → Option ℤ → TypeDescriptor

-- `scalar t b` is any of the plain kinds, such as string_value or date_value, of value type `t`.
-- An array has its element type, if it sets one, and its elements.
mutual
  pub data Value : Type 0 where
    nil_value no_kind : Value
    null_value : Bool → Value
    scalar : ValueType → Bytes → Value
    blob_value clob_value geometry_with_crs geography_with_crs : Option Bytes → Value
    nil_array : Value
    array_value : Option TypeDescriptor → Values → Value
    lob_reference : Option LobReference → Value

  pub data Values : Type 0 where
    end : Values
    item : Value → Values → Values

pub record Field : Type 0 where
  pub name : Bytes
  pub field_type : ValueType
  pub type_descriptor : Option TypeDescriptor

pub record TupleBatch : Type 0 where
  pub fields : List (Option Field)
  pub tuples : List (Option Values)

pub data QueryCompletion : Type 0 where
  unspecified complete partial : QueryCompletion
  unknown_completion : ℕ → QueryCompletion

pub data QueryDiagnosticRole : Type 0 where
  role_unspecified warning partial_result_cause : QueryDiagnosticRole
  unknown_role : ℕ → QueryDiagnosticRole

pub record QueryWarning : Type 0 where
  pub message : Bytes
  pub code : Bytes
  pub target : Bytes
  pub role : QueryDiagnosticRole

pub record QueryOutcome : Type 0 where
  pub completion : QueryCompletion
  pub warnings : List (Option QueryWarning)

pub record EntityReference : Type 0 where
  pub namespace : Bytes
  pub entity_name : Bytes

pub record TransactionBranchId : Type 0 where
  pub resource_manager_id : Bytes
  pub branch_id : Bytes

pub data TransactionBranchState : Type 0 where
  state_unspecified active prepared read_only committed rolled_back : TransactionBranchState
  heuristic_commit heuristic_rollback heuristic_mixed heuristic_hazard : TransactionBranchState
  not_found : TransactionBranchState
  unknown_state : ℕ → TransactionBranchState

pub data TransactionPrepareOutcome : Type 0 where
  outcome_unspecified outcome_prepared outcome_read_only : TransactionPrepareOutcome
  unknown_outcome : ℕ → TransactionPrepareOutcome
