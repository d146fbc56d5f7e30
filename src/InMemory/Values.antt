-- ===== src/InMemory/Values.antt =====
-- The values that the provider keeps and evaluates (the constructors of providers/inmemory/model.go), and
-- their types (providers/inmemory/expression.go). A float is the shortest decimal text that prints it,
-- which is what strconv.FormatFloat gives for it.
use kubling_providers.Base.{ℕ, ℤ, Bool, true, false, Option, Bytes, Result, ok, err}
use kubling_providers.Messages.{
  ValueType, string, varbinary, char, boolean, byte, short, integer, long, biginteger, float,
  double, bigdecimal, date, time, timestamp, blob, clob, xml, geometry, geography, json, array,
  TypeDescriptor,
}

-- the reference that stands for a large object in a result
pub record StoredReference : Type 0 where
  pub lob_id : Bytes
  pub lob_type : ValueType
  pub size_bytes : ℕ
  pub expires_at_unix_ms : ℕ

-- A value may be nil, or without a kind. The content of a kind that is a message may be nil.
mutual
  pub data Value : Type 0 where
    nil_value no_kind null_value nil_array : Value
    string_value char_value biginteger_value bigdecimal_value : Bytes → Value
    date_value time_value timestamp_value json_value xml_value : Bytes → Value
    varbinary_value geometry_value geography_value : Bytes → Value
    boolean_value : Bool → Value
    byte_value short_value integer_value long_value : ℤ → Value
    float_value double_value : Bytes → Value
    blob_value clob_value : Option Bytes → Value
    geometry_with_crs geography_with_crs : Option (Bytes × Option ℕ) → Value
    array_value : Option TypeDescriptor → Values → Value
    lob_reference : Option StoredReference → Value

  pub data Values : Type 0 where
    end : Values
    item : Value → Values → Values

-- isNullValue
unfoldable pub is_null : Value → Bool
is_null nil_value = true
is_null null_value = true
is_null _ = false

-- isNumericValue
unfoldable pub is_numeric : Value → Bool
is_numeric (byte_value n) = true
is_numeric (short_value n) = true
is_numeric (integer_value n) = true
is_numeric (long_value n) = true
is_numeric (biginteger_value s) = true
is_numeric (float_value s) = true
is_numeric (double_value s) = true
is_numeric (bigdecimal_value s) = true
is_numeric _ = false

pub data TypeFault : Type 0 where
  value_required null_has_no_type kind_required : TypeFault

-- valueType
unfoldable pub value_type : Value → Result TypeFault ValueType
value_type nil_value = err value_required
value_type (string_value s) = ok string
value_type (varbinary_value b) = ok varbinary
value_type (char_value s) = ok char
value_type (boolean_value b) = ok boolean
value_type (byte_value n) = ok byte
value_type (short_value n) = ok short
value_type (integer_value n) = ok integer
value_type (long_value n) = ok long
value_type (biginteger_value s) = ok biginteger
value_type (float_value s) = ok float
value_type (double_value s) = ok double
value_type (bigdecimal_value s) = ok bigdecimal
value_type (date_value s) = ok date
value_type (time_value s) = ok time
value_type (timestamp_value s) = ok timestamp
value_type (blob_value b) = ok blob
value_type (clob_value s) = ok clob
value_type (geometry_value b) = ok geometry
value_type (geometry_with_crs s) = ok geometry
value_type (geography_value b) = ok geography
value_type (geography_with_crs s) = ok geography
value_type (json_value s) = ok json
value_type (xml_value s) = ok xml
value_type (array_value t vs) = ok array
value_type nil_array = ok array
value_type null_value = err null_has_no_type
value_type _ = err kind_required
