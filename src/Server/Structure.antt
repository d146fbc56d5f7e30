-- ===== src/Server/Structure.antt =====
-- The structure of values and batches: they must fit their type descriptors
-- (sdk-go/provider/value_structure.go). Messages are trees, so the checks for cycles have nothing to
-- find. The index of a faulty part, which only the message names, is left out.
pub mod Types
pub mod Columns
use kubling_providers.Base.{
  ℕ, zero, suc, List, [], ◌∷◌, Option, none, some, Bool, true, false, not, ◌&&◌, ◌||◌, ℤ, pos,
  negsuc, is_nonpos, gt_int, nat_beq, length, Result, ok, err, ◌>>=◌, ◌>>◌, reject_if, ◌==◌, Eq,
}
use kubling_providers.Messages.{
  ValueType, unknown, biginteger, bigdecimal, blob, clob, geometry, geography, array, unrecognized,
  LobReference, TypeDescriptor, plain, of_element, Value, nil_value, no_kind, null_value, scalar,
  blob_value, clob_value, geometry_with_crs, geography_with_crs, nil_array, array_value,
  lob_reference, Values, end, item, Field, TupleBatch,
}
use kubling_providers.Server.Structure.Types.{type_eq}

pub data StructureFault : Type 0 where
  descriptor_required type_unknown type_unrecognized element_required element_refused :
      StructureFault
  precision_not_positive precision_refused : StructureFault
  scale_refused scale_without_precision scale_too_large : StructureFault
  value_nil content_nil kind_required lob_type_refused type_differs element_differs : StructureFault
  field_nil field_differs tuple_nil tuple_length : StructureFault

-- no name in the enum
abbrev pub is_unrecognized : ValueType → Bool
is_unrecognized (unrecognized n) = true
is_unrecognized _ = false

unfoldable pub check_precision : ValueType → Option ℤ → Result StructureFault (Unit {0})
check_precision t none = ok tt
check_precision t (some p) =
    reject_if (is_nonpos p) precision_not_positive
    >> reject_if (not (t == biginteger) && not (t == bigdecimal)) precision_refused

abbrev pub scale_fits : Option ℤ → ℤ → Result StructureFault (Unit {0})
scale_fits none s = err scale_without_precision
scale_fits (some p) s = reject_if (gt_int s p) scale_too_large

unfoldable pub check_scale : ValueType → Option ℤ → Option ℤ → Result StructureFault (Unit {0})
check_scale t precision none = ok tt
check_scale t precision (some s) =
    reject_if (not (t == bigdecimal)) scale_refused >> scale_fits precision s

unfoldable pub check_type : ValueType → Result StructureFault (Unit {0})
check_type t =
    reject_if (t == unknown) type_unknown >> reject_if (is_unrecognized t) type_unrecognized

-- validateTypeDescriptorPath, on a descriptor that is not nil
unfoldable pub check_descriptor : TypeDescriptor → Result StructureFault (Unit {0})
unfolding check_type check_precision check_scale
check_descriptor (plain t precision scale) =
    check_type t
    >> reject_if (t == array) element_required
    >> check_precision t precision
    >> check_scale t precision scale
check_descriptor (of_element t element precision scale) =
    check_type t
    >> reject_if (not (t == array)) element_refused
    >> check_descriptor element
    >> check_precision t precision
    >> check_scale t precision scale

unfoldable pub validate_type_descriptor : Option TypeDescriptor → Result StructureFault (Unit {0})
unfolding check_descriptor
validate_type_descriptor none = err descriptor_required
validate_type_descriptor (some d) = check_descriptor d

abbrev pub type_of : TypeDescriptor → ValueType
type_of (plain t precision scale) = t
type_of (of_element t element precision scale) = t

abbrev pub int_beq : Option ℤ → Option ℤ → Bool
int_beq none none = true
int_beq (some (pos m)) (some (pos n)) = nat_beq m n
int_beq (some (negsuc m)) (some (negsuc n)) = nat_beq m n
int_beq _ _ = false

-- `proto.Equal`
unfoldable pub descriptor_beq : TypeDescriptor → TypeDescriptor → Bool
descriptor_beq (plain t p s) (plain u q r) = (t == u) && (int_beq p q && int_beq s r)
descriptor_beq (of_element t d p s) (of_element u e q r) =
    (t == u) && (descriptor_beq d e && (int_beq p q && int_beq s r))
descriptor_beq (plain t p s) (of_element u e q r) = false
descriptor_beq (of_element t d p s) (plain u q r) = false

-- the declared type, where there is one, is the actual one
unfoldable pub check_actual : Option TypeDescriptor → ValueType → Result StructureFault (Unit {0})
check_actual none t = ok tt
check_actual (some d) t = reject_if (not (type_of d == t)) type_differs

-- the declared element type, where there is a declared type, is the array's
unfoldable pub check_element :
    Option TypeDescriptor → TypeDescriptor → Result StructureFault (Unit {0})
unfolding descriptor_beq
check_element none e = ok tt
check_element (some (plain t p s)) e = err element_differs
check_element (some (of_element t d p s)) e = reject_if (not (descriptor_beq d e)) element_differs

unfoldable mutual
  unfolding check_actual check_element check_descriptor

  -- validateValuePath
  pub check_value : Option TypeDescriptor → Value → Result StructureFault (Unit {0})
  check_value d nil_value = err value_nil
  check_value d no_kind = err kind_required
  check_value d (null_value false) = err content_nil
  check_value d (null_value true) = ok tt
  check_value d (scalar t b) = check_actual d t
  check_value d (blob_value none) = err content_nil
  check_value d (blob_value (some b)) = check_actual d blob
  check_value d (clob_value none) = err content_nil
  check_value d (clob_value (some b)) = check_actual d clob
  check_value d (geometry_with_crs none) = err content_nil
  check_value d (geometry_with_crs (some b)) = check_actual d geometry
  check_value d (geography_with_crs none) = err content_nil
  check_value d (geography_with_crs (some b)) = check_actual d geography
  check_value d nil_array = err content_nil
  check_value d (array_value none vs) = check_actual d array >> err descriptor_required
  check_value d (array_value (some e) vs) =
      check_actual d array >> check_descriptor e >> check_element d e >> check_values e vs
  check_value d (lob_reference none) = err content_nil
  check_value d (lob_reference (some r)) =
      reject_if (not (r.lob_type == blob) && not (r.lob_type == clob)) lob_type_refused
      >> check_actual d r.lob_type

  pub check_values : TypeDescriptor → Values → Result StructureFault (Unit {0})
  check_values e end = ok tt
  check_values e (item v vs) = check_value (some e) v >> check_values e vs

-- validateValueAgainstDescriptor
unfoldable pub validate_value : Value → Option TypeDescriptor → Result StructureFault (Unit {0})
unfolding check_value check_descriptor
validate_value value none = check_value none value
validate_value value (some d) = check_descriptor d >> check_value (some d) value

abbrev pub count_values : Values → ℕ
count_values end = 0
count_values (item v vs) = suc (count_values vs)

-- the values of one tuple, each with the descriptor in its place
unfoldable pub check_columns :
    Values → List (Option TypeDescriptor) → Result StructureFault (Unit {0})
unfolding validate_value
check_columns (item v vs) (d ∷ ds) = validate_value v d >> check_columns vs ds
check_columns _ _ = ok tt

unfoldable pub check_tuple :
    Option Values → List (Option TypeDescriptor) → Result StructureFault (Unit {0})
unfolding check_columns
check_tuple none ds = err tuple_nil
check_tuple (some vs) ds =
    reject_if (not (nat_beq (count_values vs) (length ds))) tuple_length >> check_columns vs ds

-- validateBatchTuples
unfoldable pub check_tuples :
    List (Option Values) → List (Option TypeDescriptor) → Result StructureFault (Unit {0})
unfolding check_tuple
check_tuples [] ds = ok tt
check_tuples (t ∷ ts) ds = check_tuple t ds >> check_tuples ts ds

-- the descriptor of one field of an output batch
unfoldable pub output_descriptor : Option Field → Result StructureFault (Option TypeDescriptor)
unfolding check_type check_descriptor
output_descriptor none = err field_nil
output_descriptor (some f) = check_type f.field_type >> elim f.type_descriptor [
  | none ↦
      reject_if (f.field_type == array) descriptor_required
      >> ok (some (plain f.field_type none none))
  | some d ↦
      check_descriptor d >> reject_if (not (type_of d == f.field_type)) field_differs >> ok (some d)
]

-- and of an input batch, where a field of unknown type has none
unfoldable pub input_descriptor : Option Field → Result StructureFault (Option TypeDescriptor)
unfolding check_descriptor
input_descriptor none = err field_nil
input_descriptor (some f) = elim f.type_descriptor [
  | some d ↦
      check_descriptor d >> reject_if (not (type_of d == f.field_type)) field_differs >> ok (some d)
  | none ↦ elim (f.field_type == unknown) [
    | true ↦ ok none
    | false ↦
        reject_if (is_unrecognized f.field_type) type_unrecognized
        >> reject_if (f.field_type == array) descriptor_required
        >> ok (some (plain f.field_type none none))
  ]
]

unfoldable pub descriptors :
    (Option Field → Result StructureFault (Option TypeDescriptor))
    → List (Option Field)
    → Result StructureFault (List (Option TypeDescriptor))
descriptors descriptor [] = ok []
descriptors descriptor (f ∷ fs) =
    descriptor f >>= λ d. descriptors descriptor fs >>= λ ds. ok (d ∷ ds)

unfoldable pub validate_output_batch_structure :
    Option TupleBatch → Result StructureFault (Unit {0})
unfolding descriptors output_descriptor check_tuples
validate_output_batch_structure none = ok tt
validate_output_batch_structure (some batch) =
    descriptors output_descriptor batch.fields >>= λ ds. check_tuples batch.tuples ds

unfoldable pub validate_input_batch_structure : Option TupleBatch → Result StructureFault (Unit {0})
unfolding descriptors input_descriptor check_tuples
validate_input_batch_structure none = ok tt
validate_input_batch_structure (some batch) =
    descriptors input_descriptor batch.fields >>= λ ds. check_tuples batch.tuples ds
