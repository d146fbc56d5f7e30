-- ===== src/Server/Examples/Checked.antt =====
-- Batches checked against their fields (sdk-go/provider/value_structure.go).
use kubling_providers.Base.{◌≡◌, refl, [], ◌∷◌, some, none, true, codes, ok, err, All}
use kubling_providers.Messages.{
  integer, string, array, plain, of_element, scalar, null_value, array_value, end, item, TupleBatch,
}
use kubling_providers.Server.Structure.{validate_output_batch_structure, type_differs}
use kubling_providers.Server.Structure.Types.{type_beq}
use kubling_providers.Server.Structure.Columns.{IsRow, output_batch-IsRow}

abbrev batch : TupleBatch
batch = record {
  fields =
      some (record { name = codes "ID"; field_type = integer; type_descriptor = none })
      ∷ some (record {
        name = codes "TAGS";
        field_type = array;
        type_descriptor = some (of_element array (plain string none none) none none);
      })
      ∷ [];
  tuples =
      some (
        item (scalar integer (codes "7")) (
          item
            (array_value (some (plain string none none))
              (item (scalar string (codes "a")) (item (null_value true) end)))
            end))
      ∷ [];
}

passed : validate_output_batch_structure (some batch) ≡ ok tt
unfolding validate_output_batch_structure type_beq
passed = refl

mistyped :
    validate_output_batch_structure (
      some (record {
        fields = some (record { name = []; field_type = integer; type_descriptor = none }) ∷ [];
        tuples = some (item (scalar string (codes "a")) end) ∷ [];
      }))
    ≡ err type_differs
unfolding validate_output_batch_structure type_beq
mistyped = refl

output_batch-IsRow_example : All (IsRow batch.fields) batch.tuples
output_batch-IsRow_example = output_batch-IsRow batch passed
