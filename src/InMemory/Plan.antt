-- ===== src/InMemory/Plan.antt =====
-- The projections of a query (planProjections, expressionTypeDescriptor, expressionValueType;
-- providers/inmemory/query.go and expression.go).
use kubling_providers.Base.{
  List, [], ◌∷◌, Option, none, some, Bytes, bytes_beq, Result, ok, err, ◌>>=◌, ◌>>◌, reject_if,
  if◌then◌else◌,
}
use kubling_providers.Messages.{ValueType, boolean, array, TypeDescriptor, plain, of_element, Field}
use kubling_providers.Server.Structure.{type_of}
use kubling_providers.InMemory.Values.{Value, nil_value, array_value, TypeFault, value_type}
use kubling_providers.InMemory.Model.{EntityField, field_by_name}
use kubling_providers.InMemory.Expressions.{
  Expression, nil_expression, no_kind, nil_field, nil_literal, nil_comparison, nil_logical,
  nil_null_predicate, nil_pattern, nil_function_call, nil_aggregate, field, literal, comparison,
  logical, null_predicate, pattern, function_call, aggregate,
}

pub data PlanFault : Type 0 where
  projection_required output_name_required expression_required field_required : PlanFault
  unknown_field literal_required function_not_supported result_type_required kind_required :
      PlanFault
  of_type : TypeFault → PlanFault

pub record Projection : Type 0 where
  pub expression : Expression
  pub output_name : Bytes

pub record PlannedProjection : Type 0 where
  pub expression : Expression
  pub field : Field

abbrev pub typed : Result TypeFault ValueType → Result PlanFault ValueType
typed (ok t) = ok t
typed (err e) = err (of_type e)

unfoldable pub literal_type : Value → Option TypeDescriptor → Result PlanFault ValueType
unfolding value_type
literal_type nil_value t = err literal_required
literal_type v (some t) = ok (type_of t)
literal_type v none = typed (value_type v)

-- expressionValueType
unfoldable pub expression_value_type : List EntityField → Expression → Result PlanFault ValueType
unfolding field_by_name literal_type
expression_value_type fields nil_expression = err expression_required
expression_value_type fields nil_field = err field_required
expression_value_type fields (field name) = elim (field_by_name fields name) [
  | none ↦ err unknown_field
  | some f ↦ ok f.value_type
]
expression_value_type fields nil_literal = err literal_required
expression_value_type fields (literal v t) = literal_type v t
expression_value_type fields nil_comparison = ok boolean
expression_value_type fields (comparison operator l r) = ok boolean
expression_value_type fields nil_logical = ok boolean
expression_value_type fields (logical operator es) = ok boolean
expression_value_type fields nil_null_predicate = ok boolean
expression_value_type fields (null_predicate operator e) = ok boolean
expression_value_type fields nil_function_call = err function_not_supported
expression_value_type fields (function_call name es) = err function_not_supported
expression_value_type fields nil_aggregate = err result_type_required
expression_value_type fields (aggregate function distinct es none) = err result_type_required
expression_value_type fields (aggregate function distinct es (some t)) = ok (type_of t)
expression_value_type fields no_kind = err kind_required
expression_value_type fields nil_pattern = err kind_required
expression_value_type fields (pattern v p) = err kind_required

-- the type of an array is not set; it has the element type that the array states
abbrev pub array_descriptor : Option TypeDescriptor → TypeDescriptor
array_descriptor none = plain array none none
array_descriptor (some element) = of_element array element none none

unfoldable pub literal_descriptor : Value → Option TypeDescriptor → Option TypeDescriptor
literal_descriptor v (some t) = some t
literal_descriptor (array_value element vs) none = some (array_descriptor element)
literal_descriptor v none = none

-- expressionTypeDescriptor
unfoldable pub expression_type_descriptor : List EntityField → Expression → Option TypeDescriptor
unfolding field_by_name literal_descriptor
expression_type_descriptor fields (field name) = elim (field_by_name fields name) [
  | none ↦ none
  | some f ↦ f.type_descriptor
]
expression_type_descriptor fields (literal v t) = literal_descriptor v t
expression_type_descriptor fields (aggregate function distinct es t) = t
expression_type_descriptor fields _ = none

-- every field of the entity, where no projections are requested
unfoldable pub all_fields : List EntityField → List PlannedProjection
all_fields [] = []
all_fields (f ∷ fs) =
    record {
      expression = field f.name;
      field = record {
        name = f.name;
        field_type = f.value_type;
        type_descriptor = f.type_descriptor;
      };
    }
    ∷ all_fields fs

abbrev pub field_name : Expression → Bytes
field_name (field name) = name
field_name _ = []

abbrev pub output_name_of : Projection → Bytes
output_name_of p = if bytes_beq p.output_name [] then field_name p.expression else p.output_name

unfoldable pub plan_requested :
    List EntityField → List (Option Projection) → Result PlanFault (List PlannedProjection)
unfolding expression_value_type expression_type_descriptor
plan_requested fields [] = ok []
plan_requested fields (none ∷ ps) = err projection_required
plan_requested fields (some p ∷ ps) =
    reject_if (bytes_beq (output_name_of p) []) output_name_required
    >> expression_value_type fields p.expression
    >>= λ t. plan_requested fields ps >>= λ planned. ok (
        record {
          expression = p.expression;
          field = record {
            name = output_name_of p;
            field_type = t;
            type_descriptor = expression_type_descriptor fields p.expression;
          };
        }
        ∷ planned)

-- planProjections
unfoldable pub plan_projections :
    List EntityField → List (Option Projection) → Result PlanFault (List PlannedProjection)
unfolding all_fields plan_requested
plan_projections fields [] = ok (all_fields fields)
plan_projections fields (p ∷ ps) = plan_requested fields (p ∷ ps)
