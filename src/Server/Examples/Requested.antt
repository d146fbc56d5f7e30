-- ===== src/Server/Examples/Requested.antt =====
-- The expressions of a query request (sdk-go/provider/value_structure.go).
use kubling_providers.Base.{◌≡◌, refl, [], ◌∷◌, some, none, false, codes, ok, err, All}
use kubling_providers.Messages.{integer, string, scalar, plain}
use kubling_providers.Server.Structure.{type_differs, validate_value, validate_type_descriptor}
use kubling_providers.Server.Structure.Types.{type_beq}
use kubling_providers.Server.Expressions.{
  nil_expression, plain_kind, literal, comparison, aggregate, count_star, no_more, QueryExpressions,
  value_fault, validate_expression_values, validate_query_request_values,
}
use kubling_providers.Server.Expressions.Literals.{Fits, request_literals, request_literals-Fits}

abbrev request : QueryExpressions
request = record {
  projections =
      none ∷ some (aggregate count_star false no_more (some (plain integer none none))) ∷ [];
  filter =
      comparison plain_kind (literal (scalar integer (codes "7")) (some (plain integer none none)));
  order_by = [];
  group_by = plain_kind ∷ [];
  having = nil_expression;
}

passed : validate_query_request_values request ≡ ok tt
unfolding validate_query_request_values validate_value validate_type_descriptor type_beq
passed = refl

mistyped :
    validate_expression_values
      (literal (scalar string (codes "a")) (some (plain integer none none)))
    ≡ err (value_fault type_differs)
unfolding validate_expression_values validate_value type_beq
mistyped = refl

request_literals-Fits_example : All Fits (request_literals request)
request_literals-Fits_example = request_literals-Fits request passed
