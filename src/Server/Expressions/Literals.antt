-- ===== src/Server/Expressions/Literals.antt =====
-- The literals of a request that passes.
use kubling_providers.Base.{
  ◌≡◌, refl, List, [], ◌∷◌, ◌++◌, Option, none, some, Result, ok, err, ◌>>◌, bind_ok, All,
  All-append, arith,
}
use kubling_providers.Messages.{Value, TypeDescriptor}
use kubling_providers.Server.Structure.{
  StructureFault, check_descriptor, check_value, validate_value, validate_type_descriptor,
}
use kubling_providers.Server.Structure.Columns.{
  HasType, Homogeneous, check_value-HasType, check_value-Homogeneous,
}
use kubling_providers.Server.Expressions.{
  Expression, nil_expression, plain_kind, nil_literal, nil_aggregate, nil_kind, literal, comparison,
  pattern, logical, function_call, null_predicate, aggregate, Expressions, no_more, one, of_value,
  count_expressions, check_aggregate, validate_expression_values, validate_all, QueryExpressions,
  validate_listed, validate_groups, validate_query_request_values,
}

abbrev pub Literal : Type 0
Literal = Value × Option TypeDescriptor

-- The literals of an expression, at any depth, with their declared types.
unfoldable mutual
  pub literals : Expression → List Literal
  literals (literal v d) = (v, d) ∷ []
  literals (comparison l r) = literals l ++ literals r
  literals (pattern v p) = literals v ++ literals p
  literals (logical es) = literals_of es
  literals (function_call es) = literals_of es
  literals (null_predicate e) = literals e
  literals (aggregate f distinct es d) = literals_of es
  literals _ = []

  pub literals_of : Expressions → List Literal
  literals_of no_more = []
  literals_of (one e es) = literals e ++ literals_of es

-- The value has its declared type, if one is declared, and its arrays the types they state.
abbrev pub Fits : Literal → Type 0
Fits (v, none) = Homogeneous v
Fits (v, some d) = HasType d v × Homogeneous v

of_value_ok : (r : Result StructureFault (Unit {0})) → of_value r ≡ ok tt → r ≡ ok tt
of_value_ok (ok u) p = refl
of_value_ok (err e) p = absurd (ground arith)

validate_value-Fits :
    (v : Value) (d : Option TypeDescriptor) → validate_value v d ≡ ok tt → Fits (v, d)
unfolding validate_value
validate_value-Fits v none p = check_value-Homogeneous none v p
validate_value-Fits v (some d) p =
    let (u, q, r) = (bind_ok (check_descriptor d) (λ _. check_value (some d) v) tt).0 p in
    (check_value-HasType d v r, check_value-Homogeneous (some d) v r)

mutual
  unfolding validate_expression_values validate_all literals literals_of

  validated_literals :
      (e : Expression) → validate_expression_values e ≡ ok tt → All Fits (literals e)
  validated_literals nil_expression p = tt
  validated_literals plain_kind p = tt
  validated_literals nil_literal p = tt
  validated_literals nil_aggregate p = tt
  validated_literals nil_kind p = tt
  validated_literals (literal v d) p =
      (validate_value-Fits v d (of_value_ok (validate_value v d) p), tt)
  validated_literals (comparison l r) p =
      let (u, q, s) =
        (bind_ok (validate_expression_values l) (λ _. validate_expression_values r) tt).0 p in
      All-append Fits (literals l) (literals r) (validated_literals l q) (validated_literals r s)
  validated_literals (pattern l r) p =
      let (u, q, s) =
        (bind_ok (validate_expression_values l) (λ _. validate_expression_values r) tt).0 p in
      All-append Fits (literals l) (literals r) (validated_literals l q) (validated_literals r s)
  validated_literals (logical es) p = validated-All es p
  validated_literals (function_call es) p = validated-All es p
  validated_literals (null_predicate e) p = validated_literals e p
  validated_literals (aggregate f distinct es d) p =
      let (u, q, s) =
        (bind_ok (check_aggregate f distinct (count_expressions es))
            (λ _. validate_all es >> of_value (validate_type_descriptor d)) tt).0
          p in
      let (u1, q1, s1) =
        (bind_ok (validate_all es) (λ _. of_value (validate_type_descriptor d)) tt).0 s in
      validated-All es q1

  validated-All : (es : Expressions) → validate_all es ≡ ok tt → All Fits (literals_of es)
  validated-All no_more p = tt
  validated-All (one e es) p =
      let (u, q, s) = (bind_ok (validate_expression_values e) (λ _. validate_all es) tt).0 p in
      All-append Fits (literals e) (literals_of es) (validated_literals e q) (validated-All es s)

-- All the literals of a request's expressions.
unfoldable pub listed_literals : List (Option Expression) → List Literal
listed_literals [] = []
listed_literals (none ∷ es) = listed_literals es
listed_literals (some e ∷ es) = literals e ++ listed_literals es

unfoldable pub group_literals : List Expression → List Literal
group_literals [] = []
group_literals (e ∷ es) = literals e ++ group_literals es

abbrev pub request_literals : QueryExpressions → List Literal
request_literals request =
    listed_literals request.projections
    ++ (literals request.filter
        ++ (listed_literals request.order_by
            ++ (group_literals request.group_by ++ literals request.having)))

listed_Fits :
    (es : List (Option Expression)) → validate_listed es ≡ ok tt → All Fits (listed_literals es)
unfolding validate_listed listed_literals
listed_Fits [] p = tt
listed_Fits (none ∷ es) p = listed_Fits es p
listed_Fits (some e ∷ es) p =
    let (u, q, s) = (bind_ok (validate_expression_values e) (λ _. validate_listed es) tt).0 p in
    All-append Fits (literals e) (listed_literals es) (validated_literals e q) (listed_Fits es s)

group_Fits : (es : List Expression) → validate_groups es ≡ ok tt → All Fits (group_literals es)
unfolding validate_groups group_literals
group_Fits [] p = tt
group_Fits (e ∷ es) p =
    let (u, q, s) = (bind_ok (validate_expression_values e) (λ _. validate_groups es) tt).0 p in
    All-append Fits (literals e) (group_literals es) (validated_literals e q) (group_Fits es s)

-- In a query request that passes, every literal, in any clause and at any depth, is SQL NULL or of its declared
-- type, if one is declared, an array with the declared element type; and its arrays have elements of the
-- types they state, with their precision, scale and own element types.
pub request_literals-Fits :
    (request : QueryExpressions)
    → validate_query_request_values request ≡ ok tt
    → All Fits (request_literals request)
unfolding validate_query_request_values
request_literals-Fits request p =
    let projections = validate_listed request.projections in
    let filter = validate_expression_values request.filter in
    let order = validate_listed request.order_by in
    let groups = validate_groups request.group_by in
    let having = validate_expression_values request.having in
    let (u0, p0, r0) = (bind_ok projections (λ _. filter >> order >> groups >> having) tt).0 p in
    let (u1, p1, r1) = (bind_ok filter (λ _. order >> groups >> having) tt).0 r0 in
    let (u2, p2, r2) = (bind_ok order (λ _. groups >> having) tt).0 r1 in
    let (u3, p3, r3) = (bind_ok groups (λ _. having) tt).0 r2 in
    let last =
      All-append Fits (group_literals request.group_by) (literals request.having)
        (group_Fits request.group_by p3) (validated_literals request.having r3) in
    let ordered =
      All-append Fits (listed_literals request.order_by) _ (listed_Fits request.order_by p2) last in
    let filtered =
      All-append Fits (literals request.filter) _ (validated_literals request.filter p1) ordered in
    All-append Fits (listed_literals request.projections) _ (listed_Fits request.projections p0)
      filtered
