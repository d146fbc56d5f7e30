-- ===== src/Server/Structure/Columns.antt =====
-- What a batch that passes the structure checks looks like.
use kubling_providers.Base.{
  ◌≡◌, refl, sym, ap, subst, ◌⊎◌, inl, inr, List, [], ◌∷◌, Option, none, some, true, false, not,
  ◌&&◌, nat_beq, length, All, Result, ok, err, ◌>>=◌, ◌>>◌, reject_if, bind_ok, reject_ok,
  ok_unique, ◌==◌, arith, Bool, ℤ, pos, negsuc, ◌∙◌,
}
use kubling_providers.Messages.{
  ValueType, blob, clob, geometry, geography, array, TypeDescriptor, plain, of_element, Value,
  nil_value, no_kind, null_value, scalar, blob_value, clob_value, geometry_with_crs,
  geography_with_crs, nil_array, array_value, lob_reference, Values, end, item, Field, TupleBatch,
}
use kubling_providers.Server.Structure.Types.{type_eq, type_beq_iff}
use kubling_providers.Server.Structure.{
  StructureFault, int_beq, descriptor_beq, check_type, check_descriptor, type_of, check_actual,
  check_element, check_value, check_values, validate_value, count_values, check_columns,
  check_tuple, check_tuples, output_descriptor, descriptors, validate_output_batch_structure,
  lob_type_refused, tuple_length, descriptor_required, field_differs,
}

-- The type that a value says it has.
abbrev pub value_type : Value → Option ValueType
value_type (scalar t b) = some t
value_type (blob_value b) = some blob
value_type (clob_value b) = some clob
value_type (geometry_with_crs b) = some geometry
value_type (geography_with_crs b) = some geography
value_type nil_array = some array
value_type (array_value e vs) = some array
value_type (lob_reference (some r)) = some r.lob_type
value_type _ = none

-- The element type that a descriptor declares.
abbrev pub Declared : TypeDescriptor → TypeDescriptor → Type 0
Declared (of_element t x precision scale) e = x ≡ e
Declared (plain t precision scale) e = ⊥

-- An array that has an element type has the one that is declared for it.
abbrev pub SameElement : TypeDescriptor → Value → Type 0
SameElement d (array_value (some e) vs) = Declared d e
SameElement d _ = Unit

-- SQL NULL, or a value of the declared type.
abbrev pub HasType : TypeDescriptor → Value → Type 0
HasType d v = (v ≡ null_value true) ⊎ ((value_type v ≡ some (type_of d)) × SameElement d v)

-- An array has an element type, with its precision, scale and own element type, which all its elements
-- have, and so within each.
mutual
  pub Homogeneous : Value → Type 0
  Homogeneous (array_value none vs) = ⊥
  Homogeneous (array_value (some e) vs) = Elements e vs
  Homogeneous _ = Unit

  pub Elements : TypeDescriptor → Values → Type 0
  Elements e end = Unit
  Elements e (item v vs) = (HasType e v × Homogeneous v) × Elements e vs

-- What a field declares: its descriptor, or its type alone.
abbrev pub declared : Field → TypeDescriptor
declared f = elim f.type_descriptor [ none ↦ plain f.field_type none none | some d ↦ d ]

-- Each field has its value, of the type that it declares.
abbrev pub Row : List (Option Field) → Values → Type 0
Row [] end = Unit
Row (some f ∷ fs) (item v vs) =
    ((type_of (declared f) ≡ f.field_type) × HasType (declared f) v × Homogeneous v) × Row fs vs
Row _ _ = ⊥

abbrev pub IsRow : List (Option Field) → Option Values → Type 0
IsRow fs none = ⊥
IsRow fs (some vs) = Row fs vs

int_beq-same : (m n : Option ℤ) → int_beq m n ≡ true → m ≡ n
int_beq-same none none p = refl
int_beq-same none (some n) p = absurd (ground arith)
int_beq-same (some (pos m)) none p = absurd (ground arith)
int_beq-same (some (negsuc m)) none p = absurd (ground arith)
int_beq-same (some (pos m)) (some (pos n)) p = let e : m ≡ n = ground arith in rw e refl
int_beq-same (some (pos m)) (some (negsuc n)) p = absurd (ground arith)
int_beq-same (some (negsuc m)) (some (pos n)) p = absurd (ground arith)
int_beq-same (some (negsuc m)) (some (negsuc n)) p = let e : m ≡ n = ground arith in rw e refl

and_true : (a b : Bool) → (a && b) ≡ true → (a ≡ true) × (b ≡ true)
and_true true b p = (refl, p)
and_true false b p = absurd (cc)

descriptor_beq-same : (d e : TypeDescriptor) → descriptor_beq d e ≡ true → d ≡ e
unfolding descriptor_beq
descriptor_beq-same (plain t p s) (plain u q r) h =
    let (a, b) = and_true (t == u) (int_beq p q && int_beq s r) h in
    let (c, d) = and_true (int_beq p q) (int_beq s r) b in
    rw ((type_beq_iff t u).0 a, int_beq-same p q c, int_beq-same s r d) refl
descriptor_beq-same (of_element t x p s) (of_element u y q r) h =
    let (a, b) = and_true (t == u) (descriptor_beq x y && (int_beq p q && int_beq s r)) h in
    let (e, f) = and_true (descriptor_beq x y) (int_beq p q && int_beq s r) b in
    let (c, d) = and_true (int_beq p q) (int_beq s r) f in
    rw ((type_beq_iff t u).0 a, descriptor_beq-same x y e, int_beq-same p q c, int_beq-same s r d)
      refl
descriptor_beq-same (plain t p s) (of_element u y q r) h = absurd (ground arith)
descriptor_beq-same (of_element t x p s) (plain u q r) h = absurd (ground arith)

check_element-SameElement :
    (d e : TypeDescriptor) (vs : Values)
    → check_element (some d) e ≡ ok tt
    → SameElement d (array_value (some e) vs)
unfolding check_element
check_element-SameElement (plain t p s) e vs h = absurd (ground arith)
check_element-SameElement (of_element t x p s) e vs h = descriptor_beq-same x e (ground arith)

check_actual-type :
    (d : TypeDescriptor) (t : ValueType)
    → check_actual (some d) t ≡ ok tt
    → some t ≡ some (type_of d)
unfolding check_actual
check_actual-type d t p = ap some (sym ((type_beq_iff (type_of d) t).0 (ground arith)))

pub check_value-HasType :
    (d : TypeDescriptor) (v : Value) → check_value (some d) v ≡ ok tt → HasType d v
unfolding check_value
check_value-HasType d nil_value p = absurd (ground arith)
check_value-HasType d no_kind p = absurd (ground arith)
check_value-HasType d (null_value false) p = absurd (ground arith)
check_value-HasType d (null_value true) p = inl refl
check_value-HasType d (scalar t b) p = inr (check_actual-type d t p, tt)
check_value-HasType d (blob_value none) p = absurd (ground arith)
check_value-HasType d (blob_value (some b)) p = inr (check_actual-type d blob p, tt)
check_value-HasType d (clob_value none) p = absurd (ground arith)
check_value-HasType d (clob_value (some b)) p = inr (check_actual-type d clob p, tt)
check_value-HasType d (geometry_with_crs none) p = absurd (ground arith)
check_value-HasType d (geometry_with_crs (some b)) p = inr (check_actual-type d geometry p, tt)
check_value-HasType d (geography_with_crs none) p = absurd (ground arith)
check_value-HasType d (geography_with_crs (some b)) p = inr (check_actual-type d geography p, tt)
check_value-HasType d nil_array p = absurd (ground arith)
check_value-HasType d (array_value none vs) p =
    let (u, q, r) = (bind_ok (check_actual (some d) array) (λ _. err descriptor_required) tt).0 p in
    absurd (ground (arith, r))
check_value-HasType d (array_value (some e) vs) p =
    let (u, q, r) =
      (bind_ok (check_actual (some d) array)
          (λ _. check_descriptor e >> check_element (some d) e >> check_values e vs) tt).0
        p in
    let (u1, q1, r1) =
      (bind_ok (check_descriptor e) (λ _. check_element (some d) e >> check_values e vs) tt).0 r in
    let (u2, q2, r2) = (bind_ok (check_element (some d) e) (λ _. check_values e vs) tt).0 r1 in
    inr (check_actual-type d array q, check_element-SameElement d e vs q2)
check_value-HasType d (lob_reference none) p = absurd (ground arith)
check_value-HasType d (lob_reference (some r)) p =
    let (q, s) =
      (reject_ok (not (r.lob_type == blob) && not (r.lob_type == clob)) lob_type_refused
          (check_actual (some d) r.lob_type) tt).0
        p in
    inr (check_actual-type d r.lob_type s, tt)

mutual
  unfolding check_value check_values Homogeneous Elements

  pub check_value-Homogeneous :
      (d : Option TypeDescriptor) (v : Value) → check_value d v ≡ ok tt → Homogeneous v
  check_value-Homogeneous d nil_value p = tt
  check_value-Homogeneous d no_kind p = tt
  check_value-Homogeneous d (null_value b) p = tt
  check_value-Homogeneous d (scalar t b) p = tt
  check_value-Homogeneous d (blob_value b) p = tt
  check_value-Homogeneous d (clob_value b) p = tt
  check_value-Homogeneous d (geometry_with_crs b) p = tt
  check_value-Homogeneous d (geography_with_crs b) p = tt
  check_value-Homogeneous d nil_array p = tt
  check_value-Homogeneous d (array_value none vs) p =
      let (u, q, r) = (bind_ok (check_actual d array) (λ _. err descriptor_required) tt).0 p in
      ground (arith, r)
  check_value-Homogeneous d (array_value (some e) vs) p =
      let (u, q, r) =
        (bind_ok (check_actual d array)
            (λ _. check_descriptor e >> check_element d e >> check_values e vs) tt).0
          p in
      let (u1, q1, r1) =
        (bind_ok (check_descriptor e) (λ _. check_element d e >> check_values e vs) tt).0 r in
      let (u2, q2, r2) = (bind_ok (check_element d e) (λ _. check_values e vs) tt).0 r1 in
      check_values-Elements e vs r2
  check_value-Homogeneous d (lob_reference r) p = tt

  check_values-Elements :
      (e : TypeDescriptor) (vs : Values) → check_values e vs ≡ ok tt → Elements e vs
  check_values-Elements e end p = tt
  check_values-Elements e (item v vs) p =
      let (u, q, r) = (bind_ok (check_value (some e) v) (λ _. check_values e vs) tt).0 p in
      (
        (check_value-HasType e v q, check_value-Homogeneous (some e) v q),
        check_values-Elements e vs r,
      )

-- The descriptor in a field's place is the one that the field declares, and has the field's type.
abbrev Declares : Option Field → Option TypeDescriptor → Type 0
Declares (some f) (some d) = (type_of d ≡ f.field_type) × (d ≡ declared f)
Declares _ _ = ⊥

abbrev Described : List (Option Field) → List (Option TypeDescriptor) → Type 0
Described [] [] = Unit
Described (f ∷ fs) (d ∷ ds) = Declares f d × Described fs ds
Described _ _ = ⊥

output_descriptor-Declares :
    (f : Option Field) (d : Option TypeDescriptor) → output_descriptor f ≡ ok d → Declares f d
unfolding output_descriptor
output_descriptor-Declares none d p = absurd (ground arith)
output_descriptor-Declares (some f) d p =
    let (u, q, r) = (bind_ok (check_type f.field_type) (λ _. checked f.type_descriptor) d).0 p in
    by_descriptor f.type_descriptor refl r
  where
    checked : Option TypeDescriptor → Result StructureFault (Option TypeDescriptor)
    checked o = elim o [
      | none ↦
          reject_if (f.field_type == array) descriptor_required
          >> ok (some (plain f.field_type none none))
      | some x ↦
          check_descriptor x
          >> reject_if (not (type_of x == f.field_type)) field_differs
          >> ok (some x)
    ]

    as_declared : (x : TypeDescriptor) → f.type_descriptor ≡ some x → x ≡ declared f
    as_declared x e = rw e refl

    by_descriptor :
        (o : Option TypeDescriptor) → f.type_descriptor ≡ o → checked o ≡ ok d → Declares (some f) d
    by_descriptor none w q =
        let (a, e) =
          (reject_ok (f.field_type == array) descriptor_required
              (ok (some (plain f.field_type none none))) d).0
            q in
        subst (Declares (some f))
          (ok_unique (ok (some (plain f.field_type none none)))
            (some (plain f.field_type none none)) d refl e)
          (refl, rw w refl)
    by_descriptor (some x) w q =
        let (u, a, r) =
          (bind_ok (check_descriptor x)
              (λ _. reject_if (not (type_of x == f.field_type)) field_differs >> ok (some x)) d).0
            q in
        let (b, e) =
          (reject_ok (not (type_of x == f.field_type)) field_differs (ok (some x)) d).0 r in
        subst (Declares (some f)) (ok_unique (ok (some x)) (some x) d refl e)
          ((type_beq_iff (type_of x) f.field_type).0 (ground arith), as_declared x w)

descriptors-Described :
    (fs : List (Option Field)) (ds : List (Option TypeDescriptor))
    → descriptors output_descriptor fs ≡ ok ds
    → Described fs ds
unfolding descriptors
descriptors-Described [] ds p = subst (Described []) (ok_unique (ok []) [] ds refl p) tt
descriptors-Described (f ∷ fs) ds p =
    let (d, q, r) =
      (bind_ok (output_descriptor f) (λ d. descriptors output_descriptor fs >>= λ xs. ok (d ∷ xs))
          ds).0
        p in
    let (xs, s, e) = (bind_ok (descriptors output_descriptor fs) (λ xs. ok (d ∷ xs)) ds).0 r in
    subst (Described (f ∷ fs)) (ok_unique (ok (d ∷ xs)) (d ∷ xs) ds refl e)
      (output_descriptor-Declares f d q, descriptors-Described fs xs s)

check_columns-Row :
    (fs : List (Option Field)) (vs : Values) (ds : List (Option TypeDescriptor))
    → Described fs ds
    → count_values vs ≡ length ds
    → check_columns vs ds ≡ ok tt
    → Row fs vs
unfolding check_columns validate_value
check_columns-Row [] end [] h n p = tt
check_columns-Row [] (item v vs) [] h n p = absurd (omega arith)
check_columns-Row [] vs (d ∷ ds) h n p = absurd h
check_columns-Row (f ∷ fs) vs [] h n p = absurd h
check_columns-Row (f ∷ fs) end (d ∷ ds) h n p = absurd (omega arith)
check_columns-Row (none ∷ fs) (item v vs) (d ∷ ds) h n p = absurd h.0
check_columns-Row (some f ∷ fs) (item v vs) (none ∷ ds) h n p = absurd h.0
check_columns-Row (some f ∷ fs) (item v vs) (some d ∷ ds) h n p =
    let (u, q, r) = (bind_ok (validate_value v (some d)) (λ _. check_columns vs ds) tt).0 p in
    let (u1, q1, r1) = (bind_ok (check_descriptor d) (λ _. check_value (some d) v) tt).0 q in
    (
      (
        ap type_of (sym h.0.1) ∙ h.0.0,
        subst (λ d. HasType d v) h.0.1 (check_value-HasType d v r1),
        check_value-Homogeneous (some d) v r1,
      ),
      check_columns-Row fs vs ds h.1 (omega arith) r,
    )

check_tuples-IsRow :
    (fs : List (Option Field)) (ts : List (Option Values)) (ds : List (Option TypeDescriptor))
    → Described fs ds
    → check_tuples ts ds ≡ ok tt
    → All (IsRow fs) ts
unfolding check_tuples check_tuple
check_tuples-IsRow fs [] ds h p = tt
check_tuples-IsRow fs (none ∷ ts) ds h p =
    let (u, q, r) = (bind_ok (check_tuple none ds) (λ _. check_tuples ts ds) tt).0 p in
    absurd (ground (arith, q))
check_tuples-IsRow fs (some vs ∷ ts) ds h p =
    let (u, q, r) = (bind_ok (check_tuple (some vs) ds) (λ _. check_tuples ts ds) tt).0 p in
    let (n, s) =
      (reject_ok (not (nat_beq (count_values vs) (length ds))) tuple_length (check_columns vs ds)
          tt).0
        q in
    (check_columns-Row fs vs ds h (ground arith) s, check_tuples-IsRow fs ts ds h r)

-- In an output batch that passes, each tuple has exactly one value for each field, which is SQL NULL or of the
-- type that the field declares: its descriptor, which has the field's type, or without one the field's type
-- alone. An array has the element type that is declared for it, with its precision, scale and own element
-- type; and every array, at any depth, has an element type that its elements have in the same sense.
pub output_batch-IsRow :
    (batch : TupleBatch)
    → validate_output_batch_structure (some batch) ≡ ok tt
    → All (IsRow batch.fields) batch.tuples
unfolding validate_output_batch_structure
output_batch-IsRow batch p =
    let (ds, q, r) =
      (bind_ok (descriptors output_descriptor batch.fields) (λ ds. check_tuples batch.tuples ds)
          tt).0
        p in
    check_tuples-IsRow batch.fields batch.tuples ds (descriptors-Described batch.fields ds q) r
