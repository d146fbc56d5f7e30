-- ===== src/Server/Features/Prepared.antt =====
-- What preparation does to the LOB references of a batch.
use kubling_providers.Base.{
  ◌≡◌, refl, sym, ap, List, [], ◌∷◌, ◌++◌, map, Option, none, some, false, Bytes, inl, inr,
  Bool-cases, arith,
}
use kubling_providers.Messages.{
  LobReference, Value, nil_value, no_kind, null_value, scalar, blob_value, clob_value,
  geometry_with_crs, geography_with_crs, nil_array, array_value, lob_reference, Values, end, item,
  TupleBatch,
}
use kubling_providers.Cache.Stream.{
  value_contains_lob_reference, values_contain_lob_reference, tuples_contain_lob_reference,
  batch_contains_lob_reference,
}
use kubling_providers.Server.Features.{
  with_session, set_lob_reference_connection, set_lob_reference_connections, set_tuples,
  prepare_output_batch,
}

-- The LOB references of a value, those within arrays included, in order.
unfoldable mutual
  pub references : Value → List (Option LobReference)
  references (lob_reference r) = r ∷ []
  references (array_value element_type vs) = references_of vs
  references _ = []

  pub references_of : Values → List (Option LobReference)
  references_of end = []
  references_of (item v vs) = references v ++ references_of vs

unfoldable pub tuple_references : List (Option Values) → List (Option LobReference)
unfolding references references_of
tuple_references [] = []
tuple_references (none ∷ ts) = tuple_references ts
tuple_references (some vs ∷ ts) = references_of vs ++ tuple_references ts

-- `w` is `v` with the connection as the session of its LOB references, those within arrays included.
mutual
  pub Rebinds : Bytes → Value → Value → Type 0
  Rebinds c (lob_reference (some r)) w = w ≡ lob_reference (some (record r { session_id = c }))
  Rebinds c (array_value t vs) (array_value u ws) = (u ≡ t) × RebindsAll c vs ws
  Rebinds c (array_value t vs) _ = ⊥
  Rebinds c v w = w ≡ v

  pub RebindsAll : Bytes → Values → Values → Type 0
  RebindsAll c end end = Unit
  RebindsAll c (item v vs) (item w ws) = Rebinds c v w × RebindsAll c vs ws
  RebindsAll c _ _ = ⊥

-- The same of each tuple.
unfoldable pub RebindsTuples : Bytes → List (Option Values) → List (Option Values) → Type 0
unfolding Rebinds RebindsAll
RebindsTuples c [] [] = Unit
RebindsTuples c (none ∷ ts) (none ∷ us) = RebindsTuples c ts us
RebindsTuples c (some vs ∷ ts) (some ws ∷ us) = RebindsAll c vs ws × RebindsTuples c ts us
RebindsTuples c _ _ = ⊥

map-append : {A : Type 0} (f : A → A) (xs ys : List A) → map f (xs ++ ys) ≡ map f xs ++ map f ys
map-append f [] ys = refl
map-append f (x ∷ xs) ys = ap (λ zs. f x ∷ zs) (map-append f xs ys)

mutual
  unfolding references references_of set_lob_reference_connection set_lob_reference_connections

  references-set :
      (c : Bytes) (v : Value)
      → references (set_lob_reference_connection c v) ≡ map (with_session c) (references v)
  references-set c nil_value = refl
  references-set c no_kind = refl
  references-set c (null_value b) = refl
  references-set c (scalar t b) = refl
  references-set c (blob_value b) = refl
  references-set c (clob_value b) = refl
  references-set c (geometry_with_crs b) = refl
  references-set c (geography_with_crs b) = refl
  references-set c nil_array = refl
  references-set c (array_value t vs) = references_of-set c vs
  references-set c (lob_reference r) = refl

  references_of-set :
      (c : Bytes) (vs : Values)
      → references_of (set_lob_reference_connections c vs) ≡ map (with_session c) (references_of vs)
  references_of-set c end = refl
  references_of-set c (item v vs) =
      rw (references-set c v, references_of-set c vs)
        (sym (map-append (with_session c) (references v) (references_of vs)))

mutual
  unfolding Rebinds RebindsAll set_lob_reference_connection set_lob_reference_connections

  Rebinds-set : (c : Bytes) (v : Value) → Rebinds c v (set_lob_reference_connection c v)
  Rebinds-set c nil_value = refl
  Rebinds-set c no_kind = refl
  Rebinds-set c (null_value b) = refl
  Rebinds-set c (scalar t b) = refl
  Rebinds-set c (blob_value b) = refl
  Rebinds-set c (clob_value b) = refl
  Rebinds-set c (geometry_with_crs b) = refl
  Rebinds-set c (geography_with_crs b) = refl
  Rebinds-set c nil_array = refl
  Rebinds-set c (array_value t vs) = (refl, RebindsAll-set c vs)
  Rebinds-set c (lob_reference none) = refl
  Rebinds-set c (lob_reference (some r)) = refl

  RebindsAll-set : (c : Bytes) (vs : Values) → RebindsAll c vs (set_lob_reference_connections c vs)
  RebindsAll-set c end = tt
  RebindsAll-set c (item v vs) = (Rebinds-set c v, RebindsAll-set c vs)

mutual
  unfolding Rebinds RebindsAll value_contains_lob_reference values_contain_lob_reference

  -- a value without LOB references
  Rebinds-same : (c : Bytes) (v : Value) → value_contains_lob_reference v ≡ false → Rebinds c v v
  Rebinds-same c nil_value p = refl
  Rebinds-same c no_kind p = refl
  Rebinds-same c (null_value b) p = refl
  Rebinds-same c (scalar t b) p = refl
  Rebinds-same c (blob_value b) p = refl
  Rebinds-same c (clob_value b) p = refl
  Rebinds-same c (geometry_with_crs b) p = refl
  Rebinds-same c (geography_with_crs b) p = refl
  Rebinds-same c nil_array p = refl
  Rebinds-same c (array_value t vs) p = (refl, RebindsAll-same c vs p)
  Rebinds-same c (lob_reference r) p = absurd (cc)

  RebindsAll-same :
      (c : Bytes) (vs : Values) → values_contain_lob_reference vs ≡ false → RebindsAll c vs vs
  RebindsAll-same c end p = tt
  RebindsAll-same c (item v vs) p =
      (Rebinds-same c v (ground arith), RebindsAll-same c vs (ground arith))

mutual
  unfolding references references_of value_contains_lob_reference values_contain_lob_reference

  references-none : (v : Value) → value_contains_lob_reference v ≡ false → references v ≡ []
  references-none nil_value p = refl
  references-none no_kind p = refl
  references-none (null_value b) p = refl
  references-none (scalar t b) p = refl
  references-none (blob_value b) p = refl
  references-none (clob_value b) p = refl
  references-none (geometry_with_crs b) p = refl
  references-none (geography_with_crs b) p = refl
  references-none nil_array p = refl
  references-none (array_value t vs) p = references_of-none vs p
  references-none (lob_reference r) p = cc

  references_of-none :
      (vs : Values) → values_contain_lob_reference vs ≡ false → references_of vs ≡ []
  references_of-none end p = refl
  references_of-none (item v vs) p =
      rw (references-none v (ground arith), references_of-none vs (ground arith)) refl

tuples-set :
    (c : Bytes) (ts : List (Option Values))
    → tuple_references (set_tuples c ts) ≡ map (with_session c) (tuple_references ts)
unfolding tuple_references
tuples-set c [] = refl
tuples-set c (none ∷ ts) = tuples-set c ts
tuples-set c (some vs ∷ ts) =
    rw (references_of-set c vs, tuples-set c ts)
      (sym (map-append (with_session c) (references_of vs) (tuple_references ts)))

tuples-rebound : (c : Bytes) (ts : List (Option Values)) → RebindsTuples c ts (set_tuples c ts)
unfolding RebindsTuples
tuples-rebound c [] = tt
tuples-rebound c (none ∷ ts) = tuples-rebound c ts
tuples-rebound c (some vs ∷ ts) = (RebindsAll-set c vs, tuples-rebound c ts)

tuples-same :
    (c : Bytes) (ts : List (Option Values))
    → tuples_contain_lob_reference ts ≡ false
    → RebindsTuples c ts ts
unfolding tuples_contain_lob_reference RebindsTuples
tuples-same c [] p = tt
tuples-same c (none ∷ ts) p = tuples-same c ts p
tuples-same c (some vs ∷ ts) p =
    (RebindsAll-same c vs (ground arith), tuples-same c ts (ground arith))

tuples-none :
    (ts : List (Option Values)) → tuples_contain_lob_reference ts ≡ false → tuple_references ts ≡ []
unfolding tuples_contain_lob_reference tuple_references
tuples-none [] p = refl
tuples-none (none ∷ ts) p = tuples-none ts p
tuples-none (some vs ∷ ts) p =
    rw (references_of-none vs (ground arith), tuples-none ts (ground arith)) refl

-- The LOB references of a prepared batch are those of the batch, in order, with the connection as their
-- session. Nothing else of the batch is changed: its fields are the same, and so is every value of every
-- tuple but for the session of its references, at any depth of arrays.
pub prepare_output_batch-references :
    (batch : TupleBatch) (connection : Bytes)
    → (tuple_references (prepare_output_batch batch connection).tuples
        ≡ map (with_session connection) (tuple_references batch.tuples))
      × ((prepare_output_batch batch connection).fields ≡ batch.fields)
      × RebindsTuples connection batch.tuples (prepare_output_batch batch connection).tuples
unfolding prepare_output_batch batch_contains_lob_reference
prepare_output_batch-references batch connection =
    elim (Bool-cases (tuples_contain_lob_reference batch.tuples)) [
      | inl some_there ↦
          rw some_there
            (tuples-set connection batch.tuples, refl, tuples-rebound connection batch.tuples)
      | inr none_there ↦ rw none_there (
        rw (tuples-none batch.tuples none_there) refl,
        refl,
        tuples-same connection batch.tuples none_there,
      )
    ]
