-- ===== src/Server/Features/Readable.antt =====
-- Which LOB references pass the check of features.
use kubling_providers.Base.{
  ◌≡◌, inl, inr, List, [], ◌∷◌, Option, none, some, Bool, true, false, not, Bytes, bytes_beq,
  bytes_beq_iff, Bool-cases, In, All, All-append, ok, bind_ok, reject_ok, arith,
}
use kubling_providers.Messages.{
  LobReference, Value, nil_value, no_kind, null_value, scalar, blob_value, clob_value,
  geometry_with_crs, geography_with_crs, nil_array, array_value, lob_reference, Values, end, item,
}
use kubling_providers.Cache.State.Expand.{is_empty}
use kubling_providers.Server.Features.{
  FeatureNames, is_accepted, require_accepted_feature, is_lob_type, lacks_expiry,
  check_lob_reference, check_value_features, check_values_features, no_lob_transport,
  lob_id_required, lob_type_refused, expiry_required,
}
use kubling_providers.Server.Features.Prepared.{references, references_of}

-- A LOB reference that a provider may send: the client reads LOBs, the connection serves them, and the
-- reference has an identifier, a LOB type and an expiry, and no session of its own.
pub record IsReadable (features : FeatureNames) (accepted : List Bytes) (lob_transport : Bool)
    (r : LobReference) : Type 0 where
  pub read_accepted : In features.lob_read accepted
  pub served : lob_transport ≡ true
  pub named : is_empty r.lob_id ≡ false
  pub lob : is_lob_type r.lob_type ≡ true
  pub expires : lacks_expiry r.expires_at_unix_ms ≡ false
  pub unbound : is_empty r.session_id ≡ true

abbrev pub Readable : FeatureNames → List Bytes → Bool → Option LobReference → Type 0
Readable features accepted lob_transport none = ⊥
Readable features accepted lob_transport (some r) = IsReadable features accepted lob_transport r

is_accepted-In : (accepted : List Bytes) (f : Bytes) → is_accepted accepted f ≡ true → In f accepted
unfolding is_accepted
is_accepted-In [] f p = cc
is_accepted-In (a ∷ accepted) f p = elim (Bool-cases (bytes_beq a f)) [
  | inl same ↦ inl ((bytes_beq_iff a f).0 same)
  | inr apart ↦ inr (is_accepted-In accepted f (ground (arith, apart, p)))
]

module _ (features : FeatureNames) (accepted : List Bytes) (lob_transport : Bool) where
  check_lob_reference-Readable :
      (r : Option LobReference)
      → check_lob_reference features accepted lob_transport r ≡ ok tt
      → Readable features accepted lob_transport r
  unfolding check_lob_reference require_accepted_feature
  check_lob_reference-Readable none p =
      let (u, p0, p1) = (bind_ok (require_accepted_feature accepted features.lob_read) _ tt).0 p in
      let (served, p2) = (reject_ok (not lob_transport) no_lob_transport _ tt).0 p1 in
      absurd (ground (arith, p2))
  check_lob_reference-Readable (some r) p =
      let (u, p0, p1) = (bind_ok (require_accepted_feature accepted features.lob_read) _ tt).0 p in
      let (served, p2) = (reject_ok (not lob_transport) no_lob_transport _ tt).0 p1 in
      let (named, p3) = (reject_ok (is_empty r.lob_id) lob_id_required _ tt).0 p2 in
      let (lob, p4) = (reject_ok (not (is_lob_type r.lob_type)) lob_type_refused _ tt).0 p3 in
      let (expires, p5) =
        (reject_ok (lacks_expiry r.expires_at_unix_ms) expiry_required _ tt).0 p4 in
      record {
        read_accepted = is_accepted-In accepted features.lob_read (ground (arith, p0));
        served = ground (arith, served);
        named = named;
        lob = ground (arith, lob);
        expires = expires;
        unbound = ground (arith, p5);
      }

  mutual
    unfolding check_value_features check_values_features references references_of

    pub check_value_features-Readable :
        (v : Value)
        → check_value_features features accepted lob_transport v ≡ ok tt
        → All (Readable features accepted lob_transport) (references v)
    check_value_features-Readable nil_value p = tt
    check_value_features-Readable no_kind p = tt
    check_value_features-Readable (null_value b) p = tt
    check_value_features-Readable (scalar t b) p = tt
    check_value_features-Readable (blob_value b) p = tt
    check_value_features-Readable (clob_value b) p = tt
    check_value_features-Readable (geometry_with_crs b) p = tt
    check_value_features-Readable (geography_with_crs b) p = tt
    check_value_features-Readable nil_array p = tt
    check_value_features-Readable (array_value t vs) p =
        let (u, p0, p1) =
          (bind_ok (require_accepted_feature accepted features.array_values)
              (λ _. check_values_features features accepted lob_transport vs) tt).0
            p in
        check_values_features-Readable vs p1
    check_value_features-Readable (lob_reference r) p = (check_lob_reference-Readable r p, tt)

    pub check_values_features-Readable :
        (vs : Values)
        → check_values_features features accepted lob_transport vs ≡ ok tt
        → All (Readable features accepted lob_transport) (references_of vs)
    check_values_features-Readable end p = tt
    check_values_features-Readable (item v vs) p =
        let (u, p0, p1) =
          (bind_ok (check_value_features features accepted lob_transport v)
              (λ _. check_values_features features accepted lob_transport vs) tt).0
            p in
        All-append (Readable features accepted lob_transport) (references v) (references_of vs)
          (check_value_features-Readable v p0) (check_values_features-Readable vs p1)

  -- Every LOB reference of a value that passes the check, those within arrays included, may be sent: the
  -- client reads LOBs, the connection serves them, and the reference has an identifier, the type BLOB or
  -- CLOB, a positive expiry and no session.
  pub passed_references-Readable :
      (v : Value)
      → check_value_features features accepted lob_transport v ≡ ok tt
      → All (Readable features accepted lob_transport) (references v)
  passed_references-Readable v p = check_value_features-Readable v p
