-- ===== src/Server/Query/Streamed.antt =====
-- What a query's client receives.
use kubling_providers.Base.{
  ◌≡◌, refl, List, [], ◌∷◌, Option, none, some, Bool, Bytes, All, All-append, inl, inr, Result, ok,
  err, ◌>>◌, bind_ok, Result-cases, arith,
}
use kubling_providers.Messages.{Values, TupleBatch}
use kubling_providers.Server.Status.{returned}
use kubling_providers.Server.Features.{
  FeatureNames, FeatureFault, check_values_features, prepare_output_batch,
}
use kubling_providers.Server.Features.Prepared.{references_of, tuple_references}
use kubling_providers.Server.Features.Readable.{Readable, check_values_features-Readable}
use kubling_providers.Server.Structure.{validate_output_batch_structure}
use kubling_providers.Server.Structure.Columns.{IsRow, output_batch-IsRow}
use kubling_providers.Server.Outcome.{prepare_query_outcome}
use kubling_providers.Server.Query.{
  validate_output_batch_features, of_structure, of_features, check_fields_features,
  check_tuples_features, StreamReply, gives, ends, fails, Sending, sends_batch, sends_outcome,
  query_loop,
}

of_structure_ok : (r : Result _ (Unit {0})) → of_structure r ≡ ok tt → r ≡ ok tt
of_structure_ok (ok u) p = refl
of_structure_ok (err e) p = absurd (ground arith)

of_features_ok : (r : Result FeatureFault (Unit {0})) → of_features r ≡ ok tt → r ≡ ok tt
of_features_ok (ok u) p = refl
of_features_ok (err e) p = absurd (ground arith)

module _ (features : FeatureNames) (accepted : List Bytes) (lob_transport : Bool) where
  check_tuples_features-Readable :
      (ts : List (Option Values))
      → check_tuples_features features accepted lob_transport ts ≡ ok tt
      → All (Readable features accepted lob_transport) (tuple_references ts)
  unfolding check_tuples_features tuple_references
  check_tuples_features-Readable [] p = tt
  check_tuples_features-Readable (none ∷ ts) p = check_tuples_features-Readable ts p
  check_tuples_features-Readable (some vs ∷ ts) p =
      let (u, q, r) =
        (bind_ok (check_values_features features accepted lob_transport vs)
            (λ _. check_tuples_features features accepted lob_transport ts) tt).0
          p in
      All-append (Readable features accepted lob_transport) (references_of vs) (tuple_references ts)
        (check_values_features-Readable features accepted lob_transport vs q)
        (check_tuples_features-Readable ts r)

  -- An output batch that passes has one value for each field of each tuple, SQL NULL or of the type that the
  -- field declares, the element type of an array included; and every LOB reference in it may be sent.
  pub output_batch_features-IsRow :
      (batch : TupleBatch)
      → validate_output_batch_features features accepted lob_transport batch ≡ ok tt
      → All (IsRow batch.fields) batch.tuples
        × All (Readable features accepted lob_transport) (tuple_references batch.tuples)
  unfolding validate_output_batch_features
  output_batch_features-IsRow batch p =
      let structure = validate_output_batch_structure (some batch) in
      let fields =
        of_features (check_fields_features features accepted lob_transport batch.fields) in
      let tuples =
        of_features (check_tuples_features features accepted lob_transport batch.tuples) in
      let (u, q, r) = (bind_ok (of_structure structure) (λ _. fields >> tuples) tt).0 p in
      let (u1, q1, r1) = (bind_ok fields (λ _. tuples) tt).0 r in
      (
        output_batch-IsRow batch (of_structure_ok structure q),
        check_tuples_features-Readable batch.tuples (
            of_features_ok (check_tuples_features features accepted lob_transport batch.tuples) r1),
      )

abbrev pub batches_sent : List Sending → List TupleBatch
batches_sent [] = []
batches_sent (sends_batch b ∷ ss) = b ∷ batches_sent ss
batches_sent (sends_outcome o ∷ ss) = batches_sent ss

-- The batches that the provider's stream gives before its end, prepared for the connection.
abbrev pub batches_prepared : Bytes → List StreamReply → List TupleBatch
batches_prepared connection (gives (some b) sending ∷ replies) =
    prepare_output_batch b connection ∷ batches_prepared connection replies
batches_prepared connection _ = []

module _ (features : FeatureNames) (accepted : List Bytes)
    (lob_transport allow_partial accept_outcome : Bool) (connection : Bytes) where
  -- What may be sent on these replies: their batches in order, up to some point, each of which passed the
  -- check, prepared for the connection; and after the last of them the outcome that the stream states at its
  -- end, as the request permits it.
  abbrev pub IsSending : List StreamReply → List Sending → Type 0
  IsSending replies [] = Unit
  IsSending (gives (some batch) none ∷ replies) (sends_batch sent ∷ sendings) =
      (validate_output_batch_features features accepted lob_transport batch ≡ ok tt)
      × (sent ≡ prepare_output_batch batch connection)
      × IsSending replies sendings
  IsSending (ends said none ∷ replies) (sends_outcome outcome ∷ []) =
      prepare_query_outcome said allow_partial accept_outcome ≡ ok (some outcome)
  IsSending _ _ = ⊥

  -- Whatever the provider's stream replies, a query sends the batches that it gives from the first on, each
  -- once and in their order, up to one that does not pass the check at the latest; each is sent with its LOB
  -- references bound to the connection. At most one outcome is sent, the one that the stream states at its
  -- end and the request permits, and nothing after it.
  pub query_loop-IsSending :
      (replies : List StreamReply)
      → IsSending replies
          (query_loop features accepted lob_transport allow_partial accept_outcome connection
            replies).0
  unfolding query_loop
  query_loop-IsSending [] = tt
  query_loop-IsSending (fails e ∷ replies) = tt
  query_loop-IsSending (ends said (some f) ∷ replies) =
      elim (Result-cases (prepare_query_outcome said allow_partial accept_outcome)) [
        | inr (e, q) ↦ rw (q, query_loop) tt
        | inl (none, q) ↦ rw (q, query_loop) tt
        | inl (some o, q) ↦ rw (q, query_loop) tt
      ]
  query_loop-IsSending (ends said none ∷ replies) =
      elim (Result-cases (prepare_query_outcome said allow_partial accept_outcome)) [
        | inr (e, q) ↦ rw (q, query_loop) tt
        | inl (none, q) ↦ rw (q, query_loop) tt
        | inl (some o, q) ↦ rw (q, query_loop) q
      ]
  query_loop-IsSending (gives none sending ∷ replies) = tt
  query_loop-IsSending (gives (some b) (some f) ∷ replies) =
      elim (Result-cases (validate_output_batch_features features accepted lob_transport b)) [
        | inr (e, q) ↦ rw (q, query_loop) tt
        | inl (u, q) ↦ rw (q, query_loop) tt
      ]
  query_loop-IsSending (gives (some b) none ∷ replies) =
      elim (Result-cases (validate_output_batch_features features accepted lob_transport b)) [
        | inr (e, q) ↦ rw (q, query_loop) tt
        | inl (u, q) ↦ rw (q, query_loop) (q, refl, query_loop-IsSending replies)
      ]

  -- A query whose stream returns without an error has sent every batch that the provider's stream gave,
  -- in order.
  pub query_loop_complete :
      (replies : List StreamReply)
      → (query_loop features accepted lob_transport allow_partial accept_outcome connection
          replies).1
        ≡ returned none
      → batches_sent
          (query_loop features accepted lob_transport allow_partial accept_outcome connection
            replies).0
        ≡ batches_prepared connection replies
  unfolding query_loop
  query_loop_complete [] p = refl
  query_loop_complete (fails e ∷ replies) p = refl
  query_loop_complete (ends said (some f) ∷ replies) p =
      elim (Result-cases (prepare_query_outcome said allow_partial accept_outcome)) [
        | inr (e, q) ↦ rw (q, query_loop) refl
        | inl (none, q) ↦ rw (q, query_loop) refl
        | inl (some o, q) ↦ rw (q, query_loop) refl
      ]
  query_loop_complete (ends said none ∷ replies) p =
      elim (Result-cases (prepare_query_outcome said allow_partial accept_outcome)) [
        | inr (e, q) ↦ rw (q, query_loop) refl
        | inl (none, q) ↦ rw (q, query_loop) refl
        | inl (some o, q) ↦ rw (q, query_loop) refl
      ]
  query_loop_complete (gives none sending ∷ replies) p = refl
  query_loop_complete (gives (some b) (some f) ∷ replies) p =
      elim (Result-cases (validate_output_batch_features features accepted lob_transport b)) [
        | inr (e, q) ↦ absurd (ground (arith, q, p))
        | inl (u, q) ↦ absurd (ground (arith, q, p))
      ]
  query_loop_complete (gives (some b) none ∷ replies) p =
      elim (Result-cases (validate_output_batch_features features accepted lob_transport b)) [
        | inr (e, q) ↦ absurd (ground (arith, q, p))
        | inl (u, q) ↦
            let rest = query_loop_complete replies (ground (arith, q, p)) in
            rw (q, query_loop) (cc rest)
      ]
