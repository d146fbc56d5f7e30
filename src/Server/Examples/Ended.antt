-- ===== src/Server/Examples/Ended.antt =====
-- Outcomes of queries (sdk-go/provider/query.go).
use kubling_providers.Base.{
  ◌≡◌, ◌↔◌, ◌⊎◌, refl, [], ◌∷◌, some, true, false, codes, ok, err, trim_space,
}
use kubling_providers.Messages.{QueryOutcome, partial, partial_result_cause}
use kubling_providers.Server.Outcome.{
  validate_query_outcome, prepare_query_outcome, is_partial, partial_in_strict,
}
use kubling_providers.Server.Outcome.Valid.{IsOutcome, validate_query_outcome-IsOutcome}
use kubling_providers.Server.Outcome.Sent.{Stated, SentAs, prepare_query_outcome-SentAs}

abbrev cut_short : QueryOutcome
cut_short = record {
  completion = partial;
  warnings =
      some (record {
        message = codes "one shard is down";
        code = [];
        target = [];
        role = partial_result_cause;
      })
      ∷ [];
}

sent : prepare_query_outcome (some (some cut_short)) true true ≡ ok (some cut_short)
unfolding prepare_query_outcome trim_space
sent = refl

refused : prepare_query_outcome (some (some cut_short)) false true ≡ err partial_in_strict
unfolding prepare_query_outcome trim_space
refused = refl

validate_query_outcome-IsOutcome_example :
    (validate_query_outcome cut_short ≡ ok tt) ↔ IsOutcome cut_short
validate_query_outcome-IsOutcome_example = validate_query_outcome-IsOutcome cut_short

prepare_query_outcome-SentAs_example :
    (prepare_query_outcome (some (some cut_short)) true true ≡ ok (some cut_short)) ↔ (
      (outcome : QueryOutcome) × Stated (some (some cut_short)) outcome
      × IsOutcome outcome
      × ((is_partial outcome.completion ≡ false) ⊎ (◌≡◌ true true))
      × SentAs true outcome (some cut_short))
prepare_query_outcome-SentAs_example =
    prepare_query_outcome-SentAs (some (some cut_short)) true true (some cut_short)
