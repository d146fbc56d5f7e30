-- ===== src/Server/Outcome/Sent.antt =====
-- Which outcome a client of a query is sent.
use kubling_providers.Base.{
  ◌≡◌, ◌↔◌, refl, ap, ◌⊎◌, inl, inr, List, [], ◌∷◌, Option, none, some, Bool, true, false, not,
  ◌&&◌, Result, ok, ◌>>◌, reject_if, bind_ok, reject_ok, ok_unique, arith,
}
use kubling_providers.Messages.{QueryWarning, QueryOutcome}
use kubling_providers.Cache.Stream.{complete_outcome}
use kubling_providers.Server.Outcome.{
  OutcomeFault, validate_query_outcome, is_partial, has_warnings, stated, sent_outcome,
  prepare_query_outcome, partial_in_strict, warnings_not_accepted,
}
use kubling_providers.Server.Outcome.Valid.{IsOutcome, validate_query_outcome-IsOutcome}

-- What the stream says of its outcome; a stream that says nothing is complete.
abbrev pub Stated : Option (Option QueryOutcome) → QueryOutcome → Type 0
Stated none outcome = complete_outcome ≡ outcome
Stated (some none) outcome = ⊥
Stated (some (some said)) outcome = said ≡ outcome

-- A client that accepts outcomes is sent it; one that does not is sent none, and there are no warnings.
abbrev pub SentAs : Bool → QueryOutcome → Option QueryOutcome → Type 0
SentAs true outcome sent = some outcome ≡ sent
SentAs false outcome sent = (outcome.warnings ≡ []) × (none ≡ sent)

stated-Stated :
    (said : Option (Option QueryOutcome)) (outcome : QueryOutcome)
    → (stated said ≡ ok outcome) ↔ Stated said outcome
unfolding stated
stated-Stated none outcome =
    (λ p. ok_unique (ok complete_outcome) complete_outcome outcome refl p, λ v. ap ok v)
stated-Stated (some none) outcome = (λ p. absurd (ground arith), λ v. absurd v)
stated-Stated (some (some said)) outcome =
    (λ p. ok_unique (ok said) said outcome refl p, λ v. ap ok v)

none_left : (ws : List (Option QueryWarning)) → (has_warnings ws ≡ false) ↔ (ws ≡ [])
none_left [] = (λ p. refl, λ p. refl)
none_left (w ∷ ws) = (λ p. absurd (ground arith), λ p. absurd (ground (arith, p)))

sent_outcome-SentAs :
    (accept : Bool) (outcome : QueryOutcome) (sent : Option QueryOutcome)
    → (sent_outcome accept outcome ≡ ok sent) ↔ SentAs accept outcome sent
unfolding sent_outcome
sent_outcome-SentAs true outcome sent =
    (λ p. ok_unique (ok (some outcome)) (some outcome) sent refl p, λ v. ap ok v)
sent_outcome-SentAs false outcome sent =
    let split = reject_ok (has_warnings outcome.warnings) warnings_not_accepted (ok none) sent in
    (
      λ p. (
        (none_left outcome.warnings).0 (split.0 p).0,
        ok_unique (ok none) none sent refl (split.0 p).1,
      ),
      λ v. split.1 ((none_left outcome.warnings).1 v.0, ap ok v.1),
    )

strict :
    (partly allowed : Bool)
    → ((partly && not allowed) ≡ false) ↔ ((partly ≡ false) ⊎ (allowed ≡ true))
strict true true = (λ p. inr refl, λ v. refl)
strict true false = (λ p. absurd (ground arith), λ v. absurd (ground (arith, v)))
strict false allowed = (λ p. inl refl, λ v. refl)

-- A query ends well exactly if what its stream states is a valid outcome, which is partial only for a
-- request that allows it, and has no warnings for a client that does not accept outcomes; a client that
-- does is sent that outcome, and any other none.
pub prepare_query_outcome-SentAs :
    (said : Option (Option QueryOutcome)) (allow_partial accept : Bool) (sent : Option QueryOutcome)
    → (prepare_query_outcome said allow_partial accept ≡ ok sent) ↔ (
        (outcome : QueryOutcome) × Stated said outcome
        × IsOutcome outcome
        × ((is_partial outcome.completion ≡ false) ⊎ (allow_partial ≡ true))
        × SentAs accept outcome sent)
unfolding prepare_query_outcome
prepare_query_outcome-SentAs said allow_partial accept sent =
    let first =
      bind_ok (stated said) (λ outcome. validate_query_outcome outcome >> end_checks outcome)
        sent in
    let second = λ (outcome : QueryOutcome).
      bind_ok (validate_query_outcome outcome) (λ _. end_checks outcome) sent in
    let third = λ (outcome : QueryOutcome).
      reject_ok (is_partial outcome.completion && not allow_partial) partial_in_strict
        (sent_outcome accept outcome) sent in
    (
      λ p.
          let (outcome, p1, p2) = first.0 p in
          let (u, valid, p3) = (second outcome).0 p2 in
          let (allowed, p4) = (third outcome).0 p3 in
          (
            outcome,
            (stated-Stated said outcome).0 p1,
            (validate_query_outcome-IsOutcome outcome).0 valid,
            (strict (is_partial outcome.completion) allow_partial).0 allowed,
            (sent_outcome-SentAs accept outcome sent).0 p4,
          ),
      λ v.
          let (outcome, says, valid, allowed, sends) = v in
          first.1 (
            outcome,
            (stated-Stated said outcome).1 says,
            (second outcome).1 (
              tt,
              (validate_query_outcome-IsOutcome outcome).1 valid,
              (third outcome).1 (
                (strict (is_partial outcome.completion) allow_partial).1 allowed,
                (sent_outcome-SentAs accept outcome sent).1 sends,
              ),
            ),
          ),
    )
  where
    end_checks : QueryOutcome → Result OutcomeFault (Option QueryOutcome)
    end_checks outcome =
        reject_if (is_partial outcome.completion && not allow_partial) partial_in_strict
        >> sent_outcome accept outcome
