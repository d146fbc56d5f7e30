-- ===== src/Server/Outcome.antt =====
-- The outcome that ends a query stream: validation, and what is sent on
-- (sdk-go/provider/query.go). The index of a faulty warning, which only the message names, is left out.
pub mod Valid
pub mod Sent
use kubling_providers.Base.{
  ℕ, ◌+◌, List, [], ◌∷◌, Option, none, some, Bool, true, false, not, ◌&&◌, Bytes, Result, ok, err,
  ◌>>=◌, ◌>>◌, reject_if, ltb, nat_beq, trim_space,
}
use kubling_providers.Messages.{
  QueryCompletion, unspecified, complete, partial, unknown_completion, QueryDiagnosticRole,
  role_unspecified, warning, partial_result_cause, unknown_role, QueryWarning, QueryOutcome,
}
use kubling_providers.Cache.State.Expand.{is_empty}

pub data OutcomeFault : Type 0 where
  completion_unspecified completion_unknown : OutcomeFault
  warning_nil message_required code_whitespace target_whitespace : OutcomeFault
  role_is_unspecified role_is_unknown : OutcomeFault
  causes_in_complete cause_required : OutcomeFault
  outcome_nil partial_in_strict warnings_not_accepted : OutcomeFault

unfoldable pub known_completion : QueryCompletion → Result OutcomeFault (Unit {0})
known_completion complete = ok tt
known_completion partial = ok tt
known_completion unspecified = err completion_unspecified
known_completion (unknown_completion n) = err completion_unknown

-- `partialResultCauses++` for a cause
unfoldable pub count_role : QueryDiagnosticRole → ℕ → Result OutcomeFault ℕ
count_role warning causes = ok causes
count_role partial_result_cause causes = ok (causes + 1)
count_role role_unspecified causes = err role_is_unspecified
count_role (unknown_role n) causes = err role_is_unknown

-- not empty, but nothing besides space
abbrev pub only_space : Bytes → Bool
only_space text = not (is_empty text) && is_empty (trim_space text)

-- one turn of the loop over the warnings
unfoldable pub check_warning : Option QueryWarning → ℕ → Result OutcomeFault ℕ
unfolding count_role
check_warning none causes = err warning_nil
check_warning (some w) causes =
    reject_if (is_empty (trim_space w.message)) message_required
    >> reject_if (only_space w.code) code_whitespace
    >> reject_if (only_space w.target) target_whitespace
    >> count_role w.role causes

unfoldable pub check_warnings : List (Option QueryWarning) → ℕ → Result OutcomeFault ℕ
unfolding check_warning
check_warnings [] causes = ok causes
check_warnings (w ∷ ws) causes = check_warning w causes >>= λ more. check_warnings ws more

unfoldable pub check_causes : QueryCompletion → ℕ → Result OutcomeFault (Unit {0})
check_causes complete causes = reject_if (ltb 0 causes) causes_in_complete
check_causes partial causes = reject_if (nat_beq causes 0) cause_required
check_causes _ causes = ok tt

unfoldable pub validate_query_outcome : QueryOutcome → Result OutcomeFault (Unit {0})
unfolding known_completion check_warnings check_causes
validate_query_outcome outcome =
    known_completion outcome.completion >> check_warnings outcome.warnings 0 >>= λ causes.
    check_causes outcome.completion causes

abbrev pub is_partial : QueryCompletion → Bool
is_partial partial = true
is_partial _ = false

abbrev pub has_warnings : List (Option QueryWarning) → Bool
has_warnings [] = false
has_warnings (w ∷ ws) = true

-- what the stream says of its outcome: none where it has no such interface, and then it is complete
unfoldable pub stated : Option (Option QueryOutcome) → Result OutcomeFault QueryOutcome
stated none = ok (record { completion = complete; warnings = [] })
stated (some none) = err outcome_nil
stated (some (some outcome)) = ok outcome

-- what is sent to a client that accepts outcomes, or does not
unfoldable pub sent_outcome : Bool → QueryOutcome → Result OutcomeFault (Option QueryOutcome)
sent_outcome true outcome = ok (some outcome)
sent_outcome false outcome =
    reject_if (has_warnings outcome.warnings) warnings_not_accepted >> ok none

-- prepareQueryOutcome, on the request's AllowPartialResults and AcceptOutcome
unfoldable pub prepare_query_outcome :
    Option (Option QueryOutcome) → Bool → Bool → Result OutcomeFault (Option QueryOutcome)
unfolding stated validate_query_outcome sent_outcome
prepare_query_outcome said allow_partial accept = stated said >>= λ outcome.
    validate_query_outcome outcome
    >> reject_if (is_partial outcome.completion && not allow_partial) partial_in_strict
    >> sent_outcome accept outcome
