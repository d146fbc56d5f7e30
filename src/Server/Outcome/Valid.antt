-- ===== src/Server/Outcome/Valid.antt =====
-- Which outcomes are valid, and which are sent.
use kubling_providers.Base.{
  ℕ, ◌+◌, ◌<◌, ◌≡◌, ◌↔◌, refl, List, [], ◌∷◌, Option, none, some, false, ok, ◌>>=◌, ◌>>◌, reject_if,
  bind_ok, reject_ok, trim_space, All, arith,
}
use kubling_providers.Messages.{
  QueryCompletion, unspecified, complete, partial, unknown_completion, QueryDiagnosticRole,
  role_unspecified, warning, partial_result_cause, unknown_role, QueryWarning, QueryOutcome,
}
use kubling_providers.Cache.State.Expand.{is_empty}
use kubling_providers.Server.Outcome.{
  known_completion, count_role, only_space, check_warning, check_warnings, check_causes,
  validate_query_outcome, message_required, code_whitespace, target_whitespace,
}

-- A diagnostic role that the protocol names.
abbrev pub IsRole : QueryDiagnosticRole → Type 0
IsRole warning = Unit
IsRole partial_result_cause = Unit
IsRole _ = ⊥

-- A warning with a message, no blank code or target, and a role.
pub record IsWarning (w : QueryWarning) : Type 0 where
  pub message : is_empty (trim_space w.message) ≡ false
  pub code : only_space w.code ≡ false
  pub target : only_space w.target ≡ false
  pub role : IsRole w.role

abbrev pub Stands : Option QueryWarning → Type 0
Stands none = ⊥
Stands (some w) = IsWarning w

abbrev role_causes : QueryDiagnosticRole → ℕ
role_causes partial_result_cause = 1
role_causes _ = 0

abbrev warning_causes : Option QueryWarning → ℕ
warning_causes none = 0
warning_causes (some w) = role_causes w.role

-- how many of the warnings are causes of a partial result
abbrev pub causes_of : List (Option QueryWarning) → ℕ
causes_of [] = 0
causes_of (w ∷ ws) = warning_causes w + causes_of ws

count_role-IsRole :
    (role : QueryDiagnosticRole) (n m : ℕ)
    → (count_role role n ≡ ok m) ↔ (IsRole role × (m ≡ n + role_causes role))
unfolding count_role
count_role-IsRole warning n m = (λ p. (tt, ground arith), λ w. ground (arith, w.1))
count_role-IsRole partial_result_cause n m = (λ p. (tt, ground arith), λ w. ground (arith, w.1))
count_role-IsRole role_unspecified n m = (λ p. absurd (ground arith), λ w. absurd w.0)
count_role-IsRole (unknown_role k) n m = (λ p. absurd (ground arith), λ w. absurd w.0)

check_warning-Stands :
    (w : Option QueryWarning) (n m : ℕ)
    → (check_warning w n ≡ ok m) ↔ (Stands w × (m ≡ n + warning_causes w))
unfolding check_warning
check_warning-Stands none n m = (λ p. absurd (ground arith), λ w. absurd w.0)
check_warning-Stands (some w) n m =
    let at_role = count_role-IsRole w.role n m in
    let target = reject_ok (only_space w.target) target_whitespace (count_role w.role n) m in
    let code =
      reject_ok (only_space w.code) code_whitespace
        (reject_if (only_space w.target) target_whitespace >> count_role w.role n) m in
    let message =
      reject_ok (is_empty (trim_space w.message)) message_required
        (reject_if (only_space w.code) code_whitespace
          >> reject_if (only_space w.target) target_whitespace
          >> count_role w.role n)
        m in
    (
      λ p.
          let (a, p1) = message.0 p in
          let (b, p2) = code.0 p1 in
          let (c, p3) = target.0 p2 in
          let (d, e) = at_role.0 p3 in (record { message = a; code = b; target = c; role = d }, e),
      λ v.
          message.1
            (v.0.message, code.1 (v.0.code, target.1 (v.0.target, at_role.1 (v.0.role, v.1)))),
    )

check_warnings-Stands :
    (ws : List (Option QueryWarning)) (n m : ℕ)
    → (check_warnings ws n ≡ ok m) ↔ (All Stands ws × (m ≡ n + causes_of ws))
unfolding check_warnings
check_warnings-Stands [] n m = (λ p. (tt, ground arith), λ w. ground (arith, w.1))
check_warnings-Stands (w ∷ ws) n m =
    let split = bind_ok (check_warning w n) (λ more. check_warnings ws more) m in
    (
      λ p.
          let (more, p1, p2) = split.0 p in
          let (s, e) = (check_warning-Stands w n more).0 p1 in
          let (rest, f) = (check_warnings-Stands ws more m).0 p2 in ((s, rest), omega arith),
      λ v. split.1 (
        n + warning_causes w,
        (check_warning-Stands w n (n + warning_causes w)).1 (v.0.0, refl),
        (check_warnings-Stands ws (n + warning_causes w) m).1 (v.0.1, omega (arith, v.1)),
      ),
    )

-- A complete outcome has no cause of a partial result among its warnings, and a partial one has some.
abbrev pub CausesFit : QueryCompletion → ℕ → Type 0
CausesFit complete n = n ≡ 0
CausesFit partial n = 0 < n
CausesFit _ n = ⊥

pub record IsOutcome (outcome : QueryOutcome) : Type 0 where
  pub warnings_stand : All Stands outcome.warnings
  pub causes_fit : CausesFit outcome.completion (causes_of outcome.warnings)

completion_checks :
    (c : QueryCompletion) (ws : List (Option QueryWarning)) (u : Unit {0})
    → ((known_completion c >> check_warnings ws 0 >>= λ causes. check_causes c causes) ≡ ok u)
      ↔ (All Stands ws × CausesFit c (causes_of ws))
unfolding known_completion check_causes
completion_checks unspecified ws u = (λ p. absurd (ground arith), λ v. absurd v.1)
completion_checks (unknown_completion k) ws u = (λ p. absurd (ground arith), λ v. absurd v.1)
completion_checks complete ws u =
    let split = bind_ok (check_warnings ws 0) (λ causes. check_causes complete causes) u in
    (
      λ p.
          let (n, p1, p2) = split.0 p in
          let (stand, e) = (check_warnings-Stands ws 0 n).0 p1 in (stand, ground (arith, e, p2)),
      λ v. split.1 (
        causes_of ws,
        (check_warnings-Stands ws 0 (causes_of ws)).1 (v.0, omega arith),
        ground (arith, v.1),
      ),
    )
completion_checks partial ws u =
    let split = bind_ok (check_warnings ws 0) (λ causes. check_causes partial causes) u in
    (
      λ p.
          let (n, p1, p2) = split.0 p in
          let (stand, e) = (check_warnings-Stands ws 0 n).0 p1 in (stand, ground (arith, e, p2)),
      λ v. split.1 (
        causes_of ws,
        (check_warnings-Stands ws 0 (causes_of ws)).1 (v.0, omega arith),
        ground (arith, v.1),
      ),
    )

-- An outcome passes validation exactly if it is complete or partial, all its warnings are proper, and
-- it has causes of a partial result just when it is partial.
pub validate_query_outcome-IsOutcome :
    (outcome : QueryOutcome) → (validate_query_outcome outcome ≡ ok tt) ↔ IsOutcome outcome
unfolding validate_query_outcome
validate_query_outcome-IsOutcome outcome =
    let checks = completion_checks outcome.completion outcome.warnings tt in
    (
      λ p. record { warnings_stand = (checks.0 p).0; causes_fit = (checks.0 p).1 },
      λ v. checks.1 (v.warnings_stand, v.causes_fit),
    )
