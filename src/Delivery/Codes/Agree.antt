-- ===== src/Delivery/Codes/Agree.antt =====
-- The tables of `DeliveryCode` in delivery.py, and the verdicts of `check`.
use satyrn_engine.Prelude.{◌≢◌, ◌≡◌, ◌↔◌, refl, Bool, true, false, Option, none, some, arith}
use satyrn_engine.Prelude.Text.{Text}
use satyrn_engine.Exits.{ExitCode, value}
use satyrn_engine.Contract.{Files}
use satyrn_engine.Contract.Fields.{Contract}
use satyrn_engine.Contract.Accept.{IsRefusal}
use satyrn_engine.Check.{CheckResult, check}
use satyrn_engine.Check.Verdict.{Means, check-Means}
use satyrn_engine.Delivery.Codes.{
  DeliveryCode, DeliveryOutcome, code_to_outcome, code_to_exit, check_refusal, created,
}

-- The exit codes of a delivery that made a candidate.
abbrev pub is_candidate_exit : ExitCode → Bool
is_candidate_exit ExitCode.ok = true
is_candidate_exit ExitCode.tests_failed = true
is_candidate_exit ExitCode.budget_exhausted = true
is_candidate_exit _ = false

-- For every delivery code, the exit code is 0, 13 or 14 exactly where the outcome is
-- `candidate_created`, and it is 0 only for `OK`.
pub code_to_exit-created :
    (code : DeliveryCode)
    → (created (code_to_outcome code) ≡ is_candidate_exit (code_to_exit code))
      × ((value (code_to_exit code) ≡ 0) ↔ (code ≡ DeliveryCode.ok))
unfolding code_to_exit code_to_outcome value
code_to_exit-created code = ground arith

-- A delivery code that hands on the refusal of a check.
abbrev pub HandsOn : ExitCode → Option DeliveryCode → Type 0
HandsOn code none = ⊥
HandsOn code (some d) = (code_to_exit d ≡ code) × (code_to_outcome d ≡ DeliveryOutcome.refused)

refusal-HandsOn : (code : ExitCode) → IsRefusal code → HandsOn code (check_refusal code)
unfolding check_refusal code_to_exit code_to_outcome
refusal-HandsOn ExitCode.contract_unreadable h = (refl, refl)
refusal-HandsOn ExitCode.contract_invalid_yaml h = (refl, refl)
refusal-HandsOn ExitCode.contract_missing_field h = (refl, refl)
refusal-HandsOn _ h = absurd h

Means-HandsOn :
    (files : Files) (repo : Text) (code : ExitCode) (o : Option Contract)
    → Means files repo code o
    → code ≢ ExitCode.ok
    → HandsOn code (check_refusal code)
unfolding check_refusal code_to_exit code_to_outcome
Means-HandsOn files repo code none h n = refusal-HandsOn code h
Means-HandsOn files repo ExitCode.ok (some c) h n = absurd (n refl)
Means-HandsOn files repo ExitCode.repo_unavailable (some c) h n = (refl, refl)
Means-HandsOn files repo _ (some c) h n = absurd h

-- Where `check` ends without an escaped exception and does not accept, the table of refusals has its
-- code, and the delivery is refused with the same exit code.
pub check_refusal-check :
    (files : Files) (repo path : Text) (r : CheckResult)
    → check files repo path ≡ some r
    → r.code ≢ ExitCode.ok
    → HandsOn r.code (check_refusal r.code)
check_refusal-check files repo path r h n =
    Means-HandsOn files repo r.code r.contract (check-Means files repo path r h) n
