-- ===== src/Exits.antt =====
-- src/satyrn_engine/exits.py: the process exit codes.
use satyrn_engine.Prelude.{ℕ, Bool, true, false, ◌≡◌, ◌≢◌, arith}

pub data ExitCode : Type 0 where
  ok usage contract_unreadable contract_invalid_yaml contract_missing_field repo_unavailable :
      ExitCode
  invalid_request no_candidate mutation_refused attempt_failed test_command_unavailable : ExitCode
  test_command_not_allowed tests_failed budget_exhausted attempt_ok_forward_lost : ExitCode

-- `int(code)`
unfoldable pub value : ExitCode → ℕ
value ok = 0
value usage = 2
value contract_unreadable = 3
value contract_invalid_yaml = 4
value contract_missing_field = 5
value repo_unavailable = 6
value invalid_request = 7
value no_candidate = 8
value mutation_refused = 9
value attempt_failed = 10
value test_command_unavailable = 11
value test_command_not_allowed = 12
value tests_failed = 13
value budget_exhausted = 14
value attempt_ok_forward_lost = 15

-- `code is ExitCode.OK`
abbrev pub is_ok : ExitCode → Bool
is_ok ok = true
is_ok _ = false

-- Exit codes with the same process status are the same, and that status is not the 1 with which
-- Python reports an uncaught exception.
pub value_injective : (a b : ExitCode) → value a ≡ value b → (a ≡ b) × (value a ≢ 1)
unfolding value
value_injective a b h = ground arith
