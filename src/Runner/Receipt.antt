-- ===== src/Runner/Receipt.antt =====
-- `RunnerCode`, `RunnerResult` and `RunnerReceipt` of src/satyrn_engine/runner.py.
use satyrn_engine.Prelude.Int.{ℤ}
use satyrn_engine.Prelude.{ℕ, Bool, true, false, Option, none}
use satyrn_engine.Prelude.Text.{Text}

pub data RunnerCode : Type 0 where
  ok test_command_unavailable test_command_not_allowed : RunnerCode

pub record RunnerResult : Type 0 where
  pub exit_code : ℤ
  pub output : Text
  pub truncated : Bool
  pub timed_out : Bool
  pub compact_bytes : ℕ

pub record RunnerReceipt : Type 0 where
  pub code : RunnerCode
  pub message : Text
  pub result : Option RunnerResult

-- A receipt without a result
unfoldable pub refusal : RunnerCode → Text → RunnerReceipt
refusal code message = record { code = code; message = message; result = none }

-- `receipt.ok`
abbrev pub is_ok : RunnerCode → Bool
is_ok ok = true
is_ok _ = false
