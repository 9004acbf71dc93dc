-- ===== src/Mutation/Receipt.antt =====
-- The vocabulary and the receipt of mutation.py.
use satyrn_engine.Prelude.{Bool, true, false, Option, none, some, []}
use satyrn_engine.Prelude.Text.{Text}

pub data MutationCode : Type 0 where
  ok path_undeclared revision_unavailable revision_stale no_change_requested : MutationCode
  anchor_missing anchor_already_applied anchor_ambiguous mutation_failed : MutationCode

pub record MutationResult : Type 0 where
  pub path : Text
  pub sha256 : Text
  pub region : Text

pub record MutationReceipt : Type 0 where
  pub code : MutationCode
  pub message : Text
  pub result : Option MutationResult

-- A receipt without a result
unfoldable pub refusal : MutationCode → Text → MutationReceipt
refusal code message = record { code = code; message = message; result = none }

-- `MutationReceipt(MutationCode.OK, result=...)`
unfoldable pub replaced : Text → Text → Text → MutationReceipt
replaced path sha256 region = record {
  code = ok;
  message = [];
  result = some (record { path = path; sha256 = sha256; region = region });
}

-- `receipt.ok`
abbrev pub is_ok : MutationCode → Bool
is_ok ok = true
is_ok _ = false
