-- ===== src/Check.antt =====
-- src/satyrn_engine/check.py: the `check` operation.
pub mod Verdict
use satyrn_engine.Prelude.{
  [], ◌≡◌, refl, Bool, true, false, Option, none, some, ◌++◌, arith, if◌then◌else◌, inl, inr,
}
use satyrn_engine.Prelude.Text.{Text, txt}
use satyrn_engine.Exits.{ExitCode}
use satyrn_engine.Contract.{Loaded, loaded, refused, crashed, Files, load_contract}
use satyrn_engine.Contract.Fields.{Contract}
use satyrn_engine.Contract.Fields.Valid.{IsValid}
use satyrn_engine.Contract.Accept.{load_contract-IsValid}

pub record CheckResult : Type 0 where
  pub code : ExitCode
  pub message : Text
  pub contract : Option Contract

-- `none` is an exception that escapes.
conclude : Files → Text → Loaded → Option CheckResult
conclude files repo (refused code message) =
    some (record { code = code; message = message; contract = none })
conclude files repo (loaded contract) =
    if files.is_dir repo
    then some (record { code = ExitCode.ok; message = []; contract = some contract })
    else some (record {
      code = ExitCode.repo_unavailable;
      message = txt "repo is not a directory: " ++ repo;
      contract = some contract;
    })
conclude files repo crashed = none

unfoldable pub check : Files → Text → Text → Option CheckResult
unfolding conclude
check files repo contract_path = conclude files repo (load_contract files contract_path)
