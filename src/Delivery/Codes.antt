-- ===== src/Delivery/Codes.antt =====
-- The closed vocabularies of src/satyrn_engine/delivery.py and the tables between them.
pub mod Agree
use satyrn_engine.Prelude.{false, true, Bool, none, some, Option}
use satyrn_engine.Prelude.Text.{txt, Text}
use satyrn_engine.Exits.{ExitCode}

pub data DeliveryOutcome : Type 0 where
  candidate_created discarded refused : DeliveryOutcome

pub data ValidationOutcome : Type 0 where
  passed failed timed_out unavailable not_requested not_applicable : ValidationOutcome

pub data DeliveryCode : Type 0 where
  ok tests_failed budget_exhausted contract_unreadable contract_invalid_yaml : DeliveryCode
  contract_missing_field repo_unavailable repo_not_git repo_dirty invalid_candidate_id :
      DeliveryCode
  candidate_exists command_unavailable command_timeout command_failed command_changed_head :
      DeliveryCode
  no_changes git_failed cleanup_failed : DeliveryCode

-- `_CODE_TO_OUTCOME`
unfoldable pub code_to_outcome : DeliveryCode → DeliveryOutcome
code_to_outcome ok = candidate_created
code_to_outcome tests_failed = candidate_created
code_to_outcome budget_exhausted = candidate_created
code_to_outcome command_timeout = discarded
code_to_outcome command_failed = discarded
code_to_outcome command_changed_head = discarded
code_to_outcome no_changes = discarded
code_to_outcome contract_unreadable = refused
code_to_outcome contract_invalid_yaml = refused
code_to_outcome contract_missing_field = refused
code_to_outcome repo_unavailable = refused
code_to_outcome repo_not_git = refused
code_to_outcome repo_dirty = refused
code_to_outcome invalid_candidate_id = refused
code_to_outcome candidate_exists = refused
code_to_outcome command_unavailable = refused
code_to_outcome git_failed = refused
code_to_outcome cleanup_failed = refused

-- `_CODE_TO_EXIT`
unfoldable pub code_to_exit : DeliveryCode → ExitCode
code_to_exit ok = ExitCode.ok
code_to_exit tests_failed = ExitCode.tests_failed
code_to_exit budget_exhausted = ExitCode.budget_exhausted
code_to_exit contract_unreadable = ExitCode.contract_unreadable
code_to_exit contract_invalid_yaml = ExitCode.contract_invalid_yaml
code_to_exit contract_missing_field = ExitCode.contract_missing_field
code_to_exit repo_unavailable = ExitCode.repo_unavailable
code_to_exit repo_not_git = ExitCode.no_candidate
code_to_exit repo_dirty = ExitCode.no_candidate
code_to_exit invalid_candidate_id = ExitCode.no_candidate
code_to_exit candidate_exists = ExitCode.no_candidate
code_to_exit command_unavailable = ExitCode.no_candidate
code_to_exit command_timeout = ExitCode.no_candidate
code_to_exit command_failed = ExitCode.no_candidate
code_to_exit command_changed_head = ExitCode.no_candidate
code_to_exit no_changes = ExitCode.no_candidate
code_to_exit git_failed = ExitCode.no_candidate
code_to_exit cleanup_failed = ExitCode.no_candidate

-- `_CHECK_REFUSAL_TO_DELIVERY_CODE`; a missing key is `none`.
unfoldable pub check_refusal : ExitCode → Option DeliveryCode
check_refusal ExitCode.contract_unreadable = some contract_unreadable
check_refusal ExitCode.contract_invalid_yaml = some contract_invalid_yaml
check_refusal ExitCode.contract_missing_field = some contract_missing_field
check_refusal ExitCode.repo_unavailable = some repo_unavailable
check_refusal _ = none

-- The member's value
unfoldable pub code_name : DeliveryCode → Text
code_name ok = txt "OK"
code_name tests_failed = txt "TESTS_FAILED"
code_name budget_exhausted = txt "BUDGET_EXHAUSTED"
code_name contract_unreadable = txt "CONTRACT_UNREADABLE"
code_name contract_invalid_yaml = txt "CONTRACT_INVALID_YAML"
code_name contract_missing_field = txt "CONTRACT_MISSING_FIELD"
code_name repo_unavailable = txt "REPO_UNAVAILABLE"
code_name repo_not_git = txt "REPO_NOT_GIT"
code_name repo_dirty = txt "REPO_DIRTY"
code_name invalid_candidate_id = txt "INVALID_CANDIDATE_ID"
code_name candidate_exists = txt "CANDIDATE_EXISTS"
code_name command_unavailable = txt "COMMAND_UNAVAILABLE"
code_name command_timeout = txt "COMMAND_TIMEOUT"
code_name command_failed = txt "COMMAND_FAILED"
code_name command_changed_head = txt "COMMAND_CHANGED_HEAD"
code_name no_changes = txt "NO_CHANGES"
code_name git_failed = txt "GIT_FAILED"
code_name cleanup_failed = txt "CLEANUP_FAILED"

-- `outcome is DeliveryOutcome.CANDIDATE_CREATED`
abbrev pub created : DeliveryOutcome → Bool
created candidate_created = true
created _ = false
