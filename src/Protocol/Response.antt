-- ===== src/Protocol/Response.antt =====
-- The responses of src/satyrn_engine/protocol.py, as the values that `json.dumps` is given, and the tables
-- of exit codes.
use satyrn_engine.Prelude.{Bool, Option, none, some}
use satyrn_engine.Prelude.Text.{Text, txt}
use satyrn_engine.Prelude.Int.{pos}
use satyrn_engine.Prelude.Value.{
  Value, Items, null, boolean, int, float, str, list, dict, other, nil, cons, Decoded, document,
  decode_error, other_error, get, end, field, odd_field, type_name,
}
use satyrn_engine.Exits.{ExitCode}
use satyrn_engine.Mutation.Receipt.{MutationCode, MutationReceipt, MutationResult}
use satyrn_engine.Runner.Receipt.{RunnerCode, RunnerReceipt, RunnerResult}
use satyrn_engine.Prelude.Value

-- `code.name`, and the values of the other two enumerations
unfoldable pub exit_name : ExitCode → Text
exit_name ExitCode.ok = txt "OK"
exit_name ExitCode.usage = txt "USAGE"
exit_name ExitCode.contract_unreadable = txt "CONTRACT_UNREADABLE"
exit_name ExitCode.contract_invalid_yaml = txt "CONTRACT_INVALID_YAML"
exit_name ExitCode.contract_missing_field = txt "CONTRACT_MISSING_FIELD"
exit_name ExitCode.repo_unavailable = txt "REPO_UNAVAILABLE"
exit_name ExitCode.invalid_request = txt "INVALID_REQUEST"
exit_name ExitCode.no_candidate = txt "NO_CANDIDATE"
exit_name ExitCode.mutation_refused = txt "MUTATION_REFUSED"
exit_name ExitCode.attempt_failed = txt "ATTEMPT_FAILED"
exit_name ExitCode.test_command_unavailable = txt "TEST_COMMAND_UNAVAILABLE"
exit_name ExitCode.test_command_not_allowed = txt "TEST_COMMAND_NOT_ALLOWED"
exit_name ExitCode.tests_failed = txt "TESTS_FAILED"
exit_name ExitCode.budget_exhausted = txt "BUDGET_EXHAUSTED"
exit_name ExitCode.attempt_ok_forward_lost = txt "ATTEMPT_OK_FORWARD_LOST"

unfoldable pub mutation_name : MutationCode → Text
mutation_name MutationCode.ok = txt "OK"
mutation_name MutationCode.path_undeclared = txt "PATH_UNDECLARED"
mutation_name MutationCode.revision_unavailable = txt "REVISION_UNAVAILABLE"
mutation_name MutationCode.revision_stale = txt "REVISION_STALE"
mutation_name MutationCode.no_change_requested = txt "NO_CHANGE_REQUESTED"
mutation_name MutationCode.anchor_missing = txt "ANCHOR_MISSING"
mutation_name MutationCode.anchor_already_applied = txt "ANCHOR_ALREADY_APPLIED"
mutation_name MutationCode.anchor_ambiguous = txt "ANCHOR_AMBIGUOUS"
mutation_name MutationCode.mutation_failed = txt "MUTATION_FAILED"

unfoldable pub runner_name : RunnerCode → Text
runner_name RunnerCode.ok = txt "OK"
runner_name RunnerCode.test_command_unavailable = txt "TEST_COMMAND_UNAVAILABLE"
runner_name RunnerCode.test_command_not_allowed = txt "TEST_COMMAND_NOT_ALLOWED"

-- `_MUTATION_TO_EXIT` and `_RUNNER_TO_EXIT`
unfoldable pub mutation_exit : MutationCode → ExitCode
mutation_exit MutationCode.ok = ExitCode.ok
mutation_exit MutationCode.path_undeclared = ExitCode.mutation_refused
mutation_exit MutationCode.revision_unavailable = ExitCode.mutation_refused
mutation_exit MutationCode.revision_stale = ExitCode.mutation_refused
mutation_exit MutationCode.no_change_requested = ExitCode.mutation_refused
mutation_exit MutationCode.anchor_missing = ExitCode.mutation_refused
mutation_exit MutationCode.anchor_already_applied = ExitCode.mutation_refused
mutation_exit MutationCode.anchor_ambiguous = ExitCode.mutation_refused
mutation_exit MutationCode.mutation_failed = ExitCode.mutation_refused

unfoldable pub runner_exit : RunnerCode → ExitCode
runner_exit RunnerCode.ok = ExitCode.ok
runner_exit RunnerCode.test_command_unavailable = ExitCode.test_command_unavailable
runner_exit RunnerCode.test_command_not_allowed = ExitCode.test_command_not_allowed

-- The fields that every response has, before those of the operation
unfoldable pub payload : Bool → Text → Text → Value.Fields → Value.Fields
payload is_ok code message rest = field (txt "version") (int (pos 1)) (
    field (txt "ok") (boolean is_ok)
      (field (txt "code") (str code) (field (txt "message") (str message) rest)))

-- `_base_payload`
unfoldable pub base_payload : ExitCode → Text → Value.Fields → Value.Fields
unfolding exit_name payload
base_payload code message = payload (satyrn_engine.Exits.is_ok code) (exit_name code) message

-- `render_response`
unfoldable pub render_response : ExitCode → Text → Value
unfolding base_payload
render_response code message = dict (base_payload code message end)

-- `_render_replace_check_failure` and `_render_test_check_failure`, which are the same
unfoldable pub render_check_failure : ExitCode → Text → Value
unfolding base_payload
render_check_failure code message = dict (base_payload code message (field (txt "result") null end))

mutation_result : Option MutationResult → Value
mutation_result none = null
mutation_result (some r) = dict (
    field (txt "path") (str r.path)
      (field (txt "sha256") (str r.sha256) (field (txt "region") (str r.region) end)))

-- `render_replace_response`
unfoldable pub render_replace_response : MutationReceipt → Value
unfolding mutation_name payload mutation_result
render_replace_response receipt = dict (
    payload (satyrn_engine.Mutation.Receipt.is_ok receipt.code) (mutation_name receipt.code)
      receipt.message (field (txt "result") (mutation_result receipt.result) end))

runner_result : Option RunnerResult → Value
runner_result none = null
runner_result (some r) = dict (
    field (txt "exit_code") (int r.exit_code) (
      field (txt "output") (str r.output) (
        field (txt "truncated") (boolean r.truncated) (
          field (txt "timed_out") (boolean r.timed_out)
            (field (txt "compact_bytes") (int (pos r.compact_bytes)) end)))))

-- `render_test_response`
unfoldable pub render_test_response : RunnerReceipt → Value
unfolding runner_name payload runner_result
render_test_response receipt = dict (
    payload (satyrn_engine.Runner.Receipt.is_ok receipt.code) (runner_name receipt.code)
      receipt.message (field (txt "result") (runner_result receipt.result) end))
