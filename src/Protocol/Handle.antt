-- ===== src/Protocol/Handle.antt =====
-- `handle_protocol` of src/satyrn_engine/protocol.py, on the systems of the two operations that have effects.
pub mod Agree
pub mod Effects
use satyrn_engine.Prelude.Value.{Value}
use satyrn_engine.Prelude.{
  ℕ, zero, suc, ◌+◌, ◌-◌, ◌*◌, ◌≤◌, ◌<◌, min, max, ◌≡◌, ◌≢◌, ◌↔◌, refl, sym, ap, subst, ◌∙◌, ◌⊎◌,
  inl, inr, Bool, true, false, not, ◌&&◌, ◌||◌, Option, none, some, is_some, List, [], ◌∷◌, ◌++◌,
  map, append-nil, append_assoc, arith, tests, ltb, leb, ◌==◌, if◌then◌else◌, Bool-cases,
  Option-cases, length, take, drop, is_empty, all_of, any_of, keep, length-append, length-take-le,
  ltb→lt, lt→ltb, ltb→le, leb→le, ==_iff,
}
use satyrn_engine.Prelude.Text.{
  Text, Bytes, txt, eq_text, eq_text_iff, contains, starts_with, split, join, utf8, utf8_size,
  encodable, has, strip,
}
use satyrn_engine.Exits.{ExitCode}
use satyrn_engine.Check.{CheckResult, check}
use satyrn_engine.Contract.{Files}
use satyrn_engine.Contract.Fields.{Contract}
use satyrn_engine.Mutation.Io.{Disk, Res, value, os_error, raised}
use satyrn_engine.Mutation.Receipt.{MutationReceipt}
use satyrn_engine.Mutation.Replace.{replace_many}
use satyrn_engine.Runner.Receipt.{RunnerReceipt}
use satyrn_engine.Runner.Run.{Machine, run_tests}
use satyrn_engine.Protocol.Request.{
  Reader, Parsed, parsed, protocol_error, crashed, ProtocolRequest, check_request, replace_request,
  run_tests_request, ReplaceRequest, RunTestsRequest, parse_request,
}
use satyrn_engine.Protocol.Response.{
  render_response, render_check_failure, render_replace_response, render_test_response,
  mutation_exit, runner_exit,
}
use satyrn_engine.Mutation.Io
use satyrn_engine.Runner.Run
use satyrn_engine.Exits

-- The parts that the operations stand on; `json_dumps` is with the separators given.
pub record Services : Type 1 where
  pub reader : Reader
  pub files : Files
  pub disk : Disk
  pub machine : Machine
  pub default_test_timeout : Machine.Seconds machine
  pub json_dumps : Value → Text

pub record State (services : Services) : Type 0 where
  pub disk : satyrn_engine.Mutation.Io.Sys (Services.disk services)
  pub machine : satyrn_engine.Runner.Run.Sys (Services.machine services)

-- The response before it is printed, and the exit code; `none` is an exception that escapes.
pub record Reply : Type 0 where
  pub payload : Value
  pub exit : ExitCode

abbrev pub reply : Value → ExitCode → Option Reply
reply payload exit = some (record { payload = payload; exit = exit })

-- `checked.code is not ExitCode.OK or checked.contract is None`
unfoldable pub accepted : CheckResult → Option Contract
accepted checked = if satyrn_engine.Exits.is_ok checked.code then checked.contract else none

replace_reply : Res MutationReceipt → Option Reply
replace_reply (value receipt) = reply (render_replace_response receipt) (mutation_exit receipt.code)
replace_reply (os_error e) = none
replace_reply raised = none

test_reply : Option RunnerReceipt → Option Reply
test_reply none = none
test_reply (some receipt) = reply (render_test_response receipt) (runner_exit receipt.code)

check_reply : Option CheckResult → Option Reply
check_reply none = none
check_reply (some result) = reply (render_response result.code result.message) result.code

module _ (services : Services) where
  replace_accepted :
      ReplaceRequest
      → CheckResult
      → Option Contract
      → State services
      → Option Reply × State services
  unfolding replace_reply
  replace_accepted request checked none s =
      (reply (render_check_failure checked.code checked.message) checked.code, s)
  replace_accepted request checked (some contract) s =
      let (r, d) =
        replace_many services.disk request.repo contract request.path request.expected_sha256
          request.replacements s.disk in
      (replace_reply r, record s { disk = d })

  replace_checked :
      ReplaceRequest → Option CheckResult → State services → Option Reply × State services
  unfolding replace_accepted accepted
  replace_checked request none s = (none, s)
  replace_checked request (some checked) s = replace_accepted request checked (accepted checked) s

  test_accepted :
      RunTestsRequest
      → CheckResult
      → Option Contract
      → State services
      → Option Reply × State services
  unfolding test_reply
  test_accepted request checked none s =
      (reply (render_check_failure checked.code checked.message) checked.code, s)
  test_accepted request checked (some contract) s =
      let (r, m) =
        run_tests services.machine request.repo contract request.command request.base_commit
          services.default_test_timeout s.machine in
      (test_reply r, record s { machine = m })

  test_checked :
      RunTestsRequest → Option CheckResult → State services → Option Reply × State services
  unfolding test_accepted accepted
  test_checked request none s = (none, s)
  test_checked request (some checked) s = test_accepted request checked (accepted checked) s

  -- `match request`
  handle_request : Parsed ProtocolRequest → State services → Option Reply × State services
  unfolding check_reply replace_checked test_checked
  handle_request (protocol_error message) s =
      (reply (render_response ExitCode.invalid_request message) ExitCode.invalid_request, s)
  handle_request crashed s = (none, s)
  handle_request (parsed (check_request repo contract)) s =
      (check_reply (check services.files repo contract), s)
  handle_request (parsed (replace_request request)) s =
      replace_checked request (check services.files request.repo request.contract) s
  handle_request (parsed (run_tests_request request)) s =
      test_checked request (check services.files request.repo request.contract) s

  -- `handle_protocol`, before the response is printed
  unfoldable pub handle : Bytes → State services → Option Reply × State services
  unfolding handle_request
  handle data' = handle_request (parse_request services.reader data')

  printed : Option Reply → Option (Text × ℕ)
  printed none = none
  printed (some r) = some (services.json_dumps r.payload, satyrn_engine.Exits.value r.exit)

  unfoldable pub handle_protocol : Bytes → State services → Option (Text × ℕ) × State services
  unfolding handle printed
  handle_protocol data' s = let (r, s') = handle data' s in (printed r, s')
