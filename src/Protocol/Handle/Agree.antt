-- ===== src/Protocol/Handle/Agree.antt =====
-- The responses and the exit codes of `handle_protocol`.
use satyrn_engine.Prelude.Int.{pos}
use satyrn_engine.Prelude.Value.{Value, get, dict, int, boolean}
use satyrn_engine.Prelude.{◌≡◌, refl, ap, Option, none, some, arith}
use satyrn_engine.Prelude.Text.{Text, Bytes, txt}
use satyrn_engine.Protocol.Handle.{
  replace_reply, test_reply, check_reply, replace_accepted, replace_checked, test_accepted,
  test_checked, handle_request, Services, State, Reply, handle,
}
use satyrn_engine.Protocol.Response.{
  payload, base_payload, render_response, render_check_failure, render_replace_response,
  render_test_response, mutation_exit, runner_exit,
}
use satyrn_engine.Mutation.Receipt.{MutationCode, MutationReceipt}
use satyrn_engine.Runner.Receipt.{RunnerCode, RunnerReceipt}
use satyrn_engine.Exits.{ExitCode}
use satyrn_engine.Check.{CheckResult}
use satyrn_engine.Contract.Fields.{Contract}
use satyrn_engine.Mutation.Io.{Res, value, os_error, raised}
use satyrn_engine.Protocol.Request.{
  Parsed, parsed, protocol_error, crashed, ProtocolRequest, check_request, replace_request,
  run_tests_request, ReplaceRequest, RunTestsRequest,
}
use satyrn_engine.Prelude.Value
use satyrn_engine.Exits

-- The fields of a response that every operation has, against the exit code
abbrev Fields-Agree : Value.Fields → ExitCode → Type 0
Fields-Agree fields exit =
    (get fields (txt "version") ≡ some (int (pos 1)))
    × (get fields (txt "ok") ≡ some (boolean (satyrn_engine.Exits.is_ok exit)))

abbrev pub ReplyAgrees : Option Reply → Type 0
ReplyAgrees none = Unit {0}
ReplyAgrees (some r) =
    (fields : Value.Fields) × (r.payload ≡ dict fields) × Fields-Agree fields r.exit

mutation_agrees :
    (c : MutationCode)
    → satyrn_engine.Mutation.Receipt.is_ok c ≡ satyrn_engine.Exits.is_ok (mutation_exit c)
unfolding mutation_exit
mutation_agrees c = ground arith

runner_agrees :
    (c : RunnerCode)
    → satyrn_engine.Runner.Receipt.is_ok c ≡ satyrn_engine.Exits.is_ok (runner_exit c)
unfolding runner_exit
runner_agrees c = ground arith

base-Agree :
    (code : ExitCode) (message : Text) (rest : Value.Fields)
    → Fields-Agree (base_payload code message rest) code
unfolding base_payload payload get txt
base-Agree code message rest = (refl, refl)

replace_reply-ReplyAgrees : (r : Res MutationReceipt) → ReplyAgrees (replace_reply r)
unfolding replace_reply render_replace_response payload get txt
replace_reply-ReplyAgrees (value receipt) =
    (_, refl, (refl, ap (λ b. some (boolean b)) (mutation_agrees receipt.code)))
replace_reply-ReplyAgrees (os_error e) = tt
replace_reply-ReplyAgrees raised = tt

test_reply-ReplyAgrees : (r : Option RunnerReceipt) → ReplyAgrees (test_reply r)
unfolding test_reply render_test_response payload get txt
test_reply-ReplyAgrees none = tt
test_reply-ReplyAgrees (some receipt) =
    (_, refl, (refl, ap (λ b. some (boolean b)) (runner_agrees receipt.code)))

check_reply-ReplyAgrees : (r : Option CheckResult) → ReplyAgrees (check_reply r)
unfolding check_reply render_response
check_reply-ReplyAgrees none = tt
check_reply-ReplyAgrees (some r) = (_, refl, base-Agree r.code r.message _)

module _ (services : Services) where
  replace_accepted-ReplyAgrees :
      (request : ReplaceRequest) (checked : CheckResult) (c : Option Contract) (s : State services)
      → ReplyAgrees (replace_accepted services request checked c s).0
  unfolding replace_accepted render_check_failure
  replace_accepted-ReplyAgrees request checked none s =
      (_, refl, base-Agree checked.code checked.message _)
  replace_accepted-ReplyAgrees request checked (some contract) s = replace_reply-ReplyAgrees _

  test_accepted-ReplyAgrees :
      (request : RunTestsRequest) (checked : CheckResult) (c : Option Contract) (s : State services)
      → ReplyAgrees (test_accepted services request checked c s).0
  unfolding test_accepted render_check_failure
  test_accepted-ReplyAgrees request checked none s =
      (_, refl, base-Agree checked.code checked.message _)
  test_accepted-ReplyAgrees request checked (some contract) s = test_reply-ReplyAgrees _

  replace_checked-ReplyAgrees :
      (request : ReplaceRequest) (c : Option CheckResult) (s : State services)
      → ReplyAgrees (replace_checked services request c s).0
  unfolding replace_checked
  replace_checked-ReplyAgrees request none s = tt
  replace_checked-ReplyAgrees request (some checked) s =
      replace_accepted-ReplyAgrees request checked _ s

  test_checked-ReplyAgrees :
      (request : RunTestsRequest) (c : Option CheckResult) (s : State services)
      → ReplyAgrees (test_checked services request c s).0
  unfolding test_checked
  test_checked-ReplyAgrees request none s = tt
  test_checked-ReplyAgrees request (some checked) s = test_accepted-ReplyAgrees request checked _ s

  handle_request-ReplyAgrees :
      (p : Parsed ProtocolRequest) (s : State services)
      → ReplyAgrees (handle_request services p s).0
  unfolding handle_request render_response
  handle_request-ReplyAgrees (protocol_error message) s =
      (_, refl, base-Agree ExitCode.invalid_request message _)
  handle_request-ReplyAgrees crashed s = tt
  handle_request-ReplyAgrees (parsed (check_request repo contract)) s = check_reply-ReplyAgrees _
  handle_request-ReplyAgrees (parsed (replace_request request)) s =
      replace_checked-ReplyAgrees request _ s
  handle_request-ReplyAgrees (parsed (run_tests_request request)) s =
      test_checked-ReplyAgrees request _ s

  -- Every reply of `handle_protocol`, of each operation and of a request that is refused, has the
  -- protocol's version, and its field `ok` is true exactly where the exit code is OK.
  pub handle-ReplyAgrees :
      (data' : Bytes) (s : State services) → ReplyAgrees (handle services data' s).0
  unfolding handle
  handle-ReplyAgrees data' s = handle_request-ReplyAgrees _ s
