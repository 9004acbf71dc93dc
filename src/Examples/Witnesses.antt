-- ===== src/Examples/Witnesses.antt =====
-- The theorems at the sample values.
use satyrn_engine.Prelude.{
  ℕ, ◌≡◌, ◌≢◌, ◌↔◌, refl, true, false, none, some, List, [], ◌∷◌, ◌++◌, ◌||◌, ◌&&◌,
}
use satyrn_engine.Prelude.Text.{txt, contains, is_blank}
use satyrn_engine.Prelude.Value.{get}
use satyrn_engine.Delivery.Preflight.Refuses.{Prepares, preflight-Refuses, Harmless, Refuses}
use satyrn_engine.Delivery.Attempt.{Arguments, deliver, attempt, isolated}
use satyrn_engine.Delivery.Attempt.Delivers.{updates-deliver}
use satyrn_engine.Delivery.Preflight.{candidate_ref_of, preflight}
use satyrn_engine.Delivery.Stream.{
  Consumed, consume_chunk, first_line, feed_line, over, stream_end, unfinished, StreamOutcome,
}
use satyrn_engine.Delivery.Stream.Chunks.{consume_chunk-append}
use satyrn_engine.Runner.Output.{tail_output}
use satyrn_engine.Runner.Output.Tail.{Keeps, tail_output-Keeps}
use satyrn_engine.Budget.Counter.{feed, fresh}
use satyrn_engine.Exits.{ExitCode, value}
use satyrn_engine.Contract.{load_contract, Files}
use satyrn_engine.Contract.Fields.{
  Contract, field_problems, build, text_of, texts_of, limit_of, seconds_of,
}
use satyrn_engine.Contract.Fields.Valid.{IsValid}
use satyrn_engine.Contract.Accept.{load_contract-IsValid}
use satyrn_engine.Check.{CheckResult, check}
use satyrn_engine.Check.Verdict.{check-Means}
use satyrn_engine.Budget.{Budget, evaluate, deadline_exhausted, crossed}
use satyrn_engine.Budget.Evaluate.{Says, evaluate-Says}
use satyrn_engine.Delivery.Codes.{
  DeliveryCode, code_to_exit, code_to_outcome, created, check_refusal,
}
use satyrn_engine.Delivery.Codes.Agree.{
  code_to_exit-created, HandsOn, check_refusal-check, is_candidate_exit,
}
use satyrn_engine.Delivery.Spec.{Extends, Ends}
use satyrn_engine.Delivery.Shape.{Builds, Checked, Fresh, updates, claims}
use satyrn_engine.Delivery.Exec.{Sys, go}
use satyrn_engine.Delivery.Attempt.Claims.{updates-attempt}
use satyrn_engine.Delivery.Attempt.Checked.{isolated-Checked}
use satyrn_engine.Delivery.Commit.{run_and_commit}
use satyrn_engine.Delivery.Commit.Fresh.{run_and_commit-Fresh}
use satyrn_engine.Delivery.Cleanup.{
  cleanup_attempt, TeardownResult, unknown, apply_teardown, cleanup_safe,
}
use satyrn_engine.Delivery.Cleanup.Removes.{cleanup_attempt-apply_teardown}
use satyrn_engine.Delivery.Stream.Truthful.{stream_end-Truthful, Truthful}
use satyrn_engine.Delivery.Stream.Stops.{stream_end-limit}
use satyrn_engine.Runner.Carried.{select_carried, is_conftest, infrastructure}
use satyrn_engine.Runner.Carried.Selects.{contains-select_carried}
use satyrn_engine.Examples.Sample.{
  sample_host, sample_pass, sample_context, sample_state, sample_request, sample_files,
  sample_contract,
}
use satyrn_engine.Exits

updates-attempt_example :
    updates (attempt sample_host sample_context (txt "run" ∷ []) 10 sample_state).1.log
    ≡ claims sample_context.candidate_ref
        (λ a. a)
        (attempt sample_host sample_context (txt "run" ∷ []) 10 sample_state).0
      ++ []
unfolding updates
updates-attempt_example =
    updates-attempt sample_host sample_context (txt "run" ∷ []) 10 sample_state

isolated-Checked_example :
    Extends
      (Builds (txt "b0"))
      []
      (isolated sample_host sample_context (txt "run" ∷ []) 10 sample_state).1.log
    × Ends Checked Checked (isolated sample_host sample_context (txt "run" ∷ []) 10 sample_state).0
isolated-Checked_example =
    isolated-Checked sample_host sample_context (txt "run" ∷ []) 10 sample_state

run_and_commit-Fresh_example :
    Extends
      (Builds (txt "b0"))
      []
      (run_and_commit sample_host sample_context (txt "run" ∷ []) 10 sample_state).1.log
    × Ends Fresh Fresh
        (run_and_commit sample_host sample_context (txt "run" ∷ []) 10 sample_state).0
run_and_commit-Fresh_example =
    run_and_commit-Fresh sample_host sample_context (txt "run" ∷ []) 10 sample_state

preflight-Refuses_example :
    Extends Harmless [] (preflight sample_host sample_request sample_state).1.log
    × Ends Refuses (Prepares sample_request) (preflight sample_host sample_request sample_state).0
preflight-Refuses_example = preflight-Refuses sample_host sample_request sample_state

abbrev unsafe_teardown : TeardownResult
unsafe_teardown = record { group = unknown; child_reaped = true; detail = none }

abbrev torn_down : Sys sample_host
torn_down = record sample_state { attempt = apply_teardown unsafe_teardown sample_state.attempt }

cleanup_attempt-apply_teardown_example :
    (m : List ℕ) × (cleanup_attempt sample_host sample_context torn_down
      ≡ (go (some (m, txt "/tmp/a/worktree")), torn_down))
unfolding cleanup_safe
cleanup_attempt-apply_teardown_example =
    cleanup_attempt-apply_teardown sample_host sample_context unsafe_teardown sample_state refl

abbrev deadline_budget : Budget
deadline_budget = record { turn_limit = none; deadline_seconds = some 5; token_limit = none }

abbrev late_outcome : StreamOutcome
late_outcome = record {
  exhausted = some deadline_exhausted;
  command_timed_out = false;
  counter = fresh;
  seconds_used = 50;
}

stream_end-Truthful_example : Truthful deadline_budget late_outcome
unfolding stream_end crossed
stream_end-Truthful_example =
    stream_end-Truthful sample_host.decode_replace sample_host.json_loads deadline_budget 50 1000
      (record sample_pass { exited = false } ∷ []) late_outcome refl

stream_end-limit_example :
    stream_end sample_host.decode_replace sample_host.json_loads deadline_budget 0 90
      (sample_pass ∷ [])
    ≢ unfinished
stream_end-limit_example =
    stream_end-limit sample_host.decode_replace sample_host.json_loads deadline_budget 0 90
      (sample_pass ∷ []) refl refl

evaluate-Says_example :
    let u = evaluate deadline_budget 1 6 2 in
    Says u.state deadline_budget 1 6 2
    × (u.turns_used ≡ 1)
    × (u.seconds_used ≡ 6)
    × (u.tokens_used ≡ 2)
evaluate-Says_example = evaluate-Says deadline_budget 1 6 2

abbrev loaded_sample : Contract
loaded_sample = record sample_contract { preserve = []; checks = [] }

load_contract-IsValid_example : IsValid loaded_sample
unfolding load_contract field_problems get txt is_blank build text_of texts_of limit_of seconds_of
load_contract-IsValid_example = load_contract-IsValid sample_files (txt "c.yaml") loaded_sample refl

abbrev accepted_sample : CheckResult
accepted_sample = record { code = ExitCode.ok; message = []; contract = some loaded_sample }

check-Means_example : IsValid loaded_sample × (true ≡ true)
unfolding check load_contract field_problems get txt is_blank build text_of texts_of limit_of
    seconds_of
check-Means_example = check-Means sample_files (txt "/repo") (txt "c.yaml") accepted_sample refl

-- The same files, without the repository.
abbrev lost_files : Files
lost_files = record sample_files { is_dir = λ path. false }

abbrev lost_result : CheckResult
lost_result = record {
  code = ExitCode.repo_unavailable;
  message = txt "repo is not a directory: /repo";
  contract = some loaded_sample;
}

check_refusal-check_example :
    HandsOn ExitCode.repo_unavailable (check_refusal ExitCode.repo_unavailable)
unfolding check load_contract field_problems get txt is_blank build text_of texts_of limit_of
    seconds_of
check_refusal-check_example =
    check_refusal-check lost_files (txt "/repo") (txt "c.yaml") lost_result refl (λ h. cc)

code_to_exit-created_example :
    (created (code_to_outcome DeliveryCode.tests_failed)
      ≡ is_candidate_exit (code_to_exit DeliveryCode.tests_failed))
    × ((value (code_to_exit DeliveryCode.tests_failed) ≡ 0)
        ↔ (DeliveryCode.tests_failed ≡ DeliveryCode.ok))
code_to_exit-created_example = code_to_exit-created DeliveryCode.tests_failed

contains-select_carried_example :
    contains (txt "spec.py") (select_carried sample_contract (txt "spec.py" ∷ txt "a.py" ∷ []))
    ≡ contains (txt "spec.py") (txt "spec.py" ∷ txt "a.py" ∷ [])
      && (contains (txt "spec.py") sample_contract.preserve
          || (contains (txt "spec.py") sample_contract.checks
              || (is_conftest (txt "spec.py") || contains (txt "spec.py") infrastructure)))
contains-select_carried_example =
    contains-select_carried sample_contract (txt "spec.py" ∷ txt "a.py" ∷ []) (txt "spec.py")

value_injective_example : (ExitCode.ok ≡ ExitCode.ok) × (value ExitCode.ok ≢ 1)
value_injective_example = Exits.value_injective ExitCode.ok ExitCode.ok refl

abbrev first_chunk : Consumed
first_chunk = record { pending = txt "b"; exhausted = none; counter = fresh }

consume_chunk-append_example :
    consume_chunk sample_host.decode_replace sample_host.json_loads deadline_budget
      (txt "a\nb" ++ txt "c\n")
      []
      fresh
    ≡ consume_chunk sample_host.decode_replace sample_host.json_loads deadline_budget
        (txt "c\n")
        (txt "b")
        fresh
unfolding consume_chunk first_line feed_line feed over crossed txt
consume_chunk-append_example =
    consume_chunk-append sample_host.decode_replace sample_host.json_loads deadline_budget
      (txt "a\nb") (txt "c\n") [] fresh first_chunk refl refl

tail_output-Keeps_example :
    Keeps (λ b. b) (txt "two tests passed") (tail_output (λ b. b) (txt "two tests passed"))
tail_output-Keeps_example = tail_output-Keeps (λ b. b) (txt "two tests passed")

abbrev sample_arguments : Arguments
sample_arguments = record {
  repo = txt "/repo";
  contract_path = txt "c.yaml";
  command = txt "run" ∷ [];
  timeout = 10;
  base = none;
  turn_limit = some 3;
  deadline_seconds = none;
  token_limit = none;
}

updates-deliver_example :
    updates (deliver sample_host sample_files (λ t. none) sample_arguments sample_state).1.log
    ≡ claims
        (candidate_ref_of (txt "c"))
        (λ r. r)
        (deliver sample_host sample_files (λ t. none) sample_arguments sample_state).0
      ++ updates []
unfolding check load_contract field_problems get txt is_blank build text_of texts_of limit_of
    seconds_of
updates-deliver_example =
    updates-deliver sample_host sample_files (λ t. none) sample_arguments accepted_sample
      loaded_sample sample_state refl refl
