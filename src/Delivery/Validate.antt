-- ===== src/Delivery/Validate.antt =====
-- The engine's own run of the contract's tests: `restore_carried_at`, `_run_test_command`,
-- `_checkout_candidate`, `_validated` and `_validate_candidate` of delivery.py.
pub mod Checked
use satyrn_engine.Prelude.{
  ◌⊎◌, ℕ, ◌+◌, ◌-◌, ◌*◌, ◌^◌, max, Bool, true, false, ◌&&◌, ◌||◌, not, Option, none, some, List, [],
  ◌∷◌, ◌++◌, map, if◌then◌else◌, keep, is_empty, inl, inr,
}
use satyrn_engine.Prelude.Int.{ℤ, pos, is_zero}
use satyrn_engine.Prelude.Text.{Text, Bytes, txt, contains, join, text_lines, utf8_size}
use satyrn_engine.Prelude.Sort.{sorted}
use satyrn_engine.Contract.Fields.{Contract}
use satyrn_engine.Runner.Carried.{select_carried, infrastructure, is_conftest}
use satyrn_engine.Runner.Output.{tail_output}
use satyrn_engine.Delivery.Codes.{DeliveryCode, ValidationOutcome}
use satyrn_engine.Delivery.Host.{
  Host, TestRan, start_error, test_ended, test_expired, test_interrupted,
}
use satyrn_engine.Delivery.Git.{ls_tree, checkout_paths, checkout_candidate}
use satyrn_engine.Delivery.Receipt.{DeliveryContext, DeliveryReceipt, Carried, context_receipt}
use satyrn_engine.Delivery.Exec.{
  Exec, pure, leave, raise, gets, call, attempt_of, modify, ◌>>=◌, ◌>>◌,
}
use satyrn_engine.Delivery.Calls.{git, git_message, with_value}
use satyrn_engine.Delivery.Cleanup.{teardown_process_group}

-- `_is_infrastructure`
is_infrastructure : Text → Bool
is_infrastructure p = is_conftest p || contains p infrastructure

abbrev empty_contract : Contract
empty_contract = record {
  id = [];
  task = [];
  writable_paths = [];
  test_command = [];
  turn_budget = none;
  deadline_seconds = none;
  preserve = [];
  checks = [];
  token_budget = none;
}

abbrev declared_contract : Option Contract → Contract
declared_contract none = empty_contract
declared_contract (some c) = c

-- The accounting of `restore_carried_at`, from what is tracked at the base.
unfoldable pub carried_of : Contract → List Text → List Text → Carried
unfolding is_infrastructure
carried_of contract tracked changed_paths =
    let selected = select_carried contract tracked in
    record {
      preserve = keep (λ p. contains p contract.preserve) selected;
      checks =
          keep (λ p. contains p contract.checks && not (contains p contract.preserve)) selected;
      infrastructure =
          keep (λ p. not (contains p contract.preserve) && not (contains p contract.checks))
            selected;
      absent = keep (λ p. not (contains p tracked)) (contract.preserve ++ contract.checks);
      tampered = sorted (keep (λ p. contains p selected || is_infrastructure p) changed_paths);
    }

-- `_validated` without a new code or message, and with them
unfoldable pub validated :
    DeliveryReceipt → ValidationOutcome → Option ℤ → Option Text → DeliveryReceipt
validated r validation exit output = record r {
  validation = validation;
  validation_exit = exit;
  validation_output = output;
  validation_output_bytes = elim output [ none ↦ none | some t ↦ some (utf8_size t) ];
}

is_exhausted : DeliveryCode → Bool
is_exhausted DeliveryCode.budget_exhausted = true
is_exhausted _ = false

-- `_failed`: a failing suite, of an attempt that had spent its budget or had not
fail_as : (Option ℤ → Text) → DeliveryReceipt → ℤ → Text → Bool → DeliveryReceipt
unfolding validated
fail_as show r exit output true =
    record (validated r ValidationOutcome.failed (some exit) (some output)) {
      message =
          txt "candidate created (budget exhausted); contract test_command failed with exit "
          ++ show (some exit);
    }
fail_as show r exit output false =
    record (validated r ValidationOutcome.failed (some exit) (some output)) {
      code = DeliveryCode.tests_failed;
      message =
          txt "candidate created; contract test_command failed with exit " ++ show (some exit);
    }

unfoldable pub failed_receipt : (Option ℤ → Text) → DeliveryReceipt → ℤ → Text → DeliveryReceipt
unfolding fail_as is_exhausted
failed_receipt show r exit output = fail_as show r exit output (is_exhausted r.code)

-- A known failure is the verdict.
unfoldable pub unless_failed :
    (Option ℤ → Text) → DeliveryReceipt → DeliveryReceipt → Text → Option ℤ → DeliveryReceipt
unless_failed show r otherwise output none = otherwise
unless_failed show r otherwise output (some exit) = failed_receipt show r exit output

-- 0.1 seconds: the double 7205759403792794 * 2 ^ -56
abbrev tenth : ℕ
tenth = 7205759403792794 * 2 ^ 1018

-- `_TestRunResult`
pub data TestRunResult : Type 0 where
  unavailable : Text → TestRunResult
  timed_out : Bytes → TestRunResult
  ran : ℤ → Bytes → TestRunResult

-- `runs`: the command alone, with the preserved tests, with the checks
abbrev with_paths : List Text → List Text → List (List Text)
with_paths test_command [] = []
with_paths test_command (p ∷ ps) = (test_command ++ p ∷ ps) ∷ []

unfoldable pub runs_of : List Text → Carried → List (List Text)
runs_of test_command carried =
    test_command ∷ with_paths test_command carried.preserve
    ++ with_paths test_command carried.checks

-- What is known after some of the runs.
pub record Progress : Type 0 where
  pub outputs : List Text
  pub exit_code : Option ℤ

unfoldable pub joined : List Text → Text
joined = join (txt "\n")

-- `exit_code is None and result.returncode != 0`
abbrev first_failure : Option ℤ → ℤ → Option ℤ
first_failure (some e) code = some e
first_failure none code = if is_zero code then none else some code

module _ (host : Host) (context : DeliveryContext) (worktree : Text) where
  open host use {run_test, collect_test, monotonic, decode_replace, show_int, repr_list}

  test_result : List Text → TestRan → Exec host TestRunResult
  test_result command (start_error detail) =
      pure (
        unavailable (txt "cannot run test command " ++ (repr_list command ++ (txt ": " ++ detail))))
  test_result command (test_ended code out) = pure (ran code out)
  test_result command test_expired = do
    teardown_process_group host
    out ← call collect_test
    pure (timed_out out)
  test_result command test_interrupted = do teardown_process_group host; raise

  -- `_run_test_command`, with `COLUMNS` widened
  run_test_command : List Text → ℕ → Exec host TestRunResult
  unfolding test_result
  run_test_command command timeout = do
    r ← call (
        run_test command worktree (with_value (txt "COLUMNS") (txt "500") context.environment)
          timeout)
    test_result command r

  -- `restore_carried_at`: the accounting, or the message of a failed restoration
  checkout_carried : Carried → List Text → Exec host (Carried ⊎ Text)
  checkout_carried carried [] = pure (inl carried)
  checkout_carried carried (p ∷ ps) = do
    checked_out ←
        git host worktree context.environment (checkout_paths context.base_commit (p ∷ ps)) none
    pure (
        if is_zero checked_out.returncode
        then inl carried
        else inr (txt "carried tests could not be restored from base " ++ context.base_commit))

  unfoldable pub restore_carried_at : List Text → Exec host (Carried ⊎ Text)
  unfolding checkout_carried
  restore_carried_at changed_paths = do
    listed ← git host worktree context.environment (ls_tree context.base_commit) none
    let contract = declared_contract context.contract
    let tracked = text_lines (decode_replace listed.stdout)
    if is_zero listed.returncode
        then checkout_carried (carried_of contract tracked changed_paths)
            (select_carried contract tracked)
        else pure (inr (txt "carried tests could not be read from base " ++ context.base_commit))

  verdict : DeliveryReceipt → Progress → DeliveryReceipt
  verdict r p =
      unless_failed show_int r
        (validated r ValidationOutcome.passed (some (pos 0)) (some (joined p.outputs)))
        (joined p.outputs) p.exit_code

  -- A timeout does not hide the failure of an earlier run.
  expiry : DeliveryReceipt → Progress → DeliveryReceipt
  expiry r p =
      unless_failed show_int r
        (validated r ValidationOutcome.timed_out none (some (joined p.outputs))) (joined p.outputs)
        p.exit_code

  tailed : Bytes → Text
  tailed out = (tail_output decode_replace out).0

  -- `next` is the rest of the loop, from the outputs and the exit code so far.
  after_run :
      DeliveryReceipt
      → Progress
      → (Progress → Exec host DeliveryReceipt)
      → TestRunResult
      → Exec host DeliveryReceipt
  unfolding expiry tailed
  after_run r p next (unavailable message) =
      pure (validated r ValidationOutcome.unavailable none (some message))
  after_run r p next (timed_out out) =
      pure (expiry r (record p { outputs = p.outputs ++ tailed out ∷ [] }))
  after_run r p next (ran code out) = next (record {
    outputs = p.outputs ++ tailed out ∷ [];
    exit_code = first_failure p.exit_code code;
  })

  -- `for argv in runs`
  run_all : DeliveryReceipt → ℕ → ℕ → List (List Text) → Progress → Exec host DeliveryReceipt
  unfolding run_test_command verdict after_run
  run_all r timeout started [] p = pure (verdict r p)
  run_all r timeout started (argv ∷ rest) p = do
    now ← call monotonic
    result ← run_test_command argv (max (timeout - (now - started)) tenth)
    after_run r p (run_all r timeout started rest) result

  with_carried : DeliveryReceipt → ℕ → Carried ⊎ Text → Exec host DeliveryReceipt
  unfolding run_all
  with_carried r timeout (inr message) =
      pure (validated r ValidationOutcome.unavailable none (some message))
  with_carried r timeout (inl carried) = do
    started ← call monotonic
    run_all (record r { carried = carried }) timeout started (runs_of context.test_command carried)
        (record { outputs = []; exit_code = none })

  -- `pending.candidate_commit` is there when the code calls this.
  on_candidate : DeliveryReceipt → ℕ → Option Text → Exec host DeliveryReceipt
  unfolding with_carried
  on_candidate r timeout none = raise
  on_candidate r timeout (some candidate_commit) = do
    checked_out ← git host worktree context.environment (checkout_candidate candidate_commit) none
    carried ←
        (if is_zero checked_out.returncode
          then restore_carried_at (elim r.changed_paths [ none ↦ [] | some ps ↦ ps ])
          else pure (
              inr (
                git_message host (txt "cannot check out candidate commit for validation")
                  checked_out)))
    with_carried r timeout carried

  -- `_validate_candidate`
  unfoldable pub validate_candidate : DeliveryReceipt → ℕ → Exec host DeliveryReceipt
  unfolding on_candidate
  validate_candidate r timeout =
      if is_empty context.test_command
      then pure (validated r ValidationOutcome.not_requested none none)
      else on_candidate r timeout r.candidate_commit
