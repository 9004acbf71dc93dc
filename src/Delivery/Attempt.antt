-- ===== src/Delivery/Attempt.antt =====
-- `_publish`, `_attempt` and `deliver` of delivery.py.
pub mod Checked
pub mod Publishes
pub mod Claims
pub mod Delivers
use satyrn_engine.Prelude.{
  ◌⊎◌, ℕ, Bool, true, false, ◌&&◌, ◌||◌, not, Option, none, some, List, [], ◌∷◌, ◌++◌,
  if◌then◌else◌, inl, inr,
}
use satyrn_engine.Prelude.Int.{is_zero}
use satyrn_engine.Prelude.Text.{Text, txt}
use satyrn_engine.Delivery.Codes.{
  created, DeliveryCode, DeliveryOutcome, candidate_created, check_refusal, code_name,
}
use satyrn_engine.Budget.{Budget}
use satyrn_engine.Exits.{ExitCode, is_ok}
use satyrn_engine.Contract.{Files}
use satyrn_engine.Contract.Fields.{Contract}
use satyrn_engine.Check.{CheckResult, check}
use satyrn_engine.Delivery.Host.{Host, GitResult}
use satyrn_engine.Delivery.Git.{update_ref, worktree_add}
use satyrn_engine.Delivery.Receipt.{
  DeliveryContext, DeliveryReceipt, Details, plain, handed_on, outcome, receipt, context_receipt,
}
use satyrn_engine.Delivery.Exec.{
  AttemptState, Registration, absent_confirmed, may_exist, present_confirmed, opened, Sys, Exit, go,
  returned, raised, Exec, pure, leave, raise, call, attempt_of, modify, called, ◌>>=◌, ◌>>◌,
}
use satyrn_engine.Delivery.Calls.{git, git_message, worktree_registered, ref_exists}
use satyrn_engine.Delivery.Preflight.{Request, resolve_budget, preflight}
use satyrn_engine.Delivery.Cleanup.{cleanup_attempt}
use satyrn_engine.Delivery.Commit.{run_and_commit}
use satyrn_engine.Delivery.Validate.{validate_candidate}
use satyrn_engine.Delivery.Isolation.{temporary_parent}

-- `observe_registration`
unfoldable pub observe_registration : Option Bool → Registration
observe_registration (some true) = present_confirmed
observe_registration (some false) = absent_confirmed
observe_registration none = may_exist

-- `needs_cleanup`
unfoldable pub needs_cleanup : AttemptState → Bool
needs_cleanup a = elim a.registration [ absent_confirmed ↦ a.parent_exists | _ ↦ true ]

abbrev is_validated_code : DeliveryCode → Bool
is_validated_code DeliveryCode.ok = true
is_validated_code DeliveryCode.budget_exhausted = true
is_validated_code _ = false

-- What the body of `_attempt` ends with, and whether a failed cleanup is to be left alone.
pub record Ended : Type 0 where
  pub retained : Bool
  pub receipt : DeliveryReceipt

-- What `_publish` returns when the ref was not made.
lost_race : DeliveryContext → DeliveryReceipt → Text → Option Bool → DeliveryReceipt
lost_race context pending message (some true) =
    context_receipt context DeliveryCode.candidate_exists (txt "candidate ref already exists")
      (handed_on pending)
lost_race context pending message _ =
    context_receipt context DeliveryCode.git_failed message (handed_on pending)

module _ (host : Host) (context : DeliveryContext) where
  -- `_publish`
  after_update : DeliveryReceipt → GitResult → Exec host DeliveryReceipt
  unfolding lost_race
  after_update pending published = if is_zero published.returncode then pure pending else (do
    existing ← ref_exists host context.root context.environment context.candidate_ref
    pure (
        lost_race context pending (git_message host (txt "cannot publish candidate ref") published)
          existing))

  pub publish_commit : DeliveryReceipt → Text → Exec host DeliveryReceipt
  unfolding after_update
  publish_commit pending commit = do
    published ←
        git host context.root context.environment (update_ref context.candidate_ref commit) none
    after_update pending published

  publish_if : DeliveryReceipt → Option Text → Exec host DeliveryReceipt
  unfolding publish_commit
  publish_if pending none = raise
  publish_if pending (some commit) = publish_commit pending commit

  unfoldable pub publish : DeliveryReceipt → Exec host DeliveryReceipt
  unfolding publish_if
  publish pending = publish_if pending pending.candidate_commit

  validate_if : DeliveryReceipt → ℕ → Exec host DeliveryReceipt
  validate_if pending timeout =
      if is_validated_code pending.code
      then (do
        worktree ← attempt_of (λ a. a.worktree)
        validate_candidate host context worktree pending timeout)
      else pure pending

  -- The work in the worktree, once Git is known to have registered it.
  work : List Text → ℕ → Exec host DeliveryReceipt
  unfolding validate_if
  work command timeout = do
    pending ← called (run_and_commit host context command timeout)
    validate_if pending timeout

  registered_work : List Text → ℕ → Registration → Exec host DeliveryReceipt
  unfolding work
  registered_work command timeout present_confirmed = work command timeout
  registered_work command timeout _ = pure (
      context_receipt context DeliveryCode.git_failed
        (txt "cannot confirm that Git registered the isolated worktree") plain)

  pub isolated : List Text → ℕ → Exec host DeliveryReceipt
  unfolding registered_work
  isolated command timeout = do
    modify (λ a. record a { registration = may_exist })
    a ← attempt_of (λ b. b)
    added ←
        git host context.root context.environment (worktree_add a.worktree context.base_commit) none
    registration ← worktree_registered host context a.worktree
    modify (λ b. record b { registration = observe_registration registration })
    if is_zero added.returncode
        then registered_work command timeout (observe_registration registration)
        else pure (
            context_receipt context DeliveryCode.git_failed
              (git_message host (txt "cannot add isolated worktree") added) plain)

  settle_created : DeliveryReceipt → Exec host Ended
  settle_created pending =
      if created (outcome pending)
      then (do r ← publish pending; pure (record { retained = false; receipt = r }))
      else pure (record { retained = false; receipt = pending })

  -- Cleanup comes before publication, and its failure replaces the pending result.
  after_cleanup : DeliveryReceipt → Option (Text × Text) → Exec host Ended
  unfolding settle_created
  after_cleanup pending none = settle_created pending
  after_cleanup pending (some (message, retained_path)) = pure (record {
    retained = true;
    receipt =
        context_receipt context DeliveryCode.cleanup_failed
          (txt "cleanup failed after pending result "
            ++ (code_name pending.code ++ (txt ": " ++ message)))
          (record (handed_on pending) { worktree_path = some retained_path });
  })

  body : List Text → ℕ → Exec host Ended
  unfolding isolated after_cleanup
  body command timeout = do
    pending ← isolated command timeout
    cleanup ← cleanup_attempt host context
    after_cleanup pending cleanup

  -- `finally`: what a raise has left is cleaned up, and so is a state that still needs it.
  clean_again : Bool → Sys host → Sys host
  clean_again retained s =
      if not retained && needs_cleanup s.attempt then (cleanup_attempt host context s).1 else s

  finish : Exit Ended × Sys host → Exit DeliveryReceipt × Sys host
  unfolding clean_again
  finish (go e, s) = (go e.receipt, clean_again e.retained s)
  finish (returned r, s) = (go r, clean_again false s)
  finish (raised, s) = (raised, clean_again false s)

  guarded : List Text → ℕ → Exec host DeliveryReceipt
  unfolding body finish
  guarded command timeout s = finish (body command timeout s)

  in_parent : List Text → ℕ → Text ⊎ Text → Exec host DeliveryReceipt
  unfolding guarded
  in_parent command timeout (inr message) =
      pure (context_receipt context DeliveryCode.git_failed message plain)
  in_parent command timeout (inl parent) = do
    modify (λ _. record {
      parent = parent;
      worktree = parent ++ txt "/worktree";
      registration = absent_confirmed;
      parent_exists = true;
      cleanup_gate = opened;
      process_detail = none;
    })
    guarded command timeout

  -- `_attempt`
  unfoldable pub attempt : List Text → ℕ → Exec host DeliveryReceipt
  unfolding in_parent
  attempt command timeout = do
    parent ← temporary_parent host context
    in_parent command timeout parent

-- The arguments of `deliver`; `size_refusal` is `derive.size_refusal`.
pub record Arguments : Type 0 where
  pub repo : Text
  pub contract_path : Text
  pub command : List Text
  pub timeout : ℕ
  pub base : Option Text
  pub turn_limit : Option ℕ
  pub deadline_seconds : Option ℕ
  pub token_limit : Option ℕ

module _ (host : Host) (files : Files) (size_refusal : Text → Option Text) (args : Arguments) where
  budget_of : CheckResult → Budget
  budget_of checked =
      resolve_budget checked.contract args.turn_limit args.deadline_seconds args.token_limit

  refuse_check : CheckResult → Option DeliveryCode → Exec host DeliveryReceipt
  unfolding budget_of
  refuse_check checked none = raise
  refuse_check checked (some code) = pure (
      receipt (Host.abspath host args.repo) code checked.message
        (record {
          contract_id = elim checked.contract [ none ↦ none | some c ↦ some c.id ];
          base_commit = none;
          candidate_ref = none;
          size_refusal = none;
        })
        (record plain { budget = some (budget_of checked) }))

  accepted : CheckResult → Option Contract → Exec host DeliveryReceipt
  unfolding budget_of
  accepted checked none = raise
  accepted checked (some contract) = do
    context ← preflight host (record {
      repository = Host.abspath host args.repo;
      contract_id = contract.id;
      base = args.base;
      test_command = contract.test_command;
      budget = budget_of checked;
      contract = some contract;
      size_refusal = size_refusal contract.task;
    })
    attempt host context args.command args.timeout

  of_check : Option CheckResult → Exec host DeliveryReceipt
  unfolding refuse_check accepted
  of_check none = raise
  of_check (some checked) =
      if is_ok checked.code
      then accepted checked checked.contract
      else refuse_check checked (check_refusal checked.code)

  -- `deliver`
  unfoldable pub deliver : Exec host DeliveryReceipt
  unfolding of_check
  deliver = called (of_check (check files args.repo args.contract_path))
