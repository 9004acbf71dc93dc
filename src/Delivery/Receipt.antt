-- ===== src/Delivery/Receipt.antt =====
-- `DeliveryReceipt` of src/satyrn_engine/delivery.py, and the functions that build one.
use satyrn_engine.Prelude.{ℕ, Bool, false, Option, none, some, List, [], if◌then◌else◌}
use satyrn_engine.Prelude.Int.{ℤ}
use satyrn_engine.Prelude.Text.{Text}
use satyrn_engine.Budget.{Budget, BudgetUsage, not_enforced, declared, evaluate}
use satyrn_engine.Budget.Counter.{TurnCounter}
use satyrn_engine.Contract.Fields.{Contract}
use satyrn_engine.Exits.{ExitCode}
use satyrn_engine.Delivery.Codes.{
  DeliveryCode, DeliveryOutcome, ValidationOutcome, code_to_outcome, code_to_exit,
}

pub record Carried : Type 0 where
  pub preserve : List Text
  pub checks : List Text
  pub infrastructure : List Text
  pub absent : List Text
  pub tampered : List Text

abbrev pub no_carried : Carried
no_carried = record { preserve = []; checks = []; infrastructure = []; absent = []; tampered = [] }

pub record DeliveryContext : Type 0 where
  pub repository : Text
  pub root : Text
  pub environment : List (Text × Text)
  pub contract_id : Text
  pub base_commit : Text
  pub candidate_ref : Text
  pub test_command : List Text
  pub budget : Budget
  pub contract : Option Contract
  pub size_refusal : Option Text

-- `counts` holds the fields `turns`, `tool_calls`, `tokens_in`, `tokens_out` and `guard_firings`,
-- which the code always sets together from one counter.
pub record DeliveryReceipt : Type 0 where
  pub code : DeliveryCode
  pub message : Text
  pub contract_id : Option Text
  pub repository : Text
  pub base_commit : Option Text
  pub candidate_ref : Option Text
  pub candidate_commit : Option Text
  pub changed_paths : Option (List Text)
  pub command_exit : Option ℤ
  pub worktree_path : Option Text
  pub validation : ValidationOutcome
  pub validation_exit : Option ℤ
  pub validation_output : Option Text
  pub validation_output_bytes : Option ℕ
  pub budget : Budget
  pub budget_usage : BudgetUsage
  pub counts : TurnCounter
  pub carried : Carried
  pub size_refusal : Option Text
  pub head_moved : Bool

unfoldable pub outcome : DeliveryReceipt → DeliveryOutcome
outcome r = code_to_outcome r.code

unfoldable pub exit_code : DeliveryReceipt → ExitCode
exit_code r = code_to_exit r.code

abbrev no_counts : TurnCounter
no_counts = record { turns = 0; tokens_in = 0; tokens_out = 0; tool_calls = 0; guard_firings = [] }

-- The keyword arguments of `_receipt` and `_context_receipt`, `plain` being their defaults.
pub record Details : Type 0 where
  pub candidate_commit : Option Text
  pub changed_paths : Option (List Text)
  pub command_exit : Option ℤ
  pub worktree_path : Option Text
  pub validation : ValidationOutcome
  pub validation_exit : Option ℤ
  pub validation_output : Option Text
  pub validation_output_bytes : Option ℕ
  pub budget : Option Budget
  pub budget_usage : Option BudgetUsage
  pub counts : TurnCounter
  pub carried : Carried
  pub head_moved : Bool

abbrev pub plain : Details
plain = record {
  candidate_commit = none;
  changed_paths = none;
  command_exit = none;
  worktree_path = none;
  validation = ValidationOutcome.not_applicable;
  validation_exit = none;
  validation_output = none;
  validation_output_bytes = none;
  budget = none;
  budget_usage = none;
  counts = no_counts;
  carried = no_carried;
  head_moved = false;
}

-- The fields that a later receipt takes over from a pending one.
abbrev pub handed_on : DeliveryReceipt → Details
handed_on r = record {
  candidate_commit = r.candidate_commit;
  changed_paths = r.changed_paths;
  command_exit = r.command_exit;
  worktree_path = none;
  validation = r.validation;
  validation_exit = r.validation_exit;
  validation_output = r.validation_output;
  validation_output_bytes = r.validation_output_bytes;
  budget = some r.budget;
  budget_usage = some r.budget_usage;
  counts = r.counts;
  carried = r.carried;
  head_moved = r.head_moved;
}

abbrev or_default {ℓ} : {A : Type ℓ} → A → Option A → A
or_default d none = d
or_default d (some x) = x

abbrev unlimited : Budget
unlimited = record { turn_limit = none; deadline_seconds = none; token_limit = none }

-- What `_receipt` reports of a budget when no usage was measured.
usage_of : Budget → Option BudgetUsage → BudgetUsage
usage_of b (some u) = u
usage_of b none =
    if declared b
    then record {
      state = not_enforced;
      turns_used = 0;
      seconds_used = 0;
      tokens_used = 0;
      live_counter_lost = false;
    }
    else evaluate b 0 0 0

-- What the receipt says of the contract, the base and the ref.
pub record Subject : Type 0 where
  pub contract_id : Option Text
  pub base_commit : Option Text
  pub candidate_ref : Option Text
  pub size_refusal : Option Text

unfoldable pub receipt : Text → DeliveryCode → Text → Subject → Details → DeliveryReceipt
unfolding usage_of
receipt repository code message about d =
    let declared_budget = or_default unlimited d.budget in
    record {
      code = code;
      message = message;
      contract_id = about.contract_id;
      repository = repository;
      base_commit = about.base_commit;
      candidate_ref = about.candidate_ref;
      candidate_commit = d.candidate_commit;
      changed_paths = d.changed_paths;
      command_exit = d.command_exit;
      worktree_path = d.worktree_path;
      validation = d.validation;
      validation_exit = d.validation_exit;
      validation_output = d.validation_output;
      validation_output_bytes = d.validation_output_bytes;
      budget = declared_budget;
      budget_usage = usage_of declared_budget d.budget_usage;
      counts = d.counts;
      carried = d.carried;
      size_refusal = about.size_refusal;
      head_moved = d.head_moved;
    }

unfoldable pub context_receipt : DeliveryContext → DeliveryCode → Text → Details → DeliveryReceipt
unfolding receipt
context_receipt context code message d =
    receipt context.repository code message
      (record {
        contract_id = some context.contract_id;
        base_commit = some context.base_commit;
        candidate_ref = some context.candidate_ref;
        size_refusal = context.size_refusal;
      })
      (record d { budget = some (or_default context.budget d.budget) })
