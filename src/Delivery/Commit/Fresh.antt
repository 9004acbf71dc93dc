-- ===== src/Delivery/Commit/Fresh.antt =====
-- The second half of `_run_and_commit` in delivery.py: its Git commands and receipts.
use satyrn_engine.Prelude.{ℕ, ◌≡◌, true, Option, none, some, is_some, List}
use satyrn_engine.Prelude.Int.{pos}
use satyrn_engine.Prelude.Text.{Text, Bytes}
use satyrn_engine.Delivery.Spec.{Ends, Extends, Spec, Any, spec_rules}
use satyrn_engine.Delivery.Exec.{Sys}
use satyrn_engine.Budget.{BudgetState}
use satyrn_engine.Delivery.Codes.{ValidationOutcome}
use satyrn_engine.Delivery.Host.{Host}
use satyrn_engine.Delivery.Receipt.{DeliveryContext, Details, context_receipt}
use satyrn_engine.Delivery.Shape.{Builds, Fresh}
use satyrn_engine.Delivery.Run.{Account, spent}
use satyrn_engine.Delivery.Run.Fresh.{Spec-run_command}
use satyrn_engine.Delivery.Commit.{
  ascii_or_raise, to_ascii, after, inspect_head, stage, commit, usable_paths, changed_paths,
  exhausted_receipt, conclude, commit_candidate, run_and_commit,
}

-- Nothing was validated yet, and nothing is kept.
abbrev Bare : Details → Type 0
Bare d = (d.validation ≡ ValidationOutcome.not_applicable) × (d.worktree_path ≡ none)

module _ {host : Host} (context : DeliveryContext) (account : Account) where
  Spec-ascii_or_raise :
      (o : Option Text)
      → Spec (Builds context.base_commit) Fresh Any (ascii_or_raise host context account o)
  unfolding ascii_or_raise
  Spec-ascii_or_raise none = search spec_rules
  Spec-ascii_or_raise (some t) = search spec_rules

  Spec-to_ascii :
      (b : Bytes) → Spec (Builds context.base_commit) Fresh Any (to_ascii host context account b)
  unfolding to_ascii
  Spec-to_ascii b = Spec-ascii_or_raise _

  Spec-inspect_head :
      (t : Text) → Spec (Builds context.base_commit) Fresh Any (inspect_head host context account t)
  unfolding inspect_head after context_receipt spent
  Spec-inspect_head t = search (spec_rules, Spec-to_ascii) depth 14

  Spec-stage :
      (t : Text) (d : Details)
      → Bare d
      → Spec (Builds context.base_commit) Fresh Any (stage host context account t d)
  unfolding stage context_receipt
  Spec-stage t d h = search (spec_rules, h.0, h.1) depth 14

  Spec-commit :
      (t : Text) (tree : Bytes) (d : Details)
      → Bare d
      → Spec (Builds context.base_commit) Fresh Any (commit host context account t tree d)
  unfolding commit context_receipt
  Spec-commit t tree d h = search (spec_rules, h.0, h.1, Spec-to_ascii) depth 14

  Spec-usable_paths :
      (d : Details) (o : Option (List Text))
      → Bare d
      → Spec (Builds context.base_commit) Fresh Any (usable_paths host context account d o)
  unfolding usable_paths context_receipt
  Spec-usable_paths d none h = search (spec_rules, h.0, h.1)
  Spec-usable_paths d (some ps) h = search spec_rules

  Spec-changed_paths :
      (t c : Text) (d : Details)
      → Bare d
      → Spec (Builds context.base_commit) Fresh Any (changed_paths host context account t c d)
  unfolding changed_paths context_receipt
  Spec-changed_paths t c d h = search (spec_rules, h.0, h.1, Spec-usable_paths) depth 14

  Spec-exhausted_receipt :
      (d : Details) (o : Option Text)
      → Bare d
      → is_some d.candidate_commit ≡ true
      → is_some d.changed_paths ≡ true
      → Spec (Builds context.base_commit) Fresh Fresh (exhausted_receipt host context account d o)
  unfolding exhausted_receipt context_receipt
  Spec-exhausted_receipt d none h c p = search spec_rules
  Spec-exhausted_receipt d (some t) h c p = search (spec_rules, h.0, h.1)

  Spec-conclude :
      (d : Details) (o : Option BudgetState)
      → Bare d
      → is_some d.candidate_commit ≡ true
      → is_some d.changed_paths ≡ true
      → d.command_exit ≡ some (pos 0)
      → Spec (Builds context.base_commit) Fresh Fresh (conclude host context account d o)
  unfolding conclude context_receipt
  Spec-conclude d none h c p x = search (spec_rules, h.0, h.1)
  Spec-conclude d (some s) h c p x = search (spec_rules, h.0, h.1, Spec-exhausted_receipt)

  pub Spec-commit_candidate :
      (t : Text)
      → Spec (Builds context.base_commit) Fresh Fresh (commit_candidate host context account t)
  unfolding commit_candidate after spent
  Spec-commit_candidate t =
      search
        (spec_rules, Spec-inspect_head, Spec-stage, Spec-commit, Spec-changed_paths, Spec-conclude)
        depth 14

-- The rule for `_run_and_commit`.
pub Spec-run_and_commit :
    {host : Host} (context : DeliveryContext) (command : List Text) (timeout : ℕ)
    → Spec (Builds context.base_commit) Fresh Fresh (run_and_commit host context command timeout)
unfolding run_and_commit
Spec-run_and_commit context command timeout =
    search (spec_rules, Spec-run_command, Spec-commit_candidate) depth 8

-- From the implementer's command to the candidate commit, whatever the host answers: no ref is made,
-- every commit has the base as its only parent, and the receipt that ends this part has no verdict
-- and keeps no path; with code `ok` it has a candidate, its changed paths and `command_exit` 0, with
-- `budget_exhausted` a candidate, its changed paths and no `command_exit`, and its code is neither
-- `tests_failed` nor `cleanup_failed`.
pub run_and_commit-Fresh :
    (host : Host) (context : DeliveryContext) (command : List Text) (timeout : ℕ) (s : Sys host)
    → Extends
        (Builds context.base_commit)
        s.log
        (run_and_commit host context command timeout s).1.log
      × Ends Fresh Fresh (run_and_commit host context command timeout s).0
run_and_commit-Fresh host context command timeout s =
    (Spec-run_and_commit context command timeout).at s
