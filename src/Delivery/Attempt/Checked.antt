-- ===== src/Delivery/Attempt/Checked.antt =====
-- `_attempt` of delivery.py, up to cleanup and publication.
use satyrn_engine.Prelude.{ℕ, ◌≡◌, refl, true, false, List}
use satyrn_engine.Prelude.Text.{Text}
use satyrn_engine.Delivery.Spec.{
  Ends, Extends, Spec, spec_rules, Spec-bind, Spec-called, Spec-if, Spec-pure, Spec->>=,
  Spec-attempt_of,
}
use satyrn_engine.Delivery.Attempt.{
  Sys, is_validated_code, validate_if, work, registered_work, isolated,
}
use satyrn_engine.Delivery.Codes.{DeliveryCode}
use satyrn_engine.Delivery.Host.{Host}
use satyrn_engine.Delivery.Receipt.{DeliveryContext, DeliveryReceipt, context_receipt}
use satyrn_engine.Delivery.Exec.{Registration, present_confirmed}
use satyrn_engine.Delivery.Shape.{Builds, Builds-Reads, Fresh, FreshAt, Checked, CheckedAt}
use satyrn_engine.Delivery.Calls.Quiet.{Spec-worktree_registered}
use satyrn_engine.Delivery.Commit.Fresh.{Spec-run_and_commit}
use satyrn_engine.Delivery.Validate.Checked.{Ready, Spec-validate_candidate}

-- A receipt that goes on to validation has a candidate.
ready :
    (code : DeliveryCode) (r : DeliveryReceipt)
    → r.code ≡ code
    → is_validated_code code ≡ true
    → FreshAt code r
    → Ready r
ready DeliveryCode.ok r e h (c, u, x) = (c, u.1, rw e tt)
ready DeliveryCode.budget_exhausted r e h (c, u, x) = (c, u.1, rw e tt)
ready _ r e h f = cc

-- One that does not is as it was.
unready :
    (code : DeliveryCode) (r : DeliveryReceipt)
    → is_validated_code code ≡ false
    → FreshAt code r
    → CheckedAt code r
unready DeliveryCode.ok r h f = cc
unready DeliveryCode.budget_exhausted r h f = cc
unready DeliveryCode.tests_failed r h f = absurd f
unready DeliveryCode.cleanup_failed r h f = absurd f
unready _ r h f = f

module _ {host : Host} {R : DeliveryReceipt → Type 0} (context : DeliveryContext) where
  Spec-validate_if :
      (r : DeliveryReceipt) (timeout : ℕ)
      → Fresh r
      → Spec (Builds context.base_commit) R Checked (validate_if host context r timeout)
  unfolding validate_if
  Spec-validate_if r timeout f =
      Spec-if (is_validated_code r.code) _ _
        (λ e. Spec->>= _ _ (Spec-attempt_of _) (λ t.
          Spec-validate_candidate context.base_commit context t r timeout
            (ready r.code r refl e f)))
        (λ e. Spec-pure r (unready r.code r e f))

  Spec-work :
      (command : List Text) (timeout : ℕ)
      → Spec (Builds context.base_commit) R Checked (work host context command timeout)
  unfolding work
  Spec-work command timeout =
      Spec-bind _ _ (Spec-called _ (Spec-run_and_commit context command timeout))
        (λ r f. Spec-validate_if r timeout f)

  Spec-registered_work :
      (command : List Text) (timeout : ℕ) (g : Registration)
      → Spec (Builds context.base_commit) R Checked (registered_work host context command timeout g)
  unfolding registered_work context_receipt
  Spec-registered_work command timeout present_confirmed = Spec-work command timeout
  Spec-registered_work command timeout _ = search spec_rules

  -- Before cleanup and publication, no ref is made and every commit is made on the base.
  pub Spec-isolated :
      (command : List Text) (timeout : ℕ)
      → Spec (Builds context.base_commit) R Checked (isolated host context command timeout)
  unfolding isolated context_receipt
  Spec-isolated command timeout =
      search
        (
          spec_rules,
          Spec-registered_work,
          Spec-worktree_registered (Builds-Reads context.base_commit),
        )
        depth 12

-- Before an attempt is cleaned up and published, whatever the host answers: it has made no ref, every
-- commit that it has made has the base as its only parent, and its receipt, where it ends with one,
-- keeps to its code: `ok` has a candidate, its changed paths and a verdict other than `failed` and
-- `not_applicable`; `tests_failed` has a candidate and the verdict `failed`; `budget_exhausted` has a
-- candidate and some verdict; `cleanup_failed` does not occur; every other code has no verdict; and
-- none keeps a path on disk.
pub isolated-Checked :
    (host : Host) (context : DeliveryContext) (command : List Text) (timeout : ℕ) (s : Sys host)
    → Extends (Builds context.base_commit) s.log (isolated host context command timeout s).1.log
      × Ends Checked Checked (isolated host context command timeout s).0
isolated-Checked host context command timeout s = (Spec-isolated context command timeout).at s
