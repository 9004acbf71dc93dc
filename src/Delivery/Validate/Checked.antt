-- ===== src/Delivery/Validate/Checked.antt =====
-- `_validate_candidate` of delivery.py: its Git commands and receipts.
use satyrn_engine.Prelude.{
  ℕ, ◌≡◌, refl, Bool, true, false, Option, none, some, List, [], ◌∷◌, ◌⊎◌, inl, inr,
}
use satyrn_engine.Prelude.Int.{ℤ}
use satyrn_engine.Prelude.Text.{Text}
use satyrn_engine.Delivery.Spec.{
  Spec, Any, spec_rules, Spec-pure, Spec-raise, Spec-if, Spec-call, Spec->>=,
}
use satyrn_engine.Delivery.Exec.{Exec, pure}
use satyrn_engine.Delivery.Validate.{
  is_empty, fail_as, Progress, TestRunResult, unavailable, timed_out, ran, validated, unless_failed,
  is_exhausted, failed_receipt, test_result, run_test_command, checkout_carried, restore_carried_at,
  verdict, expiry, after_run, run_all, with_carried, on_candidate, validate_candidate,
}
use satyrn_engine.Delivery.Codes.{DeliveryCode, ValidationOutcome}
use satyrn_engine.Delivery.Host.{
  Host, TestRan, start_error, test_ended, test_expired, test_interrupted,
}
use satyrn_engine.Delivery.Receipt.{DeliveryContext, DeliveryReceipt, Carried}
use satyrn_engine.Delivery.Shape.{Builds, HasCandidate, LeavesCode, CheckedAt, Checked}
use satyrn_engine.Delivery.Cleanup.Quiet.{Spec-teardown_process_group}

abbrev IsReady : DeliveryCode → Type 0
IsReady DeliveryCode.ok = Unit
IsReady DeliveryCode.budget_exhausted = Unit
IsReady _ = ⊥

-- A receipt that validation is called with.
abbrev pub Ready : DeliveryReceipt → Type 0
Ready r = HasCandidate r × (r.worktree_path ≡ none) × IsReady r.code

leaves-Checked :
    (code : DeliveryCode) (v : ValidationOutcome) (r : DeliveryReceipt)
    → IsReady code
    → LeavesCode v
    → r.validation ≡ v
    → HasCandidate r
    → r.worktree_path ≡ none
    → CheckedAt code r
leaves-Checked DeliveryCode.ok v r a l e c w = (c, w, rw e l)
leaves-Checked DeliveryCode.budget_exhausted ValidationOutcome.passed r a l e c w = (c, w, rw e tt)
leaves-Checked DeliveryCode.budget_exhausted ValidationOutcome.timed_out r a l e c w =
    (c, w, rw e tt)
leaves-Checked DeliveryCode.budget_exhausted ValidationOutcome.unavailable r a l e c w =
    (c, w, rw e tt)
leaves-Checked DeliveryCode.budget_exhausted ValidationOutcome.not_requested r a l e c w =
    (c, w, rw e tt)
leaves-Checked DeliveryCode.budget_exhausted _ r a l e c w = absurd l
leaves-Checked _ v r a l e c w = absurd a

pub validated-Checked :
    (r : DeliveryReceipt) (v : ValidationOutcome) (x : Option ℤ) (o : Option Text)
    → Ready r
    → LeavesCode v
    → Checked (validated r v x o)
unfolding validated
validated-Checked r v x o (c, w, a) l = leaves-Checked r.code v _ a l refl c w

spent-Checked :
    (code : DeliveryCode) (r : DeliveryReceipt)
    → is_exhausted code ≡ true
    → r.validation ≡ ValidationOutcome.failed
    → HasCandidate r
    → r.worktree_path ≡ none
    → CheckedAt code r
unfolding is_exhausted
spent-Checked DeliveryCode.budget_exhausted r e v c w = (c, w, rw v tt)
spent-Checked _ r e v c w = cc

fail_as-Checked :
    (show : Option ℤ → Text) (r : DeliveryReceipt) (x : ℤ) (o : Text) (b : Bool)
    → is_exhausted r.code ≡ b
    → Ready r
    → Checked (fail_as show r x o b)
unfolding fail_as
fail_as-Checked show r x o true e (c, w, a) = spent-Checked r.code _ e refl c w
fail_as-Checked show r x o false e (c, w, a) = (c, w, refl)

failed_receipt-Checked :
    (show : Option ℤ → Text) (r : DeliveryReceipt) (x : ℤ) (o : Text)
    → Ready r
    → Checked (failed_receipt show r x o)
unfolding failed_receipt
failed_receipt-Checked show r x o h = fail_as-Checked show r x o (is_exhausted r.code) refl h

unless_failed-Checked :
    (show : Option ℤ → Text) (r otherwise : DeliveryReceipt) (output : Text) (x : Option ℤ)
    → Ready r
    → Checked otherwise
    → Checked (unless_failed show r otherwise output x)
unfolding unless_failed
unless_failed-Checked show r otherwise output none h o = o
unless_failed-Checked show r otherwise output (some x) h o =
    failed_receipt-Checked show r x output h

module _ {host : Host} {R : DeliveryReceipt → Type 0} (base : Text) (context : DeliveryContext)
    (worktree : Text) where
  Spec-test_result :
      (command : List Text) (t : TestRan)
      → Spec (Builds base) R Any (test_result host context worktree command t)
  unfolding test_result
  Spec-test_result command (start_error d) = search spec_rules
  Spec-test_result command (test_ended c o) = search spec_rules
  Spec-test_result command test_expired = search (spec_rules, Spec-teardown_process_group)
  Spec-test_result command test_interrupted = search (spec_rules, Spec-teardown_process_group)

  Spec-run_test_command :
      (command : List Text) (t : ℕ)
      → Spec (Builds base) R Any (run_test_command host context worktree command t)
  unfolding run_test_command
  Spec-run_test_command command t = search (spec_rules, Spec-test_result)

  Spec-after_run :
      (r : DeliveryReceipt) (p : Progress) (next : Progress → Exec host DeliveryReceipt)
      (t : TestRunResult)
      → Ready r
      → ((q : Progress) → Spec (Builds base) R Checked (next q))
      → Spec (Builds base) R Checked (after_run host context worktree r p next t)
  unfolding after_run expiry
  Spec-after_run r p next (unavailable m) h k = Spec-pure _ (validated-Checked r _ _ _ h tt)
  Spec-after_run r p next (timed_out out) h k =
      Spec-pure _ (unless_failed-Checked _ r _ _ p.exit_code h (validated-Checked r _ _ _ h tt))
  Spec-after_run r p next (ran code out) h k = k _

  Spec-run_all :
      (r : DeliveryReceipt) (timeout started : ℕ) (runs : List (List Text)) (p : Progress)
      → Ready r
      → Spec (Builds base) R Checked (run_all host context worktree r timeout started runs p)
  unfolding run_all verdict
  Spec-run_all r timeout started [] p h =
      Spec-pure _ (unless_failed-Checked _ r _ _ p.exit_code h (validated-Checked r _ _ _ h tt))
  Spec-run_all r timeout started (argv ∷ rest) p h = Spec->>= _ _ (Spec-call _) λ now.
      Spec->>= _ _ (Spec-run_test_command _ _)
        λ t. Spec-after_run r p _ t h (λ q. Spec-run_all r timeout started rest q h)

  Spec-with_carried :
      (r : DeliveryReceipt) (timeout : ℕ) (o : Carried ⊎ Text)
      → Ready r
      → Spec (Builds base) R Checked (with_carried host context worktree r timeout o)
  unfolding with_carried
  Spec-with_carried r timeout (inr m) h = Spec-pure _ (validated-Checked r _ _ _ h tt)
  Spec-with_carried r timeout (inl c) h =
      Spec->>= _ _ (Spec-call _) λ started. Spec-run_all _ timeout started _ _ h

  Spec-checkout_carried :
      (c : Carried) (ps : List Text)
      → Spec (Builds base) R Any (checkout_carried host context worktree c ps)
  unfolding checkout_carried
  Spec-checkout_carried c [] = search spec_rules
  Spec-checkout_carried c (p ∷ ps) = search spec_rules

  Spec-restore_carried_at :
      (ps : List Text) → Spec (Builds base) R Any (restore_carried_at host context worktree ps)
  unfolding restore_carried_at
  Spec-restore_carried_at ps = search (spec_rules, Spec-checkout_carried)

  Spec-on_candidate :
      (r : DeliveryReceipt) (timeout : ℕ) (o : Option Text)
      → Ready r
      → Spec (Builds base) R Checked (on_candidate host context worktree r timeout o)
  unfolding on_candidate
  Spec-on_candidate r timeout none h = Spec-raise
  Spec-on_candidate r timeout (some c) h =
      search (spec_rules, h, Spec-restore_carried_at, Spec-with_carried) depth 8

  -- The rule for validation, of a receipt that is ready for it.
  pub Spec-validate_candidate :
      (r : DeliveryReceipt) (timeout : ℕ)
      → Ready r
      → Spec (Builds base) R Checked (validate_candidate host context worktree r timeout)
  unfolding validate_candidate
  Spec-validate_candidate r timeout h =
      Spec-if (is_empty context.test_command)
        (pure (validated r ValidationOutcome.not_requested none none))
        (on_candidate host context worktree r timeout r.candidate_commit)
        (λ _. Spec-pure _ (validated-Checked r ValidationOutcome.not_requested none none h tt))
        (λ _. Spec-on_candidate r timeout _ h)
