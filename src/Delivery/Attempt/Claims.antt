-- ===== src/Delivery/Attempt/Claims.antt =====
-- `_attempt` of delivery.py, from publication on: the refs made and the receipt.
use satyrn_engine.Prelude.{
  ◌&&◌, ◌⊎◌, Bool-cases, ◌∙◌, ℕ, ◌≡◌, refl, ap, sym, Bool, true, false, Option, none, some, is_some,
  List, ◌++◌,
}
use satyrn_engine.Prelude.Text.{Text}
use satyrn_engine.Delivery.Spec.{Spec-modify}
use satyrn_engine.Delivery.Shape.{updates-Builds, Builds-Reads, claims, Checked, updates, CheckedAt}
use satyrn_engine.Delivery.Attempt.{
  needs_cleanup, inl, not, inr, guarded, settle_created, publish_if, in_parent, finish, clean_again,
  attempt, after_cleanup, Ended, body, publish,
}
use satyrn_engine.Delivery.Exec.{◌>>◌, Sys, Exit, go, returned, raised, pure, ◌>>=◌, proceed}
use satyrn_engine.Delivery.Cleanup.Quiet.{Spec-cleanup_attempt}
use satyrn_engine.Delivery.Isolation.Quiet.{Spec-temporary_parent}
use satyrn_engine.Delivery.Attempt.Checked.{Spec-isolated}
use satyrn_engine.Delivery.Host.{Host}
use satyrn_engine.Delivery.Codes.{DeliveryCode, code_to_outcome, created}
use satyrn_engine.Delivery.Receipt.{DeliveryContext, DeliveryReceipt, outcome, context_receipt}
use satyrn_engine.Delivery.Attempt.Publishes.{
  Never, Uncreated, Accounts, Accounts-bind, publish_commit-Accounts, claimed-Uncreated,
}

module _ {host : Host} {A : Type 0} (ref : Text) (f : A → DeliveryReceipt) where
  -- A value with a claim, when the receipt claims nothing.
  pure-Accounts : (a : A) → Uncreated (f a) → Accounts {host = host} ref f (pure a)
  unfolding pure
  pure-Accounts a h = record {
    at = λ s. ap (λ l. l ++ updates s.log) (sym (claimed-Uncreated ref (f a) h));
  }

-- A checked receipt that was created has a commit.
commit_of :
    (code : DeliveryCode) (r : DeliveryReceipt)
    → created (code_to_outcome code) ≡ true
    → CheckedAt code r
    → is_some r.candidate_commit ≡ true
unfolding code_to_outcome
commit_of DeliveryCode.ok r c h = h.0.0
commit_of DeliveryCode.tests_failed r c h = h.0.0
commit_of DeliveryCode.budget_exhausted r c h = h.0.0
commit_of _ r c h = cc

module _ {host : Host} (context : DeliveryContext) where
  publish_if-Accounts :
      (r : DeliveryReceipt) (o : Option Text)
      → created (outcome r) ≡ true
      → r.candidate_commit ≡ o
      → is_some o ≡ true
      → Accounts context.candidate_ref (λ a. a) (publish_if host context r o)
  unfolding publish_if
  publish_if-Accounts r none c e h = cc
  publish_if-Accounts r (some commit) c e h = publish_commit-Accounts context r commit c e

  proceed-Ended :
      (x : Exit DeliveryReceipt × Sys host) (old : List (Option Text × Option Text))
      → updates x.1.log ≡ claims context.candidate_ref (λ a. a) x.0 ++ old
      → updates
          (proceed {B = Ended} x
            (λ r. pure {host = host} (record { retained = false; receipt = r }))).1.log
        ≡ claims context.candidate_ref
            (λ e. Ended.receipt e)
            (proceed {B = Ended} x
              (λ r. pure {host = host} (record { retained = false; receipt = r }))).0
          ++ old
  unfolding pure
  proceed-Ended (go r, s) old h = h
  proceed-Ended (returned r, s) old h = h
  proceed-Ended (raised, s) old h = h

  published-Accounts :
      (r : DeliveryReceipt)
      → created (outcome r) ≡ true
      → Checked r
      → Accounts context.candidate_ref
          (λ e. Ended.receipt e)
          (publish host context r >>= (λ q. pure (record { retained = false; receipt = q })))
  unfolding publish ◌>>=◌ outcome
  published-Accounts r c h = record {
    at = λ s.
        proceed-Ended _ _
          ((publish_if-Accounts r r.candidate_commit c refl (commit_of r.code r c h)).at s);
  }

  settle_created-Accounts :
      (r : DeliveryReceipt)
      → Checked r
      → (b : Bool) → created (outcome r) ≡ b
      → Accounts context.candidate_ref (λ e. Ended.receipt e) (settle_created host context r)
  unfolding settle_created
  settle_created-Accounts r h true c = rw c (published-Accounts r c h)
  settle_created-Accounts r h false c =
      rw c (pure-Accounts context.candidate_ref (λ e. Ended.receipt e) _ c)

  after_cleanup-Accounts :
      (r : DeliveryReceipt) (o : Option (Text × Text))
      → Checked r
      → Accounts context.candidate_ref (λ e. Ended.receipt e) (after_cleanup host context r o)
  unfolding after_cleanup context_receipt outcome code_to_outcome
  after_cleanup-Accounts r none h = settle_created-Accounts r h _ refl
  after_cleanup-Accounts r (some (m, p)) h =
      pure-Accounts context.candidate_ref (λ e. Ended.receipt e) _ refl

  body-Accounts :
      (command : List Text) (timeout : ℕ)
      → Accounts context.candidate_ref (λ e. Ended.receipt e) (body host context command timeout)
  unfolding body
  body-Accounts command timeout =
      Accounts-bind context.base_commit context.candidate_ref (λ e. Ended.receipt e) _ _
        (Spec-isolated context command timeout)
        (λ r h.
          Accounts-bind context.base_commit context.candidate_ref (λ e. Ended.receipt e) _ _
            (Spec-cleanup_attempt context.base_commit context)
            (λ o _. after_cleanup-Accounts r o h))

  clean_again-Builds :
      (b : Bool) (s : Sys host) → updates (clean_again host context b s).log ≡ updates s.log
  unfolding clean_again
  clean_again-Builds b s = elim (Bool-cases (not b && needs_cleanup s.attempt)) [
    | inl e ↦ rw e (
        updates-Builds context.base_commit
          ((Spec-cleanup_attempt {host = host} {R = Never} context.base_commit context).at s).0)
    | inr e ↦ rw e
  ]

  finish-Accounts :
      (x : Exit Ended × Sys host) (old : List (Option Text × Option Text))
      → updates x.1.log ≡ claims context.candidate_ref (λ e. Ended.receipt e) x.0 ++ old
      → updates (finish host context x).1.log
        ≡ claims context.candidate_ref (λ a. a) (finish host context x).0 ++ old
  unfolding finish
  finish-Accounts (go e, s) old h = clean_again-Builds e.retained s ∙ h
  finish-Accounts (returned r, s) old h = clean_again-Builds false s ∙ h
  finish-Accounts (raised, s) old h = clean_again-Builds false s ∙ h

  guarded-Accounts :
      (command : List Text) (timeout : ℕ)
      → Accounts context.candidate_ref (λ a. a) (guarded host context command timeout)
  unfolding guarded
  guarded-Accounts command timeout = record {
    at = λ s. finish-Accounts _ (updates s.log) ((body-Accounts command timeout).at s);
  }

  in_parent-Accounts :
      (command : List Text) (timeout : ℕ) (o : Text ⊎ Text)
      → Accounts context.candidate_ref (λ a. a) (in_parent host context command timeout o)
  unfolding in_parent context_receipt outcome code_to_outcome ◌>>◌
  in_parent-Accounts command timeout (inr m) = pure-Accounts context.candidate_ref (λ a. a) _ refl
  in_parent-Accounts command timeout (inl parent) =
      Accounts-bind context.base_commit context.candidate_ref (λ a. a) _ _ (Spec-modify _)
        (λ _ _. guarded-Accounts command timeout)

  attempt-Accounts :
      (command : List Text) (timeout : ℕ)
      → Accounts context.candidate_ref (λ a. a) (attempt host context command timeout)
  unfolding attempt
  attempt-Accounts command timeout =
      Accounts-bind context.base_commit context.candidate_ref (λ a. a) _ _
        (Spec-temporary_parent (Builds-Reads context.base_commit) context)
        (λ o _. in_parent-Accounts command timeout o)

-- In an attempt, whatever the host answers, the refs that Git makes are those that the attempt's
-- receipt claims: the candidate's commit under the candidate ref when the outcome is
-- `candidate_created`, and no ref otherwise, nor when an exception escapes.
pub updates-attempt :
    (host : Host) (context : DeliveryContext) (command : List Text) (timeout : ℕ) (s : Sys host)
    → updates (attempt host context command timeout s).1.log
      ≡ claims context.candidate_ref (λ a. a) (attempt host context command timeout s).0
        ++ updates s.log
updates-attempt host context command timeout s = (attempt-Accounts context command timeout).at s
