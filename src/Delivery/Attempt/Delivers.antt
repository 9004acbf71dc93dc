-- ===== src/Delivery/Attempt/Delivers.antt =====
-- `deliver` of delivery.py: the refs made and the receipt.
use satyrn_engine.Prelude.{
  subst, arith, ℕ, ◌≡◌, refl, sym, ap, ◌∙◌, false, Option, none, some, List, [], ◌++◌, Bool-cases,
  inl, inr,
}
use satyrn_engine.Prelude.Int.{ℤ}
use satyrn_engine.Prelude.Text.{Text}
use satyrn_engine.Delivery.Exec.{
  enter, Sys, Exit, go, returned, raised, Exec, pure, raise, called, ◌>>=◌, proceed,
}
use satyrn_engine.Delivery.Attempt.{
  update_ref, Arguments, budget_of, refuse_check, accepted, of_check, deliver, attempt,
}
use satyrn_engine.Delivery.Shape.{updates_of, updates, claims, claimed}
use satyrn_engine.Exits.{ExitCode, is_ok}
use satyrn_engine.Contract.{Files}
use satyrn_engine.Contract.Fields.{Contract}
use satyrn_engine.Check.{CheckResult, check}
use satyrn_engine.Delivery.Codes.{DeliveryCode, code_to_outcome, check_refusal, created}
use satyrn_engine.Delivery.Host.{Host}
use satyrn_engine.Delivery.Receipt.{DeliveryContext, DeliveryReceipt, outcome, receipt}
use satyrn_engine.Delivery.Spec.{Extends, same, ran, Ends, Log}
use satyrn_engine.Delivery.Git.{GitCommand}
use satyrn_engine.Delivery.Preflight.{Request, preflight, candidate_ref_of}
use satyrn_engine.Delivery.Preflight.Refuses.{preflight-Refuses, Harmless, Refuses, Prepares}
use satyrn_engine.Delivery.Attempt.Publishes.{claimed-Uncreated}
use satyrn_engine.Delivery.Attempt.Claims.{updates-attempt}

updates_of-Harmless :
    (c : GitCommand) (code : ℤ) (rest : List (Option Text × Option Text))
    → Harmless c
    → updates_of c code rest ≡ rest
updates_of-Harmless (update_ref ref commit) code rest h = absurd h
updates_of-Harmless _ code rest h = refl

updates-Harmless : {old new : Log} → Extends Harmless old new → updates new ≡ updates old
unfolding updates
updates-Harmless same = refl
updates-Harmless (ran {c} {code} {new} h e) =
    updates_of-Harmless c code (updates new) h ∙ updates-Harmless e

-- A receipt that refuses claims nothing.
claimed-Refuses : (ref : Text) (r : DeliveryReceipt) → Refuses r → claimed ref r ≡ []
claimed-Refuses ref r h = claimed-Uncreated ref r (rw h.0 refl)

module _ (host : Host) (command : List Text) (timeout : ℕ) (q : Request) where
  -- The attempt, after the end of a preflight.
  proceed-attempt :
      (old : Log) (x : Exit DeliveryContext × Sys host)
      → Extends Harmless old x.1.log
      → Ends Refuses (Prepares q) x.0
      → updates (proceed x (λ context. attempt host context command timeout)).1.log
        ≡ claims
            (candidate_ref_of q.contract_id)
            (λ r. r)
            (proceed x (λ context. attempt host context command timeout)).0
          ++ updates old
  proceed-attempt old (go context, s) e h =
      rw (sym h.0, sym (updates-Harmless e)) (updates-attempt host context command timeout s)
  proceed-attempt old (returned r, s) e h =
      rw (claimed-Refuses (candidate_ref_of q.contract_id) r h) (updates-Harmless e)
  proceed-attempt old (raised, s) e h = updates-Harmless e

claims-enter :
    (ref : Text) (x : Exit DeliveryReceipt) → claims ref (λ r. r) (enter x) ≡ claims ref (λ r. r) x
claims-enter ref (go r) = refl
claims-enter ref (returned r) = refl
claims-enter ref raised = refl

check_refusal-created :
    (c : ExitCode) (d : DeliveryCode)
    → check_refusal c ≡ some d
    → created (code_to_outcome d) ≡ false
unfolding check_refusal code_to_outcome
check_refusal-created c d h = ground arith

module _ (host : Host) (files : Files) (size_refusal : Text → Option Text) (args : Arguments)
    (checked : CheckResult) (contract : Contract) where
  -- The refs made by an action that runs from `s`, and those that its end claims.
  abbrev Matches : Exec host DeliveryReceipt → Sys host → Type 0
  Matches m s =
      updates (m s).1.log ≡ claims (candidate_ref_of contract.id) (λ r. r) (m s).0 ++ updates s.log

  refuse_check-Matches :
      (o : Option DeliveryCode) (s : Sys host)
      → check_refusal checked.code ≡ o
      → Matches (refuse_check host files size_refusal args checked o) s
  unfolding refuse_check raise pure receipt outcome
  refuse_check-Matches none s h = refl
  refuse_check-Matches (some d) s h =
      ap (λ l. l ++ updates s.log)
        (sym (
          claimed-Uncreated (candidate_ref_of contract.id) _
            (check_refusal-created checked.code d h)))

  -- What preflight is asked.
  asked : Request
  asked = record {
    repository = Host.abspath host args.repo;
    contract_id = contract.id;
    base = args.base;
    test_command = contract.test_command;
    budget = budget_of host files size_refusal args checked;
    contract = some contract;
    size_refusal = size_refusal contract.task;
  }

  accepted-Matches :
      (s : Sys host) → Matches (accepted host files size_refusal args checked (some contract)) s
  unfolding accepted ◌>>=◌ asked
  accepted-Matches s =
      let (e, h) = preflight-Refuses host asked s in
      proceed-attempt host args.command args.timeout asked s.log (preflight host asked s) e h

  of_check-Matches :
      (s : Sys host)
      → checked.contract ≡ some contract
      → Matches (of_check host files size_refusal args (some checked)) s
  unfolding of_check
  of_check-Matches s h = elim (Bool-cases (is_ok checked.code)) [
    | inl ok ↦ rw ok (
        subst (λ o. Matches (accepted host files size_refusal args checked o) s) (sym h)
          (accepted-Matches s))
    | inr bad ↦ rw bad (refuse_check-Matches _ s refl)
  ]

-- Where `check` ends with a contract, whatever its verdict and whatever the host answers, the refs
-- that Git makes in a delivery are those that the receipt claims: the candidate's commit under
-- `refs/satyrn/candidates/<contract id>/head` when the outcome is `candidate_created`, and no ref
-- otherwise, nor when an exception escapes.
pub updates-deliver :
    (host : Host) (files : Files) (size_refusal : Text → Option Text) (args : Arguments)
    (checked : CheckResult) (contract : Contract) (s : Sys host)
    → check files args.repo args.contract_path ≡ some checked
    → checked.contract ≡ some contract
    → updates (deliver host files size_refusal args s).1.log
      ≡ claims (candidate_ref_of contract.id) (λ r. r) (deliver host files size_refusal args s).0
        ++ updates s.log
unfolding deliver called
updates-deliver host files size_refusal args checked contract s k h = rw k (
    of_check-Matches host files size_refusal args checked contract s h
    ∙ ap (λ l. l ++ updates s.log) (sym (claims-enter (candidate_ref_of contract.id) _)))
