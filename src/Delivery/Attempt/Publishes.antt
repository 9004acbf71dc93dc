-- ===== src/Delivery/Attempt/Publishes.antt =====
-- `_publish` of delivery.py: the refs made and the receipt.
use satyrn_engine.Prelude.{
  sym, ◌≡◌, refl, ap, Bool, true, false, Option, none, some, [], ◌∷◌, ◌++◌, ◌∙◌,
}
use satyrn_engine.Prelude.Int.{is_zero}
use satyrn_engine.Prelude.Text.{Text}
use satyrn_engine.Delivery.Shape.{claimed, Builds, Builds-Reads, updates, updates-Builds, claims}
use satyrn_engine.Delivery.Codes.{created, code_to_outcome}
use satyrn_engine.Delivery.Host.{Host, GitResult}
use satyrn_engine.Delivery.Git.{update_ref}
use satyrn_engine.Delivery.Receipt.{DeliveryContext, DeliveryReceipt, outcome, context_receipt}
use satyrn_engine.Delivery.Exec.{Sys, Exit, go, returned, raised, Exec, pure, ◌>>=◌, proceed}
use satyrn_engine.Delivery.Calls.{git}
use satyrn_engine.Delivery.Spec.{Spec, Extends, Ends, spec_rules, Log}
use satyrn_engine.Delivery.Calls.Quiet.{Spec-ref_exists}
use satyrn_engine.Delivery.Attempt.{lost_race, after_update, publish_commit}

abbrev pub Never : DeliveryReceipt → Type 0
Never r = ⊥

-- A receipt without a candidate of its own.
abbrev pub Uncreated : DeliveryReceipt → Type 0
Uncreated r = created (outcome r) ≡ false

lost_race-Uncreated :
    (context : DeliveryContext) (r : DeliveryReceipt) (m : Text) (o : Option Bool)
    → Uncreated (lost_race context r m o)
unfolding lost_race context_receipt outcome code_to_outcome
lost_race-Uncreated context r m (some true) = refl
lost_race-Uncreated context r m (some false) = refl
lost_race-Uncreated context r m none = refl

module _ {host : Host} (context : DeliveryContext) where
  Spec-lost :
      (r : DeliveryReceipt) (p : GitResult)
      → is_zero p.returncode ≡ false
      → Spec (Builds context.base_commit) Never Uncreated (after_update host context r p)
  unfolding after_update
  Spec-lost r p e =
      rw e (
        search
          (spec_rules, lost_race-Uncreated, Spec-ref_exists (Builds-Reads context.base_commit)))

-- What an action adds to the made refs is what its end claims.
pub record Accounts {host : Host} {A : Type 0} (ref : Text) (f : A → DeliveryReceipt)
    (m : Exec host A) : Type 0 where
  pub at : (s : Sys host) → updates (m s).1.log ≡ claims ref f (m s).0 ++ updates s.log

pub claimed-Uncreated : (ref : Text) (r : DeliveryReceipt) → Uncreated r → claimed ref r ≡ []
unfolding claimed
claimed-Uncreated ref r h = rw h

-- An end that is known to claim nothing.
claims-Uncreated :
    {A : Type 0} (ref : Text) (f : A → DeliveryReceipt) (x : Exit A)
    → Ends Never (λ a. Uncreated (f a)) x
    → claims ref f x ≡ []
claims-Uncreated ref f (go a) h = claimed-Uncreated ref (f a) h
claims-Uncreated ref f (returned r) h = absurd h
claims-Uncreated ref f raised h = refl

module _ {host : Host} {A : Type 0} (base ref : Text) (f : A → DeliveryReceipt) where
  -- An action that makes no ref and claims none.
  pub Accounts-Spec :
      (m : Exec host A) → Spec (Builds base) Never (λ a. Uncreated (f a)) m → Accounts ref f m
  Accounts-Spec m k = record {
    at = λ s.
        let (e, h) = k.at s in
        updates-Builds base e
        ∙ ap (λ l. l ++ updates s.log) (sym (claims-Uncreated ref f (m s).0 h));
  }

  module _ {B : Type 0} {Q : B → Type 0} where
    proceed-Accounts :
        (old : Log) (x : Exit B × Sys host) (g : B → Exec host A)
        → Extends (Builds base) old x.1.log
        → Ends Never Q x.0
        → ((b : B) → Q b → Accounts ref f (g b))
        → updates (proceed x g).1.log ≡ claims ref f (proceed x g).0 ++ updates old
    proceed-Accounts old (go b, s) g e h k =
        (k b h).at s ∙ ap (λ l. claims ref f (g b s).0 ++ l) (updates-Builds base e)
    proceed-Accounts old (returned r, s) g e h k = absurd h
    proceed-Accounts old (raised, s) g e h k = updates-Builds base e

    pub Accounts-bind :
        (m : Exec host B) (g : B → Exec host A)
        → Spec (Builds base) Never Q m
        → ((b : B) → Q b → Accounts ref f (g b))
        → Accounts ref f (m >>= g)
    unfolding ◌>>=◌
    Accounts-bind m g km kg = record {
      at = λ s. let (e, h) = km.at s in proceed-Accounts s.log (m s) g e h kg;
    }

module _ {host : Host} (context : DeliveryContext) where
  kept :
      (r : DeliveryReceipt) (p : GitResult) (s : Sys host)
      → is_zero p.returncode ≡ true
      → after_update host context r p s ≡ (go r, s)
  unfolding after_update pure
  kept r p s e = rw e

  -- The log of a state in which `git update-ref` has just ended with `p`.
  abbrev Updated : Sys host → GitResult → Text → Log → Type 0
  Updated s p commit old = s.log ≡ (update_ref context.candidate_ref commit, p.returncode) ∷ old

  made :
      (s : Sys host) (p : GitResult) (commit : Text) (old : Log)
      → Updated s p commit old
      → is_zero p.returncode ≡ true
      → updates s.log ≡ (some context.candidate_ref, some commit) ∷ updates old
  unfolding updates
  made s p commit old l e = rw (l, e)

  unmade :
      (s : Sys host) (p : GitResult) (commit : Text) (old : Log)
      → Updated s p commit old
      → is_zero p.returncode ≡ false
      → updates s.log ≡ updates old
  unfolding updates
  unmade s p commit old l e = rw (l, e)

  after_update-Accounts :
      (r : DeliveryReceipt) (commit : Text) (p : GitResult) (s : Sys host) (old : Log)
      → created (outcome r) ≡ true
      → r.candidate_commit ≡ some commit
      → Updated s p commit old
      → (b : Bool) → is_zero p.returncode ≡ b
      → updates (after_update host context r p s).1.log
        ≡ claims context.candidate_ref (λ a. a) (after_update host context r p s).0 ++ updates old
  unfolding claimed
  after_update-Accounts r commit p s old c e l true z =
      rw (kept r p s z, c, e) (made s p commit old l z)
  after_update-Accounts r commit p s old c e l false z =
      let (x, h) = (Spec-lost context r p z).at s in
      updates-Builds context.base_commit x
      ∙ unmade s p commit old l z
      ∙ ap (λ m. m ++ updates old)
          (sym
            (claims-Uncreated context.candidate_ref (λ a. a) (after_update host context r p s).0 h))

  -- The state after `git update-ref`, by how the call ended.
  abbrev Made : Text → Log → Exit GitResult × Sys host → Type 0
  Made commit old (go p, s) = Updated s p commit old
  Made commit old (returned r, s) = ⊥
  Made commit old (raised, s) = ⊥

  git-Made :
      (commit : Text) (s : Sys host)
      → Made commit s.log (
          git host context.root context.environment
            (update_ref context.candidate_ref commit)
            none
            s)
  unfolding git
  git-Made commit s = refl

  proceed-Made :
      (r : DeliveryReceipt) (commit : Text) (old : Log) (x : Exit GitResult × Sys host)
      → created (outcome r) ≡ true
      → r.candidate_commit ≡ some commit
      → Made commit old x
      → updates (proceed x (after_update host context r)).1.log
        ≡ claims context.candidate_ref (λ a. a) (proceed x (after_update host context r)).0
          ++ updates old
  proceed-Made r commit old (go p, s) c e h = after_update-Accounts r commit p s old c e h _ refl
  proceed-Made r commit old (returned p, s) c e h = absurd h
  proceed-Made r commit old (raised, s) c e h = absurd h

  pub publish_commit-Accounts :
      (r : DeliveryReceipt) (commit : Text)
      → created (outcome r) ≡ true
      → r.candidate_commit ≡ some commit
      → Accounts context.candidate_ref (λ a. a) (publish_commit host context r commit)
  unfolding publish_commit ◌>>=◌
  publish_commit-Accounts r commit c e = record {
    at = λ s. proceed-Made r commit s.log _ c e (git-Made commit s);
  }
