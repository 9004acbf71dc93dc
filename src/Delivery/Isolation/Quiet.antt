-- ===== src/Delivery/Isolation/Quiet.antt =====
-- The Git commands of `_temporary_parent` in delivery.py.
use satyrn_engine.Prelude.{Option, none, some, List, [], ◌∷◌}
use satyrn_engine.Prelude.Text.{Text}
use satyrn_engine.Delivery.Host.{Host}
use satyrn_engine.Delivery.Git.{GitCommand}
use satyrn_engine.Delivery.Receipt.{DeliveryContext, DeliveryReceipt}
use satyrn_engine.Delivery.Exec.{Exec}
use satyrn_engine.Delivery.Spec.{Spec, Any, spec_rules}
use satyrn_engine.Delivery.Calls.Quiet.{Reads, Spec-worktree_paths}
use satyrn_engine.Delivery.Isolation.{
  removed, settle_parent, try_candidate, allocate, allocate_in, temporary_parent,
}

module _ {host : Host} {P : GitCommand → Type 0} {R : DeliveryReceipt → Type 0} where
  Spec-removed : (o : Option Text) → Spec P R Any (removed host o)
  unfolding removed
  Spec-removed none = search spec_rules
  Spec-removed (some d) = search spec_rules

  Spec-settle_parent :
      (ws : List Text) (next : Exec host (Option Text)) (o : Option Text)
      → Spec P R Any next
      → Spec P R Any (settle_parent host ws next o)
  unfolding settle_parent
  Spec-settle_parent ws next none h = h
  Spec-settle_parent ws next (some p) h = search (spec_rules, Spec-removed) depth 8

  Spec-try_candidate :
      (ws : List Text) (next : Exec host (Option Text)) (t : Text)
      → Spec P R Any next
      → Spec P R Any (try_candidate host ws next t)
  unfolding try_candidate
  Spec-try_candidate ws next t h = search (spec_rules, Spec-settle_parent) depth 8

  Spec-allocate : (ws cs seen : List Text) → Spec P R Any (allocate host ws cs seen)
  unfolding allocate
  Spec-allocate ws [] seen = search spec_rules
  Spec-allocate ws (c ∷ cs) seen =
      search (spec_rules, Spec-allocate ws cs, Spec-try_candidate) depth 8

  Spec-allocate_in : (o : Option (List Text)) → Spec P R Any (allocate_in host o)
  unfolding allocate_in
  Spec-allocate_in none = search spec_rules
  Spec-allocate_in (some ws) = search (spec_rules, Spec-allocate) depth 8

  pub Spec-temporary_parent :
      Reads P → (context : DeliveryContext) → Spec P R Any (temporary_parent host context)
  unfolding temporary_parent
  Spec-temporary_parent reads context = search (spec_rules, Spec-worktree_paths, Spec-allocate_in)
