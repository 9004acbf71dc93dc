-- ===== src/Delivery/Cleanup/Quiet.antt =====
-- The Git commands of `_cleanup_attempt` in delivery.py.
use satyrn_engine.Prelude.{Option, none, some}
use satyrn_engine.Prelude.Text.{Text}
use satyrn_engine.Delivery.Host.{
  Host, Signalled, delivered, no_group, refused, ChildWait, child_ended, child_left, wait_error,
}
use satyrn_engine.Delivery.Receipt.{DeliveryContext, DeliveryReceipt}
use satyrn_engine.Delivery.Exec.{
  AttemptState, Registration, absent_confirmed, CleanupGate, opened, closed,
}
use satyrn_engine.Delivery.Git.{GitCommand}
use satyrn_engine.Delivery.Spec.{Spec, Any, spec_rules}
use satyrn_engine.Delivery.Shape.{Builds, Builds-Reads}
use satyrn_engine.Delivery.Calls.Quiet.{Spec-worktree_registered}
use satyrn_engine.Delivery.Cleanup.{
  GroupState, gone, present, killed, first_wait, reap_direct_child, settle_group, kill_rest,
  teardown_process_group, remove_worktree, rmtree_failed, remove_parent, worktree_left, remove_all,
  by_gate, cleanup_attempt,
}

module _ {host : Host} {P : GitCommand → Type 0} {R : DeliveryReceipt → Type 0} where
  Spec-killed : (k : Signalled) → Spec P R Any (killed host k)
  unfolding killed
  Spec-killed (refused d) = search spec_rules depth 8
  Spec-killed delivered = search spec_rules depth 8
  Spec-killed no_group = search spec_rules depth 8

  Spec-first_wait : (w : ChildWait) → Spec P R Any (first_wait host w)
  unfolding first_wait
  Spec-first_wait child_ended = search spec_rules
  Spec-first_wait child_left = search (spec_rules, Spec-killed)
  Spec-first_wait (wait_error d) = search spec_rules

  Spec-settle_group : (g : GroupState) → Spec P R Any (settle_group host g)
  unfolding settle_group
  Spec-settle_group present = search spec_rules
  Spec-settle_group _ = search spec_rules

  Spec-kill_rest : (g : GroupState) → Spec P R Any (kill_rest host g)
  unfolding kill_rest
  Spec-kill_rest gone = search spec_rules
  Spec-kill_rest _ = search spec_rules

  Spec-reap_direct_child : Spec P R Any (reap_direct_child host)
  unfolding reap_direct_child
  Spec-reap_direct_child = search (spec_rules, Spec-first_wait)

  pub Spec-teardown_process_group : Spec P R Any (teardown_process_group host)
  unfolding teardown_process_group
  Spec-teardown_process_group =
      search (spec_rules, Spec-settle_group, Spec-kill_rest, Spec-reap_direct_child) depth 12

module _ {host : Host} {R : DeliveryReceipt → Type 0} (base : Text)
    (context : DeliveryContext) where
  Spec-rmtree_failed :
      (a : AttemptState) (o : Option Text) → Spec (Builds base) R Any (rmtree_failed host a o)
  unfolding rmtree_failed
  Spec-rmtree_failed a none = search spec_rules
  Spec-rmtree_failed a (some d) = search spec_rules

  Spec-remove_parent : (a : AttemptState) → Spec (Builds base) R Any (remove_parent host a)
  unfolding remove_parent
  Spec-remove_parent a = search (spec_rules, Spec-rmtree_failed)

  Spec-remove_worktree : (t : Text) → Spec (Builds base) R Any (remove_worktree host context t)
  unfolding remove_worktree
  Spec-remove_worktree t = search (spec_rules, Spec-worktree_registered (Builds-Reads base))

  Spec-worktree_left :
      (a : AttemptState) (o : Option Text) → Spec (Builds base) R Any (worktree_left host a o)
  unfolding worktree_left
  Spec-worktree_left a none = search (spec_rules, Spec-remove_parent)
  Spec-worktree_left a (some d) = search spec_rules

  Spec-remove_all :
      (a : AttemptState) (g : Registration) → Spec (Builds base) R Any (remove_all host context a g)
  unfolding remove_all
  Spec-remove_all a absent_confirmed = search (spec_rules, Spec-remove_parent)
  Spec-remove_all a _ = search (spec_rules, Spec-remove_worktree, Spec-worktree_left)

  Spec-by_gate :
      (a : AttemptState) (g : CleanupGate) → Spec (Builds base) R Any (by_gate host context a g)
  unfolding by_gate
  Spec-by_gate a closed = search spec_rules
  Spec-by_gate a opened = search (spec_rules, Spec-remove_all)

  pub Spec-cleanup_attempt : Spec (Builds base) R Any (cleanup_attempt host context)
  unfolding cleanup_attempt
  Spec-cleanup_attempt = search (spec_rules, Spec-by_gate)
