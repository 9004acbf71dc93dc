-- ===== src/Delivery/Calls/Quiet.antt =====
-- The log after the questions to Git in delivery.py.
use satyrn_engine.Prelude.{◌≡◌, refl, Option, none, some, List}
use satyrn_engine.Prelude.Text.{Text}
use satyrn_engine.Delivery.Calls.{
  Sys, git, worktree_paths, registered_in, worktree_registered, list_ref, ref_exists,
  sanitized_environment,
}
use satyrn_engine.Delivery.Exec.{gets, pure, ◌>>=◌}
use satyrn_engine.Delivery.Host.{Host, Environment}
use satyrn_engine.Delivery.Git.{
  GitCommand, local_env_vars, worktree_list, symbolic_ref, for_each_ref,
}
use satyrn_engine.Delivery.Receipt.{DeliveryContext, DeliveryReceipt}
use satyrn_engine.Delivery.Spec.{Spec, Any, spec_rules, Spec-pure, Spec-gets}

-- `P` allows the commands that only read.
pub record Reads (P : GitCommand → Type 0) : Type 0 where
  pub env_vars : P local_env_vars
  pub worktrees : P worktree_list
  pub symbolic : (ref : Text) → P (symbolic_ref ref)
  pub refs : (ref : Text) → P (for_each_ref ref)

module _ {host : Host} {P : GitCommand → Type 0} {R : DeliveryReceipt → Type 0}
    (reads : Reads P) where
  pub Spec-worktree_paths : (context : DeliveryContext) → Spec P R Any (worktree_paths host context)
  unfolding worktree_paths
  Spec-worktree_paths context = search (spec_rules, reads.worktrees)

  Spec-registered_in :
      (path : Text) (o : Option (List Text)) → Spec P R Any (registered_in host path o)
  unfolding registered_in
  Spec-registered_in path none = Spec-pure _ tt
  Spec-registered_in path (some paths) = Spec-gets _

  pub Spec-worktree_registered :
      (context : DeliveryContext) (worktree : Text)
      → Spec P R Any (worktree_registered host context worktree)
  unfolding worktree_registered
  Spec-worktree_registered context worktree =
      search (spec_rules, Spec-worktree_paths, Spec-registered_in)

  Spec-list_ref :
      (root : Text) (env : Environment) (ref : Text) → Spec P R Any (list_ref host root env ref)
  unfolding list_ref
  Spec-list_ref root env ref = search (spec_rules, reads.refs)

  pub Spec-ref_exists :
      (root : Text) (env : Environment) (ref : Text) → Spec P R Any (ref_exists host root env ref)
  unfolding ref_exists
  Spec-ref_exists root env ref = search (spec_rules, reads.symbolic, Spec-list_ref)

  pub Spec-sanitized_environment :
      (repository : Text) → Spec P R Any (sanitized_environment host repository)
  unfolding sanitized_environment
  Spec-sanitized_environment repository = search (spec_rules, reads.env_vars)

module _ {host : Host} where
  attempt-registered_in :
      (path : Text) (o : Option (List Text)) (s : Sys host)
      → (registered_in host path o s).1.attempt ≡ s.attempt
  unfolding registered_in gets pure
  attempt-registered_in path none s = refl
  attempt-registered_in path (some ps) s = refl

  -- A question to Git always has an answer, and leaves the attempt as it is.
  pub attempt-worktree_registered :
      (context : DeliveryContext) (path : Text) (s : Sys host)
      → (worktree_registered host context path s).1.attempt ≡ s.attempt
  unfolding worktree_registered worktree_paths git ◌>>=◌ pure
  attempt-worktree_registered context path s = attempt-registered_in path _ _
