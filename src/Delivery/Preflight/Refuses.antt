-- ===== src/Delivery/Preflight/Refuses.antt =====
-- The Git commands and the receipts of `_preflight` in delivery.py.
use satyrn_engine.Prelude.{◌≡◌, Bool, Option, none, some, inl, inr, ◌⊎◌}
use satyrn_engine.Prelude.Text.{Text, Bytes}
use satyrn_engine.Delivery.Preflight.{
  candidate_ref_of, DeliveryContext, decode_ascii, Request, refusal, usable_environment,
  ascii_or_raise, ascii, find_root, find_base, require_clean, require_ref_format, settle_ref,
  preflight,
}
use satyrn_engine.Delivery.Spec.{Ends, Extends, Spec, Any, spec_rules}
use satyrn_engine.Delivery.Calls.Quiet.{Reads, Spec-ref_exists, Spec-sanitized_environment}
use satyrn_engine.Delivery.Git.{
  update_ref, commit_tree, worktree_add, worktree_remove, add_all, write_tree, checkout_candidate,
  checkout_paths, GitCommand,
}
use satyrn_engine.Delivery.Codes.{DeliveryOutcome, code_to_outcome}
use satyrn_engine.Delivery.Receipt.{outcome, DeliveryReceipt, receipt}
use satyrn_engine.Delivery.Exec.{Sys}
use satyrn_engine.Delivery.Host.{Host, Environment}
use satyrn_engine.Delivery.Shape.{Unvalidated}

-- A command that makes no commit, no ref and no worktree, and changes no tree.
abbrev pub Harmless : GitCommand → Type 0
Harmless (update_ref ref commit) = ⊥
Harmless (commit_tree tree parent) = ⊥
Harmless (worktree_add path commit) = ⊥
Harmless (worktree_remove path) = ⊥
Harmless add_all = ⊥
Harmless write_tree = ⊥
Harmless (checkout_candidate commit) = ⊥
Harmless (checkout_paths base paths) = ⊥
Harmless _ = Unit

Harmless-Reads : Reads Harmless
Harmless-Reads = record { env_vars = tt; worktrees = tt; symbolic = λ _. tt; refs = λ _. tt }

-- A refusal: the outcome is `refused`, nothing was validated, and nothing is kept.
abbrev pub Refuses : DeliveryReceipt → Type 0
Refuses r = (outcome r ≡ DeliveryOutcome.refused) × Unvalidated r

-- A context that preflight hands on: its ref is the one of the contract's id.
abbrev pub Prepares : Request → DeliveryContext → Type 0
Prepares q c = (c.candidate_ref ≡ candidate_ref_of q.contract_id) × (c.contract_id ≡ q.contract_id)

module _ {host : Host} (q : Request) where
  Spec-usable_environment :
      (e : Environment ⊎ Text) → Spec Harmless Refuses Any (usable_environment host q e)
  unfolding usable_environment refusal receipt outcome code_to_outcome
  Spec-usable_environment (inl env) = search spec_rules
  Spec-usable_environment (inr message) = search spec_rules

  Spec-ascii_or_raise : (o : Option Text) → Spec Harmless Refuses Any (ascii_or_raise host q o)
  unfolding ascii_or_raise
  Spec-ascii_or_raise none = search spec_rules
  Spec-ascii_or_raise (some t) = search spec_rules

  Spec-ascii : (b : Bytes) → Spec Harmless Refuses Any (ascii host q b)
  unfolding ascii
  Spec-ascii b = Spec-ascii_or_raise (decode_ascii b)

  Spec-find_root : (env : Environment) → Spec Harmless Refuses Any (find_root host q env)
  unfolding find_root refusal receipt outcome code_to_outcome
  Spec-find_root env = search spec_rules depth 12

  Spec-find_base :
      (root : Text) (env : Environment) → Spec Harmless Refuses Any (find_base host q root env)
  unfolding find_base refusal receipt outcome code_to_outcome
  Spec-find_base root env = search (spec_rules, Spec-ascii) depth 12

  Spec-require_clean :
      (root : Text) (env : Environment) (b : Text)
      → Spec Harmless Refuses Any (require_clean host q root env b)
  unfolding require_clean refusal receipt outcome code_to_outcome
  Spec-require_clean root env b = search spec_rules depth 12

  Spec-require_ref_format :
      (root : Text) (env : Environment) (b : Text)
      → Spec Harmless Refuses Any (require_ref_format host q root env b)
  unfolding require_ref_format refusal receipt outcome code_to_outcome
  Spec-require_ref_format root env b = search spec_rules depth 12

  Spec-settle_ref :
      (b : Text) (existing : Option Bool) → Spec Harmless Refuses Any (settle_ref host q b existing)
  unfolding settle_ref refusal receipt outcome code_to_outcome
  Spec-settle_ref b none = search spec_rules
  Spec-settle_ref b (some existing) = search spec_rules

  Spec-preflight : Spec Harmless Refuses (Prepares q) (preflight host q)
  unfolding preflight
  Spec-preflight =
      search
        (
          spec_rules,
          Spec-usable_environment,
          Spec-find_root,
          Spec-find_base,
          Spec-require_clean,
          Spec-require_ref_format,
          Spec-settle_ref,
          Spec-ref_exists Harmless-Reads,
          Spec-sanitized_environment Harmless-Reads,
        )
        depth 20

-- Preflight, whatever the host answers, runs only Git commands that make no commit, ref or worktree
-- and change no tree; a receipt that it returns early has the outcome `refused`, no verdict and no
-- path kept, and a context that it hands on has the contract's id and the ref of that id.
pub preflight-Refuses :
    (host : Host) (q : Request) (s : Sys host)
    → Extends Harmless s.log (preflight host q s).1.log
      × Ends Refuses (Prepares q) (preflight host q s).0
preflight-Refuses host q s = (Spec-preflight q).at s
