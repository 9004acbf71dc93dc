-- ===== src/Delivery/Shape.antt =====
-- The predicates that the theorems on deliveries are stated with.
use satyrn_engine.Prelude.{
  ◌∙◌, ◌≡◌, true, Option, none, some, is_some, List, [], ◌∷◌, if◌then◌else◌, refl,
}
use satyrn_engine.Prelude.Int.{ℤ, pos, is_zero}
use satyrn_engine.Prelude.Text.{Text}
use satyrn_engine.Delivery.Codes.{created, DeliveryCode, ValidationOutcome, code_to_outcome}
use satyrn_engine.Delivery.Git.{GitCommand, update_ref, commit_tree}
use satyrn_engine.Delivery.Receipt.{DeliveryReceipt, outcome}
use satyrn_engine.Delivery.Exec.{Exit, go, returned, raised}
use satyrn_engine.Delivery.Spec.{Log, Extends, same, ran}
use satyrn_engine.Delivery.Calls.Quiet.{Reads}

-- A command that makes no ref, and no commit but on the base.
abbrev pub Builds : Text → GitCommand → Type 0
Builds base (update_ref ref commit) = ⊥
Builds base (commit_tree tree parent) = parent ≡ base
Builds base _ = Unit

pub Builds-Reads : (base : Text) → Reads (Builds base)
Builds-Reads base = record { env_vars = tt; worktrees = tt; symbolic = λ _. tt; refs = λ _. tt }

abbrev pub HasCandidate : DeliveryReceipt → Type 0
HasCandidate r = (is_some r.candidate_commit ≡ true) × (is_some r.changed_paths ≡ true)

-- Nothing was validated, and nothing is kept on disk.
abbrev pub Unvalidated : DeliveryReceipt → Type 0
Unvalidated r = (r.validation ≡ ValidationOutcome.not_applicable) × (r.worktree_path ≡ none)

-- A receipt before validation: `ok` and `budget_exhausted` are the codes with a candidate.
abbrev pub FreshAt : DeliveryCode → DeliveryReceipt → Type 0
FreshAt DeliveryCode.ok r = HasCandidate r × Unvalidated r × (r.command_exit ≡ some (pos 0))
FreshAt DeliveryCode.budget_exhausted r = HasCandidate r × Unvalidated r × (r.command_exit ≡ none)
FreshAt DeliveryCode.tests_failed r = ⊥
FreshAt DeliveryCode.cleanup_failed r = ⊥
FreshAt _ r = Unvalidated r

abbrev pub Fresh : DeliveryReceipt → Type 0
Fresh r = FreshAt r.code r

-- Refused or discarded before there was a candidate to validate.
abbrev pub RefusedAt : DeliveryCode → DeliveryReceipt → Type 0
RefusedAt DeliveryCode.ok r = ⊥
RefusedAt DeliveryCode.tests_failed r = ⊥
RefusedAt DeliveryCode.budget_exhausted r = ⊥
RefusedAt DeliveryCode.cleanup_failed r = ⊥
RefusedAt _ r = Unvalidated r

abbrev pub Refused : DeliveryReceipt → Type 0
Refused r = RefusedAt r.code r

-- A verdict that leaves the code alone.
abbrev pub LeavesCode : ValidationOutcome → Type 0
LeavesCode ValidationOutcome.failed = ⊥
LeavesCode ValidationOutcome.not_applicable = ⊥
LeavesCode _ = Unit

abbrev pub WasTried : ValidationOutcome → Type 0
WasTried ValidationOutcome.not_applicable = ⊥
WasTried _ = Unit

-- A receipt after validation: a failing suite turns `ok` into `tests_failed`, and leaves
-- `budget_exhausted`.
abbrev pub CheckedAt : DeliveryCode → DeliveryReceipt → Type 0
CheckedAt DeliveryCode.ok r = HasCandidate r × (r.worktree_path ≡ none) × LeavesCode r.validation
CheckedAt DeliveryCode.tests_failed r =
    HasCandidate r × (r.worktree_path ≡ none) × (r.validation ≡ ValidationOutcome.failed)
CheckedAt DeliveryCode.budget_exhausted r =
    HasCandidate r × (r.worktree_path ≡ none) × WasTried r.validation
CheckedAt DeliveryCode.cleanup_failed r = ⊥
CheckedAt _ r = Unvalidated r

abbrev pub Checked : DeliveryReceipt → Type 0
Checked r = CheckedAt r.code r

-- The refs that Git was told to make, and made, newest first.
abbrev pub updates_of :
    GitCommand → ℤ → List (Option Text × Option Text) → List (Option Text × Option Text)
updates_of (update_ref ref commit) code rest =
    if is_zero code then (some ref, some commit) ∷ rest else rest
updates_of _ code rest = rest

unfoldable pub updates : Log → List (Option Text × Option Text)
updates [] = []
updates ((c, code) ∷ log) = updates_of c code (updates log)

-- The refs that a receipt says were made: its candidate, under `ref`.
unfoldable pub claimed : Text → DeliveryReceipt → List (Option Text × Option Text)
unfolding outcome code_to_outcome
claimed ref r = if created (outcome r) then (some ref, r.candidate_commit) ∷ [] else []

-- The same of the end of an action, which holds a receipt; an exception holds none.
abbrev pub claims :
    {A : Type 0} → Text → (A → DeliveryReceipt) → Exit A → List (Option Text × Option Text)
claims ref f (go a) = claimed ref (f a)
claims ref f (returned r) = claimed ref r
claims ref f raised = []

updates_of-Builds :
    (base : Text) (c : GitCommand) (code : ℤ) (rest : List (Option Text × Option Text))
    → Builds base c
    → updates_of c code rest ≡ rest
updates_of-Builds base (update_ref ref commit) code rest h = absurd h
updates_of-Builds base _ code rest h = refl

-- Building makes no ref.
pub updates-Builds :
    (base : Text) {old new : Log} → Extends (Builds base) old new → updates new ≡ updates old
unfolding updates
updates-Builds base same = refl
updates-Builds base (ran {c} {code} {new} h e) =
    updates_of-Builds base c code (updates new) h ∙ updates-Builds base e
