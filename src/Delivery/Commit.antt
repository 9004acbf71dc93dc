-- ===== src/Delivery/Commit.antt =====
-- The second part of `_run_and_commit` of delivery.py: from the worktree to a candidate commit.
pub mod Fresh
use satyrn_engine.Prelude.{
  ℕ, Bool, true, false, ◌&&◌, ◌||◌, not, Option, none, some, List, [], ◌∷◌, ◌++◌, if◌then◌else◌,
  keep, is_empty,
}
use satyrn_engine.Prelude.Int.{ℤ, pos, is_zero, is_nat}
use satyrn_engine.Prelude.Text.{Text, Bytes, txt, eq_text, strip, split, decode_ascii, utf8}
use satyrn_engine.Prelude.Sort.{sorted}
use satyrn_engine.Budget.{
  BudgetUsage, BudgetState, within, turn_exhausted, token_exhausted, deadline_exhausted,
  not_declared, not_enforced,
}
use satyrn_engine.Delivery.Codes.{DeliveryCode}
use satyrn_engine.Delivery.Host.{Host, Environment, GitResult}
use satyrn_engine.Delivery.Git.{
  GitCommand, rev_parse_commit, symbolic_ref, add_all, write_tree, tree_of, commit_tree, diff_tree,
}
use satyrn_engine.Delivery.Receipt.{
  DeliveryContext, DeliveryReceipt, Details, plain, context_receipt,
}
use satyrn_engine.Delivery.Exec.{Exec, pure, leave, raise, attempt_of, return_if, ◌>>=◌, ◌>>◌}
use satyrn_engine.Delivery.Calls.{git, git_message, with_value}
use satyrn_engine.Delivery.Run.{Account, spent, run_command}

pub data HeadDisposition : Type 0 where
  at_base moved attached : HeadDisposition

-- `head_disposition`
unfoldable pub head_disposition : Text → Text → Bool → HeadDisposition
head_disposition head base_commit is_attached =
    if is_attached then attached else if eq_text head base_commit then at_base else moved

-- `_budget_exhaustion_detail`, whose table has the three exhausted states.
unfoldable pub exhaustion_detail : (ℕ → Text) → BudgetState → BudgetUsage → Option Text
exhaustion_detail show turn_exhausted u =
    some (txt "turn limit exhausted after " ++ (show u.turns_used ++ txt " turns"))
exhaustion_detail show token_exhausted u =
    some (txt "token budget exhausted after " ++ (show u.tokens_used ++ txt " output tokens"))
exhaustion_detail show deadline_exhausted u =
    some (txt "deadline exhausted after " ++ (show u.seconds_used ++ txt " seconds"))
exhaustion_detail show _ u = none

abbrev is_attached : HeadDisposition → Bool
is_attached attached = true
is_attached _ = false

abbrev is_moved : HeadDisposition → Bool
is_moved moved = true
is_moved _ = false

-- `tuple(path.decode("utf-8") for path in sorted(raw_paths))`; `none` is a `UnicodeDecodeError`.
decode_paths : (Bytes → Option Text) → List Bytes → Option (List Text)
decode_paths decode [] = some []
decode_paths decode (p ∷ ps) = both (decode p) (decode_paths decode ps)
  where
    both : Option Text → Option (List Text) → Option (List Text)
    both (some t) (some ts) = some (t ∷ ts)
    both (some t) none = none
    both none ts = none

module _ (host : Host) (context : DeliveryContext) (account : Account) where
  open host use {decode_utf8, show_count}

  after : Details
  after = record (spent account) { command_exit = some (pos 0) }

  ascii_or_raise : Option Text → Exec host Text
  ascii_or_raise none = raise
  ascii_or_raise (some t) = pure t

  to_ascii : Bytes → Exec host Text
  unfolding ascii_or_raise
  to_ascii b = ascii_or_raise (decode_ascii b)

  -- What the command did to HEAD; a branch ends the delivery.
  inspect_head : Text → Exec host Bool
  unfolding after to_ascii
  inspect_head worktree = do
    head ← git host worktree context.environment (rev_parse_commit (txt "HEAD")) none
    return_if (not (is_zero head.returncode)) (
        context_receipt context DeliveryCode.git_failed
          (git_message host (txt "cannot inspect isolated worktree HEAD") head) after)
    symbolic ← git host worktree context.environment (symbolic_ref (txt "HEAD")) none
    return_if (not (is_zero symbolic.returncode || is_nat symbolic.returncode 1)) (
        context_receipt context DeliveryCode.git_failed
          (git_message host (txt "cannot inspect isolated worktree HEAD attachment") symbolic)
          after)
    head_commit ← to_ascii (strip head.stdout)
    let disposition = head_disposition head_commit context.base_commit (is_zero symbolic.returncode)
    return_if (is_attached disposition) (
        context_receipt context DeliveryCode.command_changed_head
          (txt "command changed the isolated worktree HEAD") after)
    pure (is_moved disposition)

  -- The tree that the command left, which has to differ from the base's.
  stage : Text → Details → Exec host Bytes
  stage worktree d = do
    added ← git host worktree context.environment add_all none
    return_if (not (is_zero added.returncode)) (
        context_receipt context DeliveryCode.git_failed
          (git_message host (txt "cannot stage candidate tree") added) d)
    tree ← git host worktree context.environment write_tree none
    base_tree ← git host worktree context.environment (tree_of context.base_commit) none
    let failed = if is_zero tree.returncode then base_tree else tree
    return_if (not (is_zero tree.returncode) || not (is_zero base_tree.returncode)) (
        context_receipt context DeliveryCode.git_failed
          (git_message host (txt "cannot compare candidate tree") failed) d)
    return_if (eq_text (strip tree.stdout) (strip base_tree.stdout)) (
        context_receipt context DeliveryCode.no_changes (txt "command produced no changes")
          (record d { changed_paths = some [] }))
    pure (strip tree.stdout)

  commit_environment : Environment
  commit_environment = with_value (txt "GIT_COMMITTER_EMAIL") (txt "satyrn-engine@localhost") (
      with_value (txt "GIT_COMMITTER_NAME") (txt "satyrn-engine") (
        with_value (txt "GIT_AUTHOR_EMAIL") (txt "satyrn-engine@localhost")
          (with_value (txt "GIT_AUTHOR_NAME") (txt "satyrn-engine") context.environment)))

  commit_message : Bytes
  commit_message = utf8 (
      txt "candidate: "
      ++ (context.contract_id ++ (txt "\n\nbase: " ++ (context.base_commit ++ txt "\n"))))

  -- One commit of the tree, with the base as its only parent.
  commit : Text → Bytes → Details → Exec host Text
  unfolding to_ascii commit_environment commit_message
  commit worktree tree d = do
    tree_name ← to_ascii tree
    committed ←
        git host worktree commit_environment (commit_tree tree_name context.base_commit)
          (some commit_message)
    return_if (not (is_zero committed.returncode)) (
        context_receipt context DeliveryCode.git_failed
          (git_message host (txt "cannot create candidate commit") committed) d)
    to_ascii (strip committed.stdout)

  usable_paths : Details → Option (List Text) → Exec host (List Text)
  usable_paths d none = leave (
      context_receipt context DeliveryCode.git_failed
        (txt "candidate contains a path that is not valid UTF-8") d)
  usable_paths d (some paths) = pure paths

  -- The paths that the candidate changes, sorted.
  changed_paths : Text → Text → Details → Exec host (List Text)
  unfolding usable_paths decode_paths
  changed_paths worktree candidate_commit d = do
    changed ←
        git host worktree context.environment (diff_tree context.base_commit candidate_commit) none
    return_if (not (is_zero changed.returncode)) (
        context_receipt context DeliveryCode.git_failed
          (git_message host (txt "cannot read candidate paths") changed) d)
    let raw_paths = keep (λ p. not (is_empty p)) (split 0 changed.stdout)
    usable_paths d (decode_paths decode_utf8 (sorted raw_paths))

  -- `BUDGET_EXHAUSTED` carries no `command_exit`.
  exhausted_receipt : Details → Option Text → Exec host DeliveryReceipt
  exhausted_receipt d none = raise
  exhausted_receipt d (some detail) = pure (
      context_receipt context DeliveryCode.budget_exhausted
        (txt "candidate created; whole-attempt " ++ detail) (record d { command_exit = none }))

  conclude : Details → Option BudgetState → Exec host DeliveryReceipt
  unfolding exhausted_receipt
  conclude d none = pure (context_receipt context DeliveryCode.ok (txt "candidate created") d)
  conclude d (some state) = exhausted_receipt d (exhaustion_detail show_count state account.usage)

  unfoldable pub commit_candidate : Text → Exec host DeliveryReceipt
  unfolding inspect_head stage commit changed_paths conclude after
  commit_candidate worktree = do
    head_moved ← inspect_head worktree
    let d = record after { head_moved = head_moved }
    tree ← stage worktree d
    candidate_commit ← commit worktree tree d
    let e = record d { candidate_commit = some candidate_commit }
    paths ← changed_paths worktree candidate_commit e
    conclude (record e { changed_paths = some paths }) account.exhausted

-- `_run_and_commit`
unfoldable pub run_and_commit :
    (host : Host) → DeliveryContext → List Text → ℕ → Exec host DeliveryReceipt
run_and_commit host context command timeout = do
  account ← run_command host context command timeout
  worktree ← attempt_of (λ a. a.worktree)
  commit_candidate host context account worktree
