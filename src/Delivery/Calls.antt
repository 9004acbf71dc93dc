-- ===== src/Delivery/Calls.antt =====
-- `_git` and the functions of delivery.py that ask Git one question.
pub mod Quiet
use satyrn_engine.Prelude.{
  all_of, is_some, ◌||◌, inr, inl, ◌⊎◌, ℕ, Bool, true, false, Option, none, some, List, [], ◌∷◌,
  ◌++◌, if◌then◌else◌, map, keep, any_of, not,
}
use satyrn_engine.Prelude.Text.{
  decode_ascii, Text, Bytes, txt, eq_text, starts_with, remove_prefix, split, strip, contains, utf8,
  byte_lines,
}
use satyrn_engine.Prelude.Int.{ℤ, pos, negsuc, is_zero, is_nat}
use satyrn_engine.Delivery.Exec.{
  raise, Sys, Exit, go, returned, raised, Exec, pure, gets, ◌>>=◌, ◌>>◌,
}
use satyrn_engine.Delivery.Host.{Host, Environment, GitResult, Ran}
use satyrn_engine.Delivery.Git.{
  GitCommand, argv, local_env_vars, worktree_list, symbolic_ref, for_each_ref,
}
use satyrn_engine.Delivery.Receipt.{DeliveryContext}

-- `environment.pop(name, None)`
abbrev without : Text → Environment → Environment
without name = keep (λ entry. not (eq_text entry.0 name))

-- `environment[name] = value`
abbrev pub with_value : Text → Text → Environment → Environment
with_value name value env = without name env ++ (name, value) ∷ []

settle : Ran → GitResult
settle (Ran.completed r) = r
settle (Ran.os_error detail) = record { returncode = pos 127; stdout = []; stderr = detail }

module _ (host : Host) where
  open host use {run_git, fsdecode, decode_replace, realpath, environ}

  -- `_git`
  unfoldable pub git : Text → Environment → GitCommand → Option Bytes → Exec host GitResult
  unfolding settle argv
  git cwd environment command input s =
      let env = without (txt "GIT_COMMITTER_DATE") (without (txt "GIT_AUTHOR_DATE") environment) in
      let line =
        txt "git"
        ∷ txt "-c"
        ∷ txt "core.hooksPath=/dev/null"
        ∷ txt "-c"
        ∷ txt "core.fsmonitor=false"
        ∷ argv command in
      let (ran, w) = run_git cwd env line input s.world in
      let result = settle ran in
      (go result, record s { world = w; log = (command, result.returncode) ∷ s.log })

  -- `_git_message`
  unfoldable pub git_message : Text → GitResult → Text
  git_message prefix r = describe (decode_replace (strip r.stderr))
    where
      describe : Text → Text
      describe [] = prefix
      describe (c ∷ detail) = prefix ++ txt ": " ++ c ∷ detail

  -- `field.startswith(b"worktree ")`, over the fields that NUL separates
  worktree_fields : Bytes → List Text
  worktree_fields out =
      map (λ field. fsdecode (remove_prefix (txt "worktree ") field))
        (keep (λ field. starts_with field (txt "worktree ")) (split 0 out))

  -- `_worktree_paths`
  unfoldable pub worktree_paths : DeliveryContext → Exec host (Option (List Text))
  unfolding worktree_fields
  worktree_paths context = do
    listed ← git context.root context.environment worktree_list none
    pure (if is_zero listed.returncode then some (worktree_fields listed.stdout) else none)

  among : Text → List Text → Host.World host → Bool
  among path paths w = any_of (λ p. eq_text (realpath p w) (realpath path w)) paths

  -- `_worktree_registered`: `none` is not known
  registered_in : Text → Option (List Text) → Exec host (Option Bool)
  unfolding among
  registered_in path none = pure none
  registered_in path (some paths) = gets (λ w. some (among path paths w))

  unfoldable pub worktree_registered : DeliveryContext → Text → Exec host (Option Bool)
  unfolding registered_in
  worktree_registered context worktree = do
    paths ← worktree_paths context
    registered_in worktree paths

  list_ref : Text → Environment → Text → Exec host (Option Bool)
  list_ref root environment ref = do
    listed ← git root environment (for_each_ref ref) none
    pure (
        if is_zero listed.returncode
        then some (contains (utf8 ref) (byte_lines listed.stdout))
        else none)

  -- `_ref_exists`: `none` is not known
  unfoldable pub ref_exists : Text → Environment → Text → Exec host (Option Bool)
  unfolding list_ref
  ref_exists root environment ref = do
    symbolic ← git root environment (symbolic_ref ref) none
    let code = symbolic.returncode
    if is_zero code
        then pure (some true)
        else if is_nat code 1 || is_nat code 128
        then list_ref root environment ref
        else pure none

  -- `_sanitized_environment`: the environment, or the message of a refusal; a line that is not ASCII
  -- raises.
  unfoldable pub sanitized_environment : Text → Exec host (Environment ⊎ Text)
  sanitized_environment repository = do
    let no_git = keep (λ entry. not (starts_with entry.0 (txt "GIT_"))) environ
    result ←
        git repository (with_value (txt "GIT_TERMINAL_PROMPT") (txt "0") no_git) local_env_vars none
    let lines = byte_lines result.stdout
    let names = txt "GIT_NAMESPACE" ∷ lines
    if not (is_zero result.returncode)
        then pure (inr (git_message (txt "cannot discover Git local environment variables") result))
        else if all_of (λ line. is_some (decode_ascii line)) lines
        then pure (
            inl (
              with_value (txt "GIT_TERMINAL_PROMPT") (txt "0")
                (keep (λ entry. not (contains entry.0 names)) environ)))
        else raise
