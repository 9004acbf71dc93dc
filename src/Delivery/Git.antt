-- ===== src/Delivery/Git.antt =====
-- The Git commands that delivery.py runs.
use satyrn_engine.Prelude.{List, [], ◌∷◌, ◌++◌}
use satyrn_engine.Prelude.Text.{Text, txt}

pub data GitCommand : Type 0 where
  local_env_vars toplevel status worktree_list add_all write_tree : GitCommand
  rev_parse_commit : Text → GitCommand
  tree_of : Text → GitCommand
  check_ref_format : Text → GitCommand
  symbolic_ref : Text → GitCommand
  for_each_ref : Text → GitCommand
  worktree_add : Text → Text → GitCommand
  worktree_remove : Text → GitCommand
  commit_tree : Text → Text → GitCommand
  diff_tree : Text → Text → GitCommand
  update_ref : Text → Text → GitCommand
  checkout_candidate : Text → GitCommand
  ls_tree : Text → GitCommand
  checkout_paths : Text → List Text → GitCommand

unfoldable pub argv : GitCommand → List Text
argv local_env_vars = txt "rev-parse" ∷ txt "--local-env-vars" ∷ []
argv toplevel = txt "rev-parse" ∷ txt "--show-toplevel" ∷ []
argv (rev_parse_commit rev) = txt "rev-parse" ∷ txt "--verify" ∷ (rev ++ txt "^{commit}") ∷ []
argv (tree_of commit) = txt "rev-parse" ∷ (commit ++ txt "^{tree}") ∷ []
argv status =
    txt "--no-optional-locks"
    ∷ txt "status"
    ∷ txt "--porcelain=v1"
    ∷ txt "-z"
    ∷ txt "--untracked-files=all"
    ∷ txt "--ignore-submodules=none"
    ∷ []
argv (check_ref_format ref) = txt "check-ref-format" ∷ ref ∷ []
argv (symbolic_ref ref) = txt "symbolic-ref" ∷ txt "--quiet" ∷ ref ∷ []
argv (for_each_ref ref) = txt "for-each-ref" ∷ txt "--format=%(refname)" ∷ ref ∷ []
argv (worktree_add path commit) = txt "worktree" ∷ txt "add" ∷ txt "--detach" ∷ path ∷ commit ∷ []
argv (worktree_remove path) = txt "worktree" ∷ txt "remove" ∷ txt "--force" ∷ path ∷ []
argv worktree_list = txt "worktree" ∷ txt "list" ∷ txt "--porcelain" ∷ txt "-z" ∷ []
argv add_all =
    txt "add"
    ∷ txt "-A"
    ∷ txt "--"
    ∷ txt "."
    ∷ txt ":(exclude,glob)**/.venv/**"
    ∷ txt ":(exclude,glob)**/.pytest_cache/**"
    ∷ txt ":(exclude,glob)**/__pycache__/**"
    ∷ []
argv write_tree = txt "write-tree" ∷ []
argv (commit_tree tree parent) =
    txt "-c" ∷ txt "commit.gpgSign=false" ∷ txt "commit-tree" ∷ tree ∷ txt "-p" ∷ parent ∷ []
argv (diff_tree base candidate) =
    txt "diff-tree"
    ∷ txt "--no-commit-id"
    ∷ txt "--name-only"
    ∷ txt "-r"
    ∷ txt "-z"
    ∷ txt "--no-renames"
    ∷ txt "--no-ext-diff"
    ∷ base
    ∷ candidate
    ∷ []
argv (update_ref ref commit) = txt "update-ref" ∷ txt "--no-deref" ∷ ref ∷ commit ∷ [] ∷ []
argv (checkout_candidate commit) = txt "checkout" ∷ txt "--quiet" ∷ txt "--detach" ∷ commit ∷ []
argv (ls_tree base) = txt "ls-tree" ∷ txt "-r" ∷ txt "--name-only" ∷ base ∷ []
argv (checkout_paths base paths) = txt "checkout" ∷ base ∷ txt "--" ∷ paths
