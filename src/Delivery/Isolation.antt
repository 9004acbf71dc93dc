-- ===== src/Delivery/Isolation.antt =====
-- `_is_within` and `_temporary_parent` of delivery.py: a directory outside every linked worktree.
pub mod Quiet
use satyrn_engine.Prelude.{
  ◌⊎◌, Bool, true, false, ◌&&◌, ◌||◌, not, Option, none, some, List, [], ◌∷◌, ◌++◌, map, any_of,
  keep, is_empty, if◌then◌else◌, inl, inr,
}
use satyrn_engine.Prelude.Text.{Text, txt, eq_text, split, join, contains}
use satyrn_engine.Delivery.Host.{Host}
use satyrn_engine.Delivery.Receipt.{DeliveryContext}
use satyrn_engine.Delivery.Exec.{Exec, pure, raise, gets, call, ◌>>=◌, ◌>>◌}
use satyrn_engine.Delivery.Calls.{worktree_paths}

-- The components that `os.path.commonpath` compares.
components : Text → List Text
components path = keep (λ c. not (is_empty c) && not (eq_text c (txt "."))) (split 47 path)

common : List Text → List Text → List Text
common [] ys = []
common (x ∷ xs) [] = []
common (x ∷ xs) (y ∷ ys) = let rest = common xs ys in if eq_text x y then x ∷ rest else []

-- `os.path.commonpath` of two absolute paths
unfoldable pub commonpath : Text → Text → Text
unfolding components common
commonpath a b = txt "/" ++ join (txt "/") (common (components a) (components b))

-- `_is_within`, of resolved paths
unfoldable pub is_within : Text → Text → Bool
is_within path parent = eq_text (commonpath path parent) parent

module _ (host : Host) where
  open host use {realpath, is_dir, gettempdir, mkdtemp, rmtree}

  within_any : Text → List Text → Host.World host → Bool
  within_any path worktrees w = any_of (λ t. is_within (realpath path w) (realpath t w)) worktrees

  removed : Option Text → Exec host (Unit {0})
  removed none = pure tt
  removed (some detail) = raise

  -- A fresh directory is kept if it lies outside the worktrees, and removed if it does not.
  settle_parent : List Text → Exec host (Option Text) → Option Text → Exec host (Option Text)
  unfolding within_any removed
  settle_parent worktrees next none = next
  settle_parent worktrees next (some parent) = do
    inside ← gets (within_any parent worktrees)
    if not inside
        then pure (some parent)
        else do failed ← call (rmtree parent); removed failed; next

  try_candidate : List Text → Exec host (Option Text) → Text → Exec host (Option Text)
  unfolding settle_parent
  try_candidate worktrees next resolved = do
    inside ← gets (within_any resolved worktrees)
    if inside then next else do made ← call (mkdtemp resolved); settle_parent worktrees next made

  -- `for candidate in candidates`
  allocate : List Text → List Text → List Text → Exec host (Option Text)
  unfolding try_candidate
  allocate worktrees [] attempted = pure none
  allocate worktrees (candidate ∷ rest) attempted = do
    resolved ← gets (realpath candidate)
    there ← gets (is_dir resolved)
    let known = contains resolved attempted || not there
    let next = allocate worktrees rest (if known then attempted else resolved ∷ attempted)
    if known then next else try_candidate worktrees next resolved

  allocate_in : Option (List Text) → Exec host (Text ⊎ Text)
  unfolding allocate
  allocate_in none = pure (inr (txt "cannot inspect linked worktrees before allocating isolation"))
  allocate_in (some worktrees) = do
    resolved ← gets (λ w. map (λ p. realpath p w) worktrees)
    temporary ← gets gettempdir
    parent ← allocate resolved (temporary ∷ txt "/tmp" ∷ txt "/var/tmp" ∷ []) []
    pure (elim parent [
      | some p ↦ inl p
      | none ↦ inr (txt "cannot allocate an isolated directory outside repository worktrees")
    ])

  -- `_temporary_parent`: a directory, or the message of a refusal
  unfoldable pub temporary_parent : DeliveryContext → Exec host (Text ⊎ Text)
  unfolding allocate_in
  temporary_parent context = do worktrees ← worktree_paths host context; allocate_in worktrees
