-- ===== src/Delivery/Exec.antt =====
-- The control flow of delivery.py: state, early returns of a receipt, and an exception that escapes.
use satyrn_engine.Prelude.{Bool, true, false, Option, List}
use satyrn_engine.Prelude.Int.{ℤ}
use satyrn_engine.Prelude.Text.{Text}
use satyrn_engine.Delivery.Host.{Host}
use satyrn_engine.Delivery.Receipt.{DeliveryReceipt}
use satyrn_engine.Delivery.Git.{GitCommand}

-- `_Registration`, `_CleanupGate`, `_AttemptState`
pub data Registration : Type 0 where
  absent_confirmed may_exist present_confirmed : Registration

pub data CleanupGate : Type 0 where
  opened closed : CleanupGate

pub record AttemptState : Type 0 where
  pub parent : Text
  pub worktree : Text
  pub registration : Registration
  pub parent_exists : Bool
  pub cleanup_gate : CleanupGate
  pub process_detail : Option Text

-- The world, the attempt, and the Git commands so far with their exit codes, newest first.
pub record Sys (host : Host) : Type 0 where
  pub world : Host.World host
  pub attempt : AttemptState
  pub log : List (GitCommand × ℤ)

pub data Exit (A : Type 0) : Type 0 where
  go : A → Exit A
  returned : DeliveryReceipt → Exit A
  raised : Exit A

module _ (host : Host) where
  abbrev pub Exec : Type 0 → Type 0
  Exec A = Sys host → Exit A × Sys host

-- What follows an early return or an exception is not run.
abbrev pub proceed :
    {host : Host} {A B : Type 0} → Exit A × Sys host → (A → Exec host B) → Exit B × Sys host
proceed (go a, s) f = f a s
proceed (returned r, s) f = (returned r, s)
proceed (raised, s) f = (raised, s)

module _ {host : Host} {A : Type 0} where
  unfoldable pub pure : A → Exec host A
  pure a s = (go a, s)

  -- `return receipt`
  unfoldable pub leave : DeliveryReceipt → Exec host A
  leave r s = (returned r, s)

  -- An exception that no handler below this point takes.
  unfoldable pub raise : Exec host A
  raise s = (raised, s)

  unfoldable pub gets : (Host.World host → A) → Exec host A
  gets f s = (go (f s.world), s)

  -- A call of the host
  unfoldable pub call : (Host.World host → A × Host.World host) → Exec host A
  call f s = let (a, w) = f s.world in (go a, record s { world = w })

  unfoldable pub attempt_of : (AttemptState → A) → Exec host A
  attempt_of f s = (go (f s.attempt), s)

module _ {host : Host} {A B : Type 0} where
  infixl 5 ◌>>=◌ ◌>>◌
  unfoldable pub ◌>>=◌ : Exec host A → (A → Exec host B) → Exec host B
  ◌>>=◌ m f s = proceed (m s) f

  unfoldable pub ◌>>◌ : Exec host A → Exec host B → Exec host B
  unfolding ◌>>=◌
  m >> n = m >>= λ _. n

module _ {host : Host} where
  -- `if test: return receipt`
  unfoldable pub return_if : Bool → DeliveryReceipt → Exec host (Unit {0})
  unfolding leave pure
  return_if true r = leave r
  return_if false r = pure tt

  -- An assignment to a field of the attempt's state
  unfoldable pub modify : (AttemptState → AttemptState) → Exec host (Unit {0})
  modify f s = (go tt, record s { attempt = f s.attempt })

-- The end of a function: what it returned is its value.
abbrev pub enter : Exit DeliveryReceipt → Exit DeliveryReceipt
enter (go r) = go r
enter (returned r) = go r
enter raised = raised

module _ {host : Host} {A : Type 0} where
  unfoldable pub after_raise : Exit A × Sys host → Exec host (Unit {0}) → Exit A × Sys host
  after_raise (go a, s) handler = (go a, s)
  after_raise (returned r, s) handler = (returned r, s)
  after_raise (raised, s) handler = (raised, (handler s).1)

  -- `except BaseException: handler; raise`
  unfoldable pub on_raise : Exec host A → Exec host (Unit {0}) → Exec host A
  unfolding after_raise
  on_raise m handler s = after_raise (m s) handler

-- A call of a function that returns a receipt
unfoldable pub called : {host : Host} → Exec host DeliveryReceipt → Exec host DeliveryReceipt
called m s = let (e, s') = m s in (enter e, s')
