-- ===== src/Delivery/Cleanup.antt =====
-- The teardown of the command's process group and the removal of what an attempt has made
-- (`_teardown_process_group` to `_apply_teardown`, `_remove_worktree`, `_cleanup_attempt` of
-- delivery.py).
pub mod Quiet
pub mod Removes
use satyrn_engine.Prelude.{
  ℕ, Bool, true, false, ◌&&◌, not, Option, none, some, List, [], ◌∷◌, ◌++◌, if◌then◌else◌,
}
use satyrn_engine.Prelude.Int.{is_zero}
use satyrn_engine.Prelude.Text.{Text, txt, join}
use satyrn_engine.Delivery.Host.{
  Host, Signalled, delivered, no_group, refused, ChildWait, child_ended, child_left, wait_error,
}
use satyrn_engine.Delivery.Git.{worktree_remove}
use satyrn_engine.Delivery.Receipt.{DeliveryContext}
use satyrn_engine.Delivery.Exec.{
  AttemptState, Registration, absent_confirmed, may_exist, present_confirmed, CleanupGate, opened,
  closed, Exec, pure, gets, call, attempt_of, modify, ◌>>=◌, ◌>>◌,
}
use satyrn_engine.Delivery.Calls.{git, git_message, worktree_registered}

pub data GroupState : Type 0 where
  gone present unknown : GroupState

-- `_signal_process_group`'s reading of `os.killpg`
group_of : Signalled → GroupState
group_of delivered = present
group_of no_group = gone
group_of (refused _) = unknown

details_of : Text → Signalled → List Text
details_of prefix (refused detail) = (prefix ++ detail) ∷ []
details_of prefix _ = []

abbrev is_gone : GroupState → Bool
is_gone gone = true
is_gone _ = false

abbrev is_present : GroupState → Bool
is_present present = true
is_present _ = false

pub record TeardownResult : Type 0 where
  pub group : GroupState
  pub child_reaped : Bool
  pub detail : Option Text

unfoldable pub cleanup_safe : TeardownResult → Bool
cleanup_safe r = is_gone r.group && r.child_reaped

-- `"; ".join(details) or None`
join_details : List Text → Option Text
join_details [] = none
join_details (d ∷ ds) = some (join (txt "; ") (d ∷ ds))

-- `_apply_teardown`
unfoldable pub apply_teardown : TeardownResult → AttemptState → AttemptState
unfolding cleanup_safe
apply_teardown r a = record a {
  cleanup_gate = if cleanup_safe r then opened else closed;
  process_detail = elim r.detail [
    | some d ↦ some d
    | none ↦ if cleanup_safe r then none else some (txt "process teardown could not be confirmed")
  ];
}

-- The probes made while the group is given time to end: the last state and the details met.
await_group : GroupState → List Signalled → GroupState × List Text
unfolding group_of details_of
await_group g [] = (g, [])
await_group g (p ∷ ps) =
    let (later, details) = await_group (group_of p) ps in
    let here = details_of (txt "cannot signal process group with 0: ") p in
    if is_present (group_of p) then (later, here ++ details) else (group_of p, here)

module _ (host : Host) where
  open host use {terminate_group, kill_group, probe_group, probes, wait_child, kill_child, rmtree}

  wait_after_kill : ChildWait → Bool × List Text
  wait_after_kill child_ended = (true, [])
  wait_after_kill child_left = (false, txt "direct child did not exit after SIGKILL" ∷ [])
  wait_after_kill (wait_error d) = (false, (txt "cannot reap direct child: " ++ d) ∷ [])

  wait_again : Exec host (Bool × List Text)
  unfolding wait_after_kill
  wait_again = do w ← call wait_child; pure (wait_after_kill w)

  killed : Signalled → Exec host (Bool × List Text)
  unfolding wait_again
  killed (refused d) = pure (false, (txt "cannot kill direct child: " ++ d) ∷ [])
  killed _ = wait_again

  first_wait : ChildWait → Exec host (Bool × List Text)
  unfolding killed
  first_wait child_ended = pure (true, [])
  first_wait child_left = do k ← call kill_child; killed k
  first_wait (wait_error d) = pure (false, (txt "cannot reap direct child: " ++ d) ∷ [])

  -- `_reap_direct_child`
  reap_direct_child : Exec host (Bool × List Text)
  unfolding first_wait
  reap_direct_child = do w ← call wait_child; first_wait w

  -- The wait for a group that SIGTERM has reached
  settle_group : GroupState → Exec host (GroupState × List Text)
  unfolding await_group
  settle_group present = do ps ← call probes; pure (await_group present ps)
  settle_group g = pure (g, [])

  kill_rest : GroupState → Exec host (List Text)
  unfolding details_of
  kill_rest gone = pure []
  kill_rest _ = do
    k ← call kill_group
    pure (details_of (txt "cannot signal process group with SIGKILL: ") k)

  -- `_teardown_process_group`
  unfoldable pub teardown_process_group : Exec host TeardownResult
  unfolding group_of details_of settle_group kill_rest reap_direct_child join_details
  teardown_process_group = do
    t ← call terminate_group
    (group, awaited) ← settle_group (group_of t)
    killed_details ← kill_rest group
    (child_reaped, reap_details) ← reap_direct_child
    last ← call probe_group
    let details =
        details_of (txt "cannot signal process group with SIGTERM: ") t
        ++ (awaited
            ++ (killed_details
                ++ (reap_details
                    ++ (details_of (txt "cannot signal process group with 0: ") last
                        ++ (if is_present (group_of last)
                            then txt "process group still exists after SIGKILL" ∷ []
                            else [])))))
    pure (record {
      group = group_of last;
      child_reaped = child_reaped;
      detail = join_details details;
    })

  -- `_remove_worktree`: `none` is success.
  removal_message : Bool → Text → Option Bool → Option Text
  removal_message done message (some false) = none
  removal_message false message _ = some message
  removal_message true message none =
      some (txt "cannot confirm that Git removed the worktree registration")
  removal_message true message (some true) =
      some (txt "Git still reports the worktree as registered")

  remove_worktree : DeliveryContext → Text → Exec host (Option Text)
  unfolding removal_message
  remove_worktree context worktree = do
    removed ← git host context.root context.environment (worktree_remove worktree) none
    registered ← worktree_registered host context worktree
    pure (
        removal_message (is_zero removed.returncode)
          (git_message host (txt "git worktree remove failed") removed) registered)

  rmtree_failed : AttemptState → Option Text → Exec host (Option (Text × Text))
  rmtree_failed a (some detail) =
      pure (some (txt "temporary directory removal failed: " ++ detail, a.parent))
  rmtree_failed a none = do modify (λ b. record b { parent_exists = false }); pure none

  remove_parent : AttemptState → Exec host (Option (Text × Text))
  unfolding rmtree_failed
  remove_parent a =
      if a.parent_exists
      then (do failed ← call (rmtree a.parent); rmtree_failed a failed)
      else pure none

  worktree_left : AttemptState → Option Text → Exec host (Option (Text × Text))
  unfolding remove_parent
  worktree_left a (some failure) = pure (some (failure, a.worktree))
  worktree_left a none = do
    modify (λ b. record b { registration = absent_confirmed })
    remove_parent a

  remove_all : DeliveryContext → AttemptState → Registration → Exec host (Option (Text × Text))
  unfolding remove_worktree worktree_left
  remove_all context a absent_confirmed = remove_parent a
  remove_all context a _ = do failure ← remove_worktree context a.worktree; worktree_left a failure

  -- `detail or "process teardown was not confirmed"`
  withheld : Option Text → Text
  withheld none = txt "process teardown was not confirmed"
  withheld (some []) = txt "process teardown was not confirmed"
  withheld (some (c ∷ t)) = c ∷ t

  by_gate : DeliveryContext → AttemptState → CleanupGate → Exec host (Option (Text × Text))
  unfolding remove_all withheld
  by_gate context a closed = pure (some (withheld a.process_detail, a.worktree))
  by_gate context a opened = remove_all context a a.registration

  -- `_cleanup_attempt`: `none` is success, else a message and the path that is kept.
  unfoldable pub cleanup_attempt : DeliveryContext → Exec host (Option (Text × Text))
  unfolding by_gate
  cleanup_attempt context = do a ← attempt_of (λ b. b); by_gate context a a.cleanup_gate
