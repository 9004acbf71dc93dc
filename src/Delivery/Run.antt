-- ===== src/Delivery/Run.antt =====
-- The first part of `_run_and_commit` of delivery.py: the command, its teardown and its account.
-- The copy of the command's output to stderr is not modelled.
pub mod Fresh
use satyrn_engine.Prelude.{
  ◌==◌, ℕ, Bool, true, false, ◌&&◌, ◌||◌, not, Option, none, some, is_some, List, [], ◌∷◌, ◌++◌,
  if◌then◌else◌,
}
use satyrn_engine.Prelude.Int.{ℤ, pos, is_zero, is_nat}
use satyrn_engine.Prelude.Text.{Text, Bytes, txt}
use satyrn_engine.Prelude.Value.{Decoded}
use satyrn_engine.Budget.{Budget, BudgetUsage, BudgetState, within, not_declared, declared}
use satyrn_engine.Budget.Counter.{TurnCounter, feed, fresh}
use satyrn_engine.Delivery.Codes.{DeliveryCode}
use satyrn_engine.Delivery.Host.{Host, Waited, ended, expired, interrupted}
use satyrn_engine.Delivery.Receipt.{
  DeliveryContext, DeliveryReceipt, Details, plain, context_receipt,
}
use satyrn_engine.Delivery.Exec.{
  AttemptState, CleanupGate, opened, closed, Exec, pure, leave, raise, gets, call, attempt_of,
  modify, return_if, on_raise, ◌>>=◌, ◌>>◌,
}
use satyrn_engine.Delivery.Stream.{StreamOutcome, stream_implementer}
use satyrn_engine.Delivery.Cleanup.{teardown_process_group, apply_teardown}

-- The lines of a file opened in binary mode, each with its line feed.
cons_line : ℕ → List Bytes → List Bytes
cons_line c [] = (c ∷ []) ∷ []
cons_line c (l ∷ ls) = (c ∷ l) ∷ ls

unfoldable pub raw_lines : Bytes → List Bytes
unfolding cons_line
raw_lines [] = []
raw_lines (c ∷ b) = let rest = raw_lines b in if c == 10 then (c ∷ []) ∷ rest else cons_line c rest

-- `text.rstrip("\n")`
drop_newlines : ℕ → Text → Text
drop_newlines c [] = if c == 10 then [] else c ∷ []
drop_newlines c (d ∷ t) = c ∷ d ∷ t

unfoldable pub rstrip_newlines : Text → Text
unfolding drop_newlines
rstrip_newlines [] = []
rstrip_newlines (c ∷ t) = drop_newlines c (rstrip_newlines t)

module _ (decode_replace : Bytes → Text) (json_loads : Text → Decoded) where
  feed_all : List Bytes → TurnCounter → Option TurnCounter
  feed_all [] counter = some counter
  feed_all (raw ∷ rest) counter =
      elim (feed json_loads (rstrip_newlines (decode_replace raw)) counter) [
        | none ↦ none
        | some fed ↦ feed_all rest fed
      ]

  -- `count_spool`; `none` is an exception that escapes `feed`.
  unfoldable pub count_spool : Bytes → Option TurnCounter
  unfolding raw_lines feed_all fresh
  count_spool spool = feed_all (raw_lines spool) fresh

-- What is known once the command is over.
pub record Account : Type 0 where
  pub exhausted : Option BudgetState
  pub usage : BudgetUsage
  pub counter : TurnCounter

-- What watching the command comes to: the stream's outcome, or the wait's with no counter.
pub record Watched : Type 0 where
  pub exhausted : Option BudgetState
  pub timed_out : Bool
  pub counter : Option TurnCounter
  pub seconds_used : ℕ

-- `returncode == ExitCode.ATTEMPT_OK_FORWARD_LOST`
unfoldable pub forward_lost : Option ℤ → Bool
forward_lost none = false
forward_lost (some code) = is_nat code 15

-- `effective_returncode != 0`
unfoldable pub failed : Option ℤ → Bool
unfolding forward_lost
failed none = true
failed (some code) = not (is_nat code 15) && not (is_zero code)

unfoldable pub usage_for : Budget → Option BudgetState → TurnCounter → ℕ → Bool → BudgetUsage
usage_for budget exhausted counter seconds lost = record {
  state = elim exhausted [
    | some state ↦ state
    | none ↦ if declared budget then within else not_declared
  ];
  turns_used = counter.turns;
  seconds_used = seconds;
  tokens_used = counter.tokens_out;
  live_counter_lost = lost;
}

-- The fields that every receipt after the command carries.
unfoldable pub spent : Account → Details
spent a = record plain { budget_usage = some a.usage; counts = a.counter }

module _ (host : Host) (context : DeliveryContext) where
  open host use {
    open_spool, popen, wait, spool, returncode, show_int, show_seconds, decode_replace, json_loads,
  }

  fail_spool : Option Text → Exec host (Unit {0})
  fail_spool none = pure tt
  fail_spool (some detail) = leave (
      context_receipt context DeliveryCode.command_unavailable
        (txt "cannot create command output spool: " ++ detail) plain)

  fail_popen : Option Text → Exec host (Unit {0})
  fail_popen none = pure tt
  fail_popen (some detail) = do
    modify (λ a. record a { cleanup_gate = opened; process_detail = none })
    leave (
        context_receipt context DeliveryCode.command_unavailable
          (txt "cannot start command: " ++ detail) plain)

  plain_wait : Waited → Exec host Watched
  plain_wait ended =
      pure (record { exhausted = none; timed_out = false; counter = none; seconds_used = 0 })
  plain_wait expired =
      pure (record { exhausted = none; timed_out = true; counter = none; seconds_used = 0 })
  plain_wait interrupted = raise

  watch_stream : ℕ → Exec host Watched
  watch_stream timeout = do
    stream ← stream_implementer host context.budget timeout
    pure (record {
      exhausted = stream.exhausted;
      timed_out = stream.command_timed_out;
      counter = some stream.counter;
      seconds_used = stream.seconds_used;
    })

  watch : ℕ → Exec host Watched
  unfolding watch_stream plain_wait
  watch timeout =
      if declared context.budget
      then watch_stream timeout
      else (do w ← call (wait timeout); plain_wait w)

  tear_down : Exec host (Unit {0})
  tear_down = do teardown ← teardown_process_group host; modify (apply_teardown teardown)

  open_gate : Exec host (Unit {0})
  open_gate = modify (λ a. record a { cleanup_gate = opened; process_detail = none })

  counted : Option TurnCounter → Exec host TurnCounter
  counted none = raise
  counted (some counter) = pure counter

  counter_of : Option TurnCounter → Exec host TurnCounter
  unfolding counted
  counter_of (some counter) = pure counter
  counter_of none = do b ← gets spool; counted (count_spool decode_replace json_loads b)

  start : List Text → Exec host (Unit {0})
  unfolding fail_spool fail_popen
  start command = do
    a ← attempt_of (λ b. b)
    spool_error ← call (open_spool a.parent)
    fail_spool spool_error
    modify (λ b. record b {
      cleanup_gate = closed;
      process_detail = some (txt "command creation did not complete");
    })
    start_error ← call (popen command a.worktree context.environment (declared context.budget))
    fail_popen start_error

  -- A command that ran out of time or failed is discarded; one that spent its budget is not.
  settle_command : ℕ → Watched → Option ℤ → Account → Exec host Account
  settle_command timeout watched code account = do
    return_if watched.timed_out (
        context_receipt context DeliveryCode.command_timeout
          (txt "command exceeded timeout of " ++ (show_seconds timeout ++ txt " seconds"))
          (spent account))
    return_if (not (is_some watched.exhausted) && failed code) (
        context_receipt context DeliveryCode.command_failed
          (txt "command exited with status " ++ show_int code)
          (record (spent account) { command_exit = code }))
    pure account

  -- From the command's start to its account.
  unfoldable pub run_command : List Text → ℕ → Exec host Account
  unfolding start watch tear_down open_gate counter_of settle_command
  run_command command timeout = do
    start command
    watched ← on_raise (watch timeout) tear_down
    if watched.timed_out || is_some watched.exhausted then tear_down else open_gate
    counter ← counter_of watched.counter
    code ← gets returncode
    settle_command timeout watched code (record {
      exhausted = watched.exhausted;
      usage =
          usage_for context.budget watched.exhausted counter watched.seconds_used
            (forward_lost code);
      counter = counter;
    })
