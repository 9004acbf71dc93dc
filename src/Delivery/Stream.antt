-- ===== src/Delivery/Stream.antt =====
-- `_consume_chunk` and `_stream_implementer` of delivery.py: the live count over the implementer's
-- output. The spool gets every chunk and is read by nobody here.
pub mod Quiet
pub mod Chunks
pub mod Stops
pub mod Truthful
use satyrn_engine.Prelude.{
  is_empty, ℕ, zero, suc, ◌+◌, ◌-◌, Bool, true, false, Option, none, some, List, [], ◌∷◌, ◌++◌,
  if◌then◌else◌, ltb, leb, length, max, ◌==◌, ◌&&◌, not,
}
use satyrn_engine.Prelude.Text.{Text, Bytes}
use satyrn_engine.Prelude.Value.{Decoded}
use satyrn_engine.Budget.{
  Budget, BudgetState, turn_exhausted, token_exhausted, deadline_exhausted, crossed,
}
use satyrn_engine.Budget.Counter.{TurnCounter, feed, fresh}
use satyrn_engine.Delivery.Host.{Host, Pass, Waited, ended, expired, interrupted}
use satyrn_engine.Delivery.Exec.{Exec, pure, raise, call, ◌>>=◌, ◌>>◌}

-- `pending.find(b"\n")`, with what stands before and after it
cut_line : ℕ → Option (Bytes × Bytes) → Option (Bytes × Bytes)
cut_line c none = none
cut_line c (some (line, rest)) = some (c ∷ line, rest)

unfoldable pub first_line : Bytes → Option (Bytes × Bytes)
unfolding cut_line
first_line [] = none
first_line (c ∷ b) =
    let later = cut_line c (first_line b) in if c == 10 then some ([], b) else later

pub record Consumed : Type 0 where
  pub pending : Bytes
  pub exhausted : Option BudgetState
  pub counter : TurnCounter

unfoldable pub over : Budget → TurnCounter → Option BudgetState
unfolding crossed
over budget counter =
    if crossed budget.turn_limit counter.turns
    then some turn_exhausted
    else if crossed budget.token_limit counter.tokens_out
    then some token_exhausted
    else none

pub record StreamOutcome : Type 0 where
  pub exhausted : Option BudgetState
  pub command_timed_out : Bool
  pub counter : TurnCounter
  pub seconds_used : ℕ

module _ (decode_replace : Bytes → Text) (json_loads : Text → Decoded) (budget : Budget) where
  unfoldable pub feed_line : Bytes → TurnCounter → Option TurnCounter
  feed_line line counter = feed json_loads (decode_replace line) counter

  -- `while (newline := pending.find(b"\n")) != -1`, a line for each unit of fuel; an outer `none` is
  -- an exception that escapes `feed`.
  consume_lines : ℕ → Bytes → TurnCounter → Option Consumed
  consume_lines zero pending counter =
      some (record { pending = pending; exhausted = none; counter = counter })
  consume_lines (suc fuel) pending counter = elim (first_line pending) [
    | none ↦ some (record { pending = pending; exhausted = none; counter = counter })
    | some (line, rest) ↦ elim (feed_line line counter) [
      | none ↦ none
      | some fed ↦ elim (over budget fed) [
        | some state ↦ some (record { pending = rest; exhausted = some state; counter = fed })
        | none ↦ consume_lines fuel rest fed
      ]
    ]
  ]

  -- `_consume_chunk`; a line takes a byte at least, so the fuel is enough.
  unfoldable pub consume_chunk : Bytes → Bytes → TurnCounter → Option Consumed
  unfolding consume_lines
  consume_chunk chunk pending counter =
      let waiting = pending ++ chunk in consume_lines (suc (length waiting)) waiting counter

-- How the loop over the passes ends: by a result, at the end of the output with the unfinished line
-- and the clock, by an exception that escapes `feed`, or not before the passes do, as where it
-- waits for output that does not come.
pub data LoopEnd : Type 0 where
  stopped : StreamOutcome → LoopEnd
  drained : Bytes → TurnCounter → ℕ → LoopEnd
  crashed : LoopEnd
  unfinished : LoopEnd

-- `started + (max(timeout, deadline) if deadline is not None else timeout)`
unfoldable pub command_deadline : ℕ → Option ℕ → ℕ → ℕ
command_deadline started none timeout = started + timeout
command_deadline started (some deadline) timeout = started + max timeout deadline

module _ (decode_replace : Bytes → Text) (json_loads : Text → Decoded) (budget : Budget)
    (started limit : ℕ) where
  stop : BudgetState → TurnCounter → ℕ → LoopEnd
  stop state counter now = stopped (record {
    exhausted = some state;
    command_timed_out = false;
    counter = counter;
    seconds_used = now - started;
  })

  -- Where the output does not end, `read1` waits for more of it.
  drained_if : Bool → Bytes → TurnCounter → ℕ → LoopEnd
  drained_if true pending counter later = drained pending counter later
  drained_if false pending counter later = unfinished

  -- A child that ended before the deadline fired is drained to the end of its output.
  drain : Bool → List Bytes → Bytes → TurnCounter → ℕ → LoopEnd
  unfolding stop drained_if
  drain ends [] pending counter later = drained_if ends pending counter later
  drain ends (chunk ∷ rest) pending counter later =
      elim (consume_chunk decode_replace json_loads budget chunk pending counter) [
        | none ↦ crashed
        | some c ↦ elim c.exhausted [
          | some state ↦ stop state c.counter later
          | none ↦ drain ends rest c.pending c.counter later
        ]
      ]

  -- `while True`
  stream_loop : List Pass → Bytes → TurnCounter → LoopEnd
  unfolding stop drain
  stream_loop [] pending counter = unfinished
  stream_loop (p ∷ ps) pending counter =
      if crossed budget.deadline_seconds (p.now - started)
      then if p.exited
        then drain p.rest_ends p.rest pending counter p.later
        else stop deadline_exhausted counter p.now
      else if leb limit p.now
      then stopped (record {
        exhausted = none;
        command_timed_out = true;
        counter = counter;
        seconds_used = p.now - started;
      })
      else elim (p.ready) [
        | false ↦ elim (p.exited) [
          | true ↦ drained pending counter p.later
          | false ↦ stream_loop ps pending counter
        ]
        | true ↦ elim (is_empty p.chunk) [
          | true ↦ drained pending counter p.later
          | false ↦ elim (consume_chunk decode_replace json_loads budget p.chunk pending counter) [
            | none ↦ crashed
            | some c ↦ elim c.exhausted [
              | some state ↦ stop state c.counter p.later
              | none ↦ stream_loop ps c.pending c.counter
            ]
          ]
        ]
      ]

  -- The unfinished line, if there is one, is the last to be counted.
  flush : LoopEnd → LoopEnd
  unfolding stop
  flush (drained [] counter now) = drained [] counter now
  flush (drained (b ∷ pending) counter now) =
      elim (feed_line decode_replace json_loads budget (b ∷ pending) counter) [
        | none ↦ crashed
        | some fed ↦ elim (over budget fed) [
          | some state ↦ stop state fed now
          | none ↦ drained [] fed now
        ]
      ]
  flush e = e

  unfoldable pub stream_end : List Pass → LoopEnd
  unfolding stream_loop flush fresh
  stream_end passes = flush (stream_loop passes [] fresh)

module _ (host : Host) (budget : Budget) (started limit : ℕ) where
  open host use {final_wait, monotonic}

  ended_by : TurnCounter → Bool → Exec host StreamOutcome
  ended_by counter timed_out = do
    now ← call monotonic
    pure (record {
      exhausted = none;
      command_timed_out = timed_out;
      counter = counter;
      seconds_used = now - started;
    })

  waited : TurnCounter → Waited → Exec host StreamOutcome
  unfolding ended_by
  waited counter ended = ended_by counter false
  waited counter expired = ended_by counter true
  waited counter interrupted = raise

  close : LoopEnd → Exec host StreamOutcome
  unfolding waited
  close (stopped o) = pure o
  close (drained pending counter now) = do w ← call (final_wait (limit - now)); waited counter w
  close crashed = raise
  close unfinished = raise

-- `_stream_implementer`; where the passes end first, a signal has raised its exception in the loop.
unfoldable pub stream_implementer : (host : Host) → Budget → ℕ → Exec host StreamOutcome
unfolding stream_end command_deadline close
stream_implementer host budget timeout = do
  started ← call (Host.monotonic host)
  passes ← call (Host.passes host)
  let limit = command_deadline started budget.deadline_seconds timeout
  close host budget started limit
      (stream_end (Host.decode_replace host) (Host.json_loads host) budget started limit passes)
