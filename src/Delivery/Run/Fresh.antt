-- ===== src/Delivery/Run/Fresh.antt =====
-- The Git commands and the receipts of the first half of `_run_and_commit` in delivery.py.
use satyrn_engine.Prelude.{ℕ, Option, none, some, List}
use satyrn_engine.Prelude.Text.{Text}
use satyrn_engine.Delivery.Run.{
  ℤ, fail_spool, fail_popen, plain_wait, watch_stream, watch, tear_down, open_gate, counted,
  counter_of, spent, run_command, start, settle_command, Watched, Account,
}
use satyrn_engine.Budget.Counter.{TurnCounter}
use satyrn_engine.Delivery.Host.{Host, Waited, ended, expired, interrupted}
use satyrn_engine.Delivery.Receipt.{DeliveryContext, context_receipt}
use satyrn_engine.Delivery.Spec.{Spec, Any, spec_rules}
use satyrn_engine.Delivery.Shape.{Builds, Fresh}
use satyrn_engine.Delivery.Stream.Quiet.{Spec-stream_implementer}
use satyrn_engine.Delivery.Cleanup.Quiet.{Spec-teardown_process_group}

module _ {host : Host} (base : Text) (context : DeliveryContext) where
  Spec-fail_spool : (o : Option Text) → Spec (Builds base) Fresh Any (fail_spool host context o)
  unfolding fail_spool context_receipt
  Spec-fail_spool none = search spec_rules
  Spec-fail_spool (some d) = search spec_rules

  Spec-fail_popen : (o : Option Text) → Spec (Builds base) Fresh Any (fail_popen host context o)
  unfolding fail_popen context_receipt
  Spec-fail_popen none = search spec_rules
  Spec-fail_popen (some d) = search spec_rules

  Spec-plain_wait : (w : Waited) → Spec (Builds base) Fresh Any (plain_wait host context w)
  unfolding plain_wait
  Spec-plain_wait ended = search spec_rules
  Spec-plain_wait expired = search spec_rules
  Spec-plain_wait interrupted = search spec_rules

  Spec-watch_stream : (t : ℕ) → Spec (Builds base) Fresh Any (watch_stream host context t)
  unfolding watch_stream
  Spec-watch_stream t = search (spec_rules, Spec-stream_implementer)

  Spec-watch : (t : ℕ) → Spec (Builds base) Fresh Any (watch host context t)
  unfolding watch
  Spec-watch t = search (spec_rules, Spec-watch_stream, Spec-plain_wait)

  Spec-tear_down : Spec (Builds base) Fresh Any (tear_down host context)
  unfolding tear_down
  Spec-tear_down = search (spec_rules, Spec-teardown_process_group)

  Spec-open_gate : Spec (Builds base) Fresh Any (open_gate host context)
  unfolding open_gate
  Spec-open_gate = search spec_rules

  Spec-counted : (o : Option TurnCounter) → Spec (Builds base) Fresh Any (counted host context o)
  unfolding counted
  Spec-counted none = search spec_rules
  Spec-counted (some c) = search spec_rules

  Spec-counter_of :
      (o : Option TurnCounter) → Spec (Builds base) Fresh Any (counter_of host context o)
  unfolding counter_of
  Spec-counter_of none = search (spec_rules, Spec-counted)
  Spec-counter_of (some c) = search spec_rules

  Spec-start : (command : List Text) → Spec (Builds base) Fresh Any (start host context command)
  unfolding start
  Spec-start command = search (spec_rules, Spec-fail_spool, Spec-fail_popen) depth 12

  Spec-settle_command :
      (timeout : ℕ) (w : Watched) (code : Option ℤ) (account : Account)
      → Spec (Builds base) Fresh Any (settle_command host context timeout w code account)
  unfolding settle_command context_receipt spent
  Spec-settle_command timeout w code account = search spec_rules depth 8

  pub Spec-run_command :
      (command : List Text) (timeout : ℕ)
      → Spec (Builds base) Fresh Any (run_command host context command timeout)
  unfolding run_command
  Spec-run_command command timeout =
      search
        (
          spec_rules, Spec-start, Spec-watch, Spec-tear_down, Spec-open_gate, Spec-counter_of,
          Spec-settle_command,
        )
        depth 12
