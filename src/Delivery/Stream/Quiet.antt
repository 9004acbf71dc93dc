-- ===== src/Delivery/Stream/Quiet.antt =====
-- The Git commands of `_stream_implementer` in delivery.py.
use satyrn_engine.Prelude.{ℕ}
use satyrn_engine.Budget.{Budget}
use satyrn_engine.Budget.Counter.{TurnCounter}
use satyrn_engine.Delivery.Host.{Host, Waited, ended, expired, interrupted}
use satyrn_engine.Delivery.Git.{GitCommand}
use satyrn_engine.Delivery.Receipt.{DeliveryReceipt}
use satyrn_engine.Delivery.Spec.{Spec, Any, spec_rules}
use satyrn_engine.Delivery.Stream.{
  LoopEnd, stopped, drained, crashed, unfinished, waited, close, stream_implementer,
}

module _ {host : Host} {P : GitCommand → Type 0} {R : DeliveryReceipt → Type 0}
    (budget : Budget) where
  Spec-waited :
      (started limit : ℕ) (c : TurnCounter) (w : Waited)
      → Spec P R Any (waited host budget started limit c w)
  unfolding waited
  Spec-waited started limit c ended = search spec_rules
  Spec-waited started limit c expired = search spec_rules
  Spec-waited started limit c interrupted = search spec_rules

  Spec-close : (started limit : ℕ) (e : LoopEnd) → Spec P R Any (close host budget started limit e)
  unfolding close
  Spec-close started limit (stopped o) = search spec_rules
  Spec-close started limit (drained p c now) = search (spec_rules, Spec-waited)
  Spec-close started limit crashed = search spec_rules
  Spec-close started limit unfinished = search spec_rules

  pub Spec-stream_implementer :
      (timeout : ℕ) → Spec P R Any (stream_implementer host budget timeout)
  unfolding stream_implementer
  Spec-stream_implementer timeout = search (spec_rules, Spec-close)
