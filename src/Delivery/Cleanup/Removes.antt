-- ===== src/Delivery/Cleanup/Removes.antt =====
-- `_cleanup_attempt` of delivery.py after a teardown that was not safe.
use satyrn_engine.Prelude.{◌≡◌, refl, false, some}
use satyrn_engine.Prelude.Text.{Text}
use satyrn_engine.Delivery.Cleanup.{
  TeardownResult, cleanup_safe, apply_teardown, by_gate, cleanup_attempt,
}
use satyrn_engine.Delivery.Host.{Host}
use satyrn_engine.Delivery.Receipt.{DeliveryContext}
use satyrn_engine.Delivery.Exec.{Sys, go, pure, attempt_of, ◌>>=◌}

-- After a teardown that was not safe, a cleanup removes nothing, changes nothing, and names the
-- worktree as what is kept.
pub cleanup_attempt-apply_teardown :
    (host : Host) (context : DeliveryContext) (r : TeardownResult) (s : Sys host)
    → cleanup_safe r ≡ false
    → let t = record s { attempt = apply_teardown r s.attempt } in
      ((m : Text) × (cleanup_attempt host context t ≡ (go (some (m, s.attempt.worktree)), t)))
unfolding cleanup_attempt apply_teardown by_gate ◌>>=◌ attempt_of pure
cleanup_attempt-apply_teardown host context r s h = rw (h, by_gate) (_, refl)
