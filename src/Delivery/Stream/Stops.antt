-- ===== src/Delivery/Stream/Stops.antt =====
-- The end of the loop in `_stream_implementer` of delivery.py.
use satyrn_engine.Prelude.{
  inr, ◌-◌, inl, ap, Option-cases, Bool-cases, ℕ, ◌≡◌, ◌≢◌, refl, Bool, true, false, not, List, [],
  ◌∷◌, any_of, leb,
}
use satyrn_engine.Prelude.Text.{Text, Bytes}
use satyrn_engine.Prelude.Value.{Decoded}
use satyrn_engine.Delivery.Stream.{
  is_empty, over, feed_line, consume_chunk, LoopEnd, stopped, drained, crashed, unfinished, stop,
  drain, drained_if, stream_loop, flush, stream_end,
}
use satyrn_engine.Budget.{Budget, crossed}
use satyrn_engine.Budget.Counter.{TurnCounter, fresh}
use satyrn_engine.Delivery.Host.{Pass}

abbrev is_ended : LoopEnd → Bool
is_ended unfinished = false
is_ended _ = true

free-cases :
    (p : Pass) (ps : List Pass)
    → any_of (λ p. not p.rest_ends) (p ∷ ps) ≡ false
    → (p.rest_ends ≡ true) × (any_of (λ p. not p.rest_ends) ps ≡ false)
free-cases p ps h = elim (Bool-cases p.rest_ends) [
  | inl t ↦ (t, rw t at h)
  | inr f ↦ let n : true ≡ false = rw f at h in cc
]

module _ (decode_replace : Bytes → Text) (json_loads : Text → Decoded) (budget : Budget)
    (started limit : ℕ) where
  drain-is_ended :
      (ends : Bool) (chunks : List Bytes) (pending : Bytes) (counter : TurnCounter) (later : ℕ)
      → ends ≡ true
      → is_ended
          (drain decode_replace json_loads budget started limit ends chunks pending counter later)
        ≡ true
  unfolding drain drained_if stop
  drain-is_ended true [] pending counter later h = refl
  drain-is_ended false [] pending counter later h = cc
  drain-is_ended ends (chunk ∷ rest) pending counter later h =
      elim (Option-cases (consume_chunk decode_replace json_loads budget chunk pending counter)) [
        | inl n ↦ rw (n, is_ended) refl
        | inr (c, e) ↦
            rw (e, is_ended)
              (elim (Option-cases c.exhausted) [
                | inl n ↦ rw (n, is_ended) (drain-is_ended ends rest c.pending c.counter later h)
                | inr (state, g) ↦ rw (g, is_ended) refl
              ])
      ]

  -- A pass at which the command's own limit has come.
  abbrev reaches : List Pass → Bool
  reaches = any_of (λ p. leb limit p.now)

  -- A pass at which the output that is left does not end.
  abbrev blocks : List Pass → Bool
  blocks = any_of (λ p. not p.rest_ends)

  stream_loop-is_ended :
      (passes : List Pass) (pending : Bytes) (counter : TurnCounter)
      → reaches passes ≡ true
      → blocks passes ≡ false
      → is_ended (stream_loop decode_replace json_loads budget started limit passes pending counter)
        ≡ true
  unfolding stream_loop stop
  stream_loop-is_ended [] pending counter r free = cc
  stream_loop-is_ended (p ∷ ps) pending counter reached free =
      let (here, later) = free-cases p ps free in
      elim (Bool-cases (crossed budget.deadline_seconds (p.now - started))) [
        | inl d ↦ elim (Bool-cases p.exited) [
          | inl x ↦ rw (d, x) (drain-is_ended p.rest_ends p.rest pending counter p.later here)
          | inr x ↦ rw (d, x) refl
        ]
        | inr d ↦ elim (Bool-cases (leb limit p.now)) [
          | inl l ↦ rw (d, l) refl
          | inr l ↦
              rw (d, l)
                (elim (Bool-cases p.ready) [
                  | inr r ↦ elim (Bool-cases p.exited) [
                    | inl x ↦ rw (r, x, is_ended) refl
                    | inr x ↦
                        rw (r, x, is_ended)
                          (stream_loop-is_ended ps pending counter (rw l at reached) later)
                  ]
                  | inl r ↦ elim (Bool-cases (is_empty p.chunk)) [
                    | inl z ↦ rw (r, z, is_ended) refl
                    | inr z ↦
                        rw (r, z, is_ended)
                          (elim (Option-cases (
                            consume_chunk decode_replace json_loads budget p.chunk pending
                              counter)) [
                                | inl n ↦ rw (n, is_ended) refl
                                | inr (c, e) ↦
                                    rw (e, is_ended)
                                      (elim (Option-cases c.exhausted) [
                                        | inl n ↦
                                            rw (n, is_ended)
                                              (stream_loop-is_ended ps c.pending c.counter
                                                (rw l at reached) later)
                                        | inr (state, g) ↦ rw (g, is_ended) refl
                                      ])
                              ])
                  ]
                ])
        ]
      ]

  flush-is_ended :
      (e : LoopEnd)
      → is_ended e ≡ true
      → is_ended (flush decode_replace json_loads budget started limit e) ≡ true
  unfolding flush stop
  flush-is_ended (drained [] counter now) h = refl
  flush-is_ended (drained (b ∷ pending) counter now) h =
      elim (Option-cases (feed_line decode_replace json_loads budget (b ∷ pending) counter)) [
        | inl n ↦ rw (n, is_ended) refl
        | inr (fed, f) ↦
            rw (f, is_ended)
              (elim (Option-cases (over budget fed)) [
                | inl n ↦ rw (n, is_ended) refl
                | inr (state, g) ↦ rw (g, is_ended) refl
              ])
      ]
  flush-is_ended (stopped o) h = refl
  flush-is_ended crashed h = refl
  flush-is_ended unfinished h = h

-- Whatever the implementer prints, where there is a pass at which the command's limit has come, and at
-- every pass the output that is left would end if it were drained, the loop ends by that pass: it does
-- not go on past the passes.
pub stream_end-limit :
    (decode_replace : Bytes → Text) (json_loads : Text → Decoded) (budget : Budget)
    (started limit : ℕ) (passes : List Pass)
    → any_of (λ p. leb limit p.now) passes ≡ true
    → any_of (λ p. not p.rest_ends) passes ≡ false
    → stream_end decode_replace json_loads budget started limit passes ≢ unfinished
unfolding stream_end
stream_end-limit decode_replace json_loads budget started limit passes h free e = cc (
  ap is_ended e,
  flush-is_ended decode_replace json_loads budget started limit _
      (stream_loop-is_ended decode_replace json_loads budget started limit passes [] fresh h free),
)
