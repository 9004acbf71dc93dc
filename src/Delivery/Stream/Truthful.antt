-- ===== src/Delivery/Stream/Truthful.antt =====
-- The results of the loop in `_stream_implementer` of delivery.py.
use satyrn_engine.Prelude.{
  Bool, true, false, is_some, ◌&&◌, subst, ◌++◌, length, zero, suc, Option-cases, is_empty, leb,
  ◌-◌, ℕ, ◌≡◌, refl, Option, none, some, List, [], ◌∷◌, Bool-cases, inl, inr,
}
use satyrn_engine.Prelude.Text.{Text, Bytes}
use satyrn_engine.Prelude.Value.{Decoded}
use satyrn_engine.Delivery.Stream.{
  false, suc, first_line, Consumed, over, StreamOutcome, feed_line, consume_lines, consume_chunk,
  LoopEnd, stopped, drained, crashed, unfinished, stop, drain, drained_if, stream_loop, flush,
  stream_end,
}
use satyrn_engine.Budget.{
  Budget, BudgetState, turn_exhausted, token_exhausted, deadline_exhausted, crossed,
}
use satyrn_engine.Budget.Evaluate.{Crossed, crossed→Crossed}
use satyrn_engine.Budget.Counter.{TurnCounter, fresh}
use satyrn_engine.Delivery.Host.{Pass}

-- An exhausted limit is one that the count or the clock has crossed.
abbrev pub Crosses : Budget → TurnCounter → ℕ → BudgetState → Type 0
Crosses b counter seconds turn_exhausted = Crossed b.turn_limit counter.turns
Crosses b counter seconds token_exhausted = Crossed b.token_limit counter.tokens_out
Crosses b counter seconds deadline_exhausted = Crossed b.deadline_seconds seconds
Crosses b counter seconds _ = ⊥

abbrev pub CrossesIf : Budget → TurnCounter → ℕ → Option BudgetState → Type 0
CrossesIf b counter seconds none = Unit
CrossesIf b counter seconds (some state) = Crosses b counter seconds state

over-Crosses :
    (b : Budget) (counter : TurnCounter) (seconds : ℕ)
    → CrossesIf b counter seconds (over b counter)
unfolding over
over-Crosses b counter seconds = elim (Bool-cases (crossed b.turn_limit counter.turns)) [
  | inl t ↦ rw t (crossed→Crossed _ _ t)
  | inr f ↦ elim (Bool-cases (crossed b.token_limit counter.tokens_out)) [
    | inl t ↦ rw (f, t) (crossed→Crossed _ _ t)
    | inr g ↦ rw (f, g) tt
  ]
]

-- A result of the loop: an exhausted limit is crossed, and a command that has timed out has
-- exhausted none.
abbrev pub Truthful : Budget → StreamOutcome → Type 0
Truthful b o =
    CrossesIf b o.counter o.seconds_used o.exhausted
    × ((o.command_timed_out && is_some o.exhausted) ≡ false)

abbrev TruthfulEnd : Budget → LoopEnd → Type 0
TruthfulEnd b (stopped o) = Truthful b o
TruthfulEnd b _ = Unit

abbrev TruthfulConsumed : Budget → Option Consumed → Type 0
TruthfulConsumed b none = Unit
TruthfulConsumed b (some c) = (seconds : ℕ) → CrossesIf b c.counter seconds c.exhausted

module _ (decode_replace : Bytes → Text) (json_loads : Text → Decoded) (budget : Budget) where
  consume_lines-Truthful :
      (fuel : ℕ) (pending : Bytes) (counter : TurnCounter)
      → TruthfulConsumed budget
          (consume_lines decode_replace json_loads budget fuel pending counter)
  unfolding consume_lines
  consume_lines-Truthful zero pending counter = λ s. tt
  consume_lines-Truthful (suc fuel) pending counter = elim (Option-cases (first_line pending)) [
    | inl n ↦ rw (n, TruthfulConsumed) (λ s. tt)
    | inr ((line, rest), e) ↦
        rw (e, TruthfulConsumed)
          (elim (Option-cases (feed_line decode_replace json_loads budget line counter)) [
            | inl n ↦ rw (n, TruthfulConsumed) tt
            | inr (fed, f) ↦
                rw (f, TruthfulConsumed)
                  (elim (Option-cases (over budget fed)) [
                    | inl n ↦ rw (n, TruthfulConsumed) (consume_lines-Truthful fuel rest fed)
                    | inr (state, g) ↦
                        rw (g, TruthfulConsumed) (λ s. rw g at (over-Crosses budget fed s))
                  ])
          ])
  ]

  consume_chunk-Truthful :
      (chunk pending : Bytes) (counter : TurnCounter)
      → TruthfulConsumed budget
          (consume_chunk decode_replace json_loads budget chunk pending counter)
  unfolding consume_chunk
  consume_chunk-Truthful chunk pending counter =
      consume_lines-Truthful (suc (length (pending ++ chunk))) (pending ++ chunk) counter

  module _ (started limit : ℕ) where
    drain-Truthful :
        (ends : Bool) (chunks : List Bytes) (pending : Bytes) (counter : TurnCounter) (later : ℕ)
        → TruthfulEnd budget
            (drain decode_replace json_loads budget started limit ends chunks pending counter later)
    unfolding drain drained_if stop
    drain-Truthful true [] pending counter later = tt
    drain-Truthful false [] pending counter later = tt
    drain-Truthful ends (chunk ∷ rest) pending counter later =
        elim (Option-cases (consume_chunk decode_replace json_loads budget chunk pending counter)) [
          | inl n ↦ rw (n, TruthfulEnd) tt
          | inr (c, e) ↦
              rw (e, TruthfulEnd)
                (elim (Option-cases c.exhausted) [
                  | inl n ↦ rw (n, TruthfulEnd) (drain-Truthful ends rest c.pending c.counter later)
                  | inr (state, g) ↦
                      rw (g, TruthfulEnd)
                        ((rw (e, g) at (consume_chunk-Truthful chunk pending counter)) _, refl)
                ])
        ]

    stream_loop-Truthful :
        (passes : List Pass) (pending : Bytes) (counter : TurnCounter)
        → TruthfulEnd budget
            (stream_loop decode_replace json_loads budget started limit passes pending counter)
    unfolding stream_loop stop
    stream_loop-Truthful [] pending counter = tt
    stream_loop-Truthful (p ∷ ps) pending counter =
        elim (Bool-cases (crossed budget.deadline_seconds (p.now - started))) [
          | inl d ↦ elim (Bool-cases p.exited) [
            | inl x ↦ rw (d, x) (drain-Truthful p.rest_ends p.rest pending counter p.later)
            | inr x ↦ rw (d, x) (crossed→Crossed _ _ d, refl)
          ]
          | inr d ↦ elim (Bool-cases (leb limit p.now)) [
            | inl l ↦ rw (d, l) (tt, refl)
            | inr l ↦
                rw (d, l)
                  (elim (Bool-cases p.ready) [
                    | inr r ↦ elim (Bool-cases p.exited) [
                      | inl x ↦ rw (r, x, TruthfulEnd) tt
                      | inr x ↦ rw (r, x, TruthfulEnd) (stream_loop-Truthful ps pending counter)
                    ]
                    | inl r ↦ elim (Bool-cases (is_empty p.chunk)) [
                      | inl z ↦ rw (r, z, TruthfulEnd) tt
                      | inr z ↦
                          rw (r, z, TruthfulEnd)
                            (elim (Option-cases (
                              consume_chunk decode_replace json_loads budget p.chunk pending
                                counter)) [
                                  | inl n ↦ rw (n, TruthfulEnd) tt
                                  | inr (c, e) ↦
                                      rw (e, TruthfulEnd)
                                        (elim (Option-cases c.exhausted) [
                                          | inl n ↦
                                              rw (n, TruthfulEnd)
                                                (stream_loop-Truthful ps c.pending c.counter)
                                          | inr (state, g) ↦
                                              rw (g, TruthfulEnd)
                                                (
                                                  (rw (e, g) at
                                                        (consume_chunk-Truthful p.chunk pending
                                                          counter))
                                                      _,
                                                  refl,
                                                )
                                        ])
                                ])
                    ]
                  ])
          ]
        ]

    flush-Truthful :
        (e : LoopEnd)
        → TruthfulEnd budget e
        → TruthfulEnd budget (flush decode_replace json_loads budget started limit e)
    unfolding flush stop
    flush-Truthful (drained [] counter now) h = tt
    flush-Truthful (drained (b ∷ pending) counter now) h =
        elim (Option-cases (feed_line decode_replace json_loads budget (b ∷ pending) counter)) [
          | inl n ↦ rw (n, TruthfulEnd) tt
          | inr (fed, f) ↦
              rw (f, TruthfulEnd)
                (elim (Option-cases (over budget fed)) [
                  | inl n ↦ rw (n, TruthfulEnd) tt
                  | inr (state, g) ↦
                      rw (g, TruthfulEnd) (rw g at (over-Crosses budget fed (now - started)), refl)
                ])
        ]
    flush-Truthful (stopped o) h = h
    flush-Truthful crashed h = tt
    flush-Truthful unfinished h = tt

-- Where the loop over the passes stops the implementer with a result, a limit that the result calls
-- exhausted is declared and crossed by the result's own count or seconds, and a result that calls
-- the command timed out calls no limit exhausted.
pub stream_end-Truthful :
    (decode_replace : Bytes → Text) (json_loads : Text → Decoded) (budget : Budget)
    (started limit : ℕ) (passes : List Pass) (o : StreamOutcome)
    → stream_end decode_replace json_loads budget started limit passes ≡ stopped o
    → Truthful budget o
unfolding stream_end
stream_end-Truthful decode_replace json_loads budget started limit passes o h =
    subst (TruthfulEnd budget) h (
      flush-Truthful decode_replace json_loads budget started limit _
        (stream_loop-Truthful decode_replace json_loads budget started limit passes [] fresh))
