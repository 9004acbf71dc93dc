-- ===== src/Budget/Evaluate.antt =====
-- What `evaluate` says of a measured spend.
use satyrn_engine.Prelude.{
  refl, inr, inl, Bool-cases, ℕ, ◌<◌, ◌≡◌, true, false, Option, none, some, arith, ltb→lt,
}
use satyrn_engine.Budget.{
  Budget, BudgetState, within, turn_exhausted, token_exhausted, deadline_exhausted, not_declared,
  not_enforced, declared, crossed, evaluate,
}

-- A declared limit lies below the spend.
abbrev pub Crossed : Option ℕ → ℕ → Type 0
Crossed none used = ⊥
Crossed (some limit) used = limit < used

pub crossed→Crossed : (limit : Option ℕ) (used : ℕ) → crossed limit used ≡ true → Crossed limit used
unfolding crossed
crossed→Crossed none used h = cc
crossed→Crossed (some limit) used h = ltb→lt limit used h

pub crossed→not-Crossed :
    (limit : Option ℕ) (used : ℕ) → crossed limit used ≡ false → ¬ Crossed limit used
unfolding crossed
crossed→not-Crossed none used h c = c
crossed→not-Crossed (some limit) used h c = ground arith

-- What each state says of the budget and the spend; no spend is evaluated to `not_enforced`.
abbrev pub Says : BudgetState → Budget → ℕ → ℕ → ℕ → Type 0
Says token_exhausted b turns seconds tokens = Crossed b.token_limit tokens
Says turn_exhausted b turns seconds tokens =
    Crossed b.turn_limit turns × ¬ Crossed b.token_limit tokens
Says deadline_exhausted b turns seconds tokens =
    Crossed b.deadline_seconds seconds
    × ¬ Crossed b.turn_limit turns
    × ¬ Crossed b.token_limit tokens
Says not_declared b turns seconds tokens = declared b ≡ false
Says within b turns seconds tokens =
    (declared b ≡ true)
    × ¬ Crossed b.deadline_seconds seconds
    × ¬ Crossed b.turn_limit turns
    × ¬ Crossed b.token_limit tokens
Says not_enforced b turns seconds tokens = ⊥

-- The state is TOKEN_EXHAUSTED where the token limit is crossed, TURN_EXHAUSTED where the turn
-- limit is and the token limit is not, DEADLINE_EXHAUSTED where only the deadline is, WITHIN where a
-- limit is declared and none is crossed, NOT_DECLARED where none is declared, and never
-- NOT_ENFORCED. The counts are handed on.
pub evaluate-Says :
    (b : Budget) (turns seconds tokens : ℕ)
    → let u = evaluate b turns seconds tokens in
      Says u.state b turns seconds tokens
      × (u.turns_used ≡ turns)
      × (u.seconds_used ≡ seconds)
      × (u.tokens_used ≡ tokens)
unfolding evaluate
evaluate-Says b turns seconds tokens = elim (Bool-cases (crossed b.token_limit tokens)) [
  | inl t ↦ rw t (crossed→Crossed _ _ t, refl, refl, refl)
  | inr t ↦ rw t (elim (Bool-cases (crossed b.turn_limit turns)) [
    | inl n ↦ rw n ((crossed→Crossed _ _ n, crossed→not-Crossed _ _ t), refl, refl, refl)
    | inr n ↦ rw n (elim (Bool-cases (crossed b.deadline_seconds seconds)) [
      | inl d ↦ rw d (
        (crossed→Crossed _ _ d, crossed→not-Crossed _ _ n, crossed→not-Crossed _ _ t),
        refl,
        refl,
        refl,
      )
      | inr d ↦ rw d (elim (Bool-cases (declared b)) [
        | inl y ↦
            rw (y, y)
              (
                (
                  refl,
                  crossed→not-Crossed _ _ d,
                  crossed→not-Crossed _ _ n,
                  crossed→not-Crossed _ _ t,
                ),
                refl,
                refl,
                refl,
              )
        | inr y ↦ rw y (y, refl, refl, refl)
      ])
    ])
  ])
]
