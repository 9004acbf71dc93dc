-- ===== src/Budget.antt =====
-- src/satyrn_engine/budget.py: the whole-attempt budget and the counter over the implementer's
-- stream. `json.loads` is a parameter.
pub mod Counter
pub mod Evaluate
use satyrn_engine.Prelude.{
  ℕ, Bool, true, false, ◌&&◌, ◌||◌, not, Option, none, some, ltb, is_some, if◌then◌else◌,
}

pub data BudgetState : Type 0 where
  within turn_exhausted token_exhausted deadline_exhausted not_declared not_enforced : BudgetState

-- Seconds are a finite positive double, in units of 2 ^ -1074.
pub record Budget : Type 0 where
  pub turn_limit : Option ℕ
  pub deadline_seconds : Option ℕ
  pub token_limit : Option ℕ

unfoldable pub declared : Budget → Bool
declared b = is_some b.turn_limit || is_some b.deadline_seconds || is_some b.token_limit

pub record BudgetUsage : Type 0 where
  pub state : BudgetState
  pub turns_used : ℕ
  pub seconds_used : ℕ
  pub tokens_used : ℕ
  pub live_counter_lost : Bool

-- `limit is not None and used > limit`
unfoldable pub crossed : Option ℕ → ℕ → Bool
crossed none used = false
crossed (some limit) used = ltb limit used

abbrev usage : BudgetState → ℕ → ℕ → ℕ → BudgetUsage
usage state turns seconds tokens = record {
  state = state;
  turns_used = turns;
  seconds_used = seconds;
  tokens_used = tokens;
  live_counter_lost = false;
}

unfoldable pub evaluate : Budget → ℕ → ℕ → ℕ → BudgetUsage
evaluate b turns seconds tokens =
    if crossed b.token_limit tokens
    then usage token_exhausted turns seconds tokens
    else if crossed b.turn_limit turns
    then usage turn_exhausted turns seconds tokens
    else if crossed b.deadline_seconds seconds
    then usage deadline_exhausted turns seconds tokens
    else if not (declared b)
    then usage not_declared turns seconds tokens
    else usage within turns seconds tokens
