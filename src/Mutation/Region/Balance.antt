-- ===== src/Mutation/Region/Balance.antt =====
-- `_balanced_grow` and `_balanced_shrink` of mutation.py, against what they are to divide.
use satyrn_engine.Prelude.{ℕ, zero, suc, ◌+◌, ◌-◌, ◌≤◌, min, ◌≡◌, ◌⊎◌, arith}
use satyrn_engine.Mutation.Region.{
  grow_step, grow, balanced_grow, shrink_step, shrink, balanced_shrink,
}

-- A division of at most `n` lines between two sides with these wishes.
pub record Divides (n desired_before desired_after : ℕ) (p : ℕ × ℕ) : Type 0 where
  pub before : p.0 ≤ desired_before
  pub after : p.1 ≤ desired_after
  pub total : p.0 + p.1 ≡ min n (desired_before + desired_after)
  -- No side is ahead by more than a line while the other wants one.
  pub after_behind : (p.0 ≤ p.1 + 1) ⊎ (p.1 ≡ desired_after)
  pub before_behind : (p.1 ≤ p.0) ⊎ (p.0 ≡ desired_before)

grow_step-Divides :
    (n db da : ℕ) (p : ℕ × ℕ) → Divides n db da p → Divides (suc n) db da (grow_step db da p)
unfolding grow_step
grow_step-Divides n db da (b, a) d = ground (arith, d)

grow-Divides :
    (k n m db da : ℕ) (p : ℕ × ℕ) → k + n ≡ m → Divides n db da p → Divides m db da (grow k db da p)
unfolding grow
grow-Divides zero n m db da p e d = let e' : n ≡ m = omega (arith, e) in rw (← e') d
grow-Divides (suc k) n m db da p e d =
    grow-Divides k (suc n) m db da (grow_step db da p) (omega (arith, e))
      (grow_step-Divides n db da p d)

-- `_balanced_grow` gives out as many lines as the budget and the wishes allow, no side more than it
-- wishes, and no side more than one line behind the other unless it has all that it wishes.
pub balanced_grow-Divides :
    (budget desired_before desired_after : ℕ)
    → Divides budget desired_before desired_after
        (balanced_grow budget desired_before desired_after)
unfolding balanced_grow
balanced_grow-Divides budget db da =
    grow-Divides budget 0 budget db da (0, 0) (omega arith) (ground arith)

-- What is left of the context on two sides.
pub record Shrinks (n before after : ℕ) (p : ℕ × ℕ) : Type 0 where
  pub before_le : p.0 ≤ before
  pub after_le : p.1 ≤ after
  pub total : p.0 + p.1 ≡ before + after - n

shrink_step-Shrinks :
    (n before after : ℕ) (p : ℕ × ℕ)
    → Shrinks n before after p
    → Shrinks (suc n) before after (shrink_step p)
unfolding shrink_step
shrink_step-Shrinks n before after (b, a) d = ground (arith, d)

shrink-Shrinks :
    (k n m before after : ℕ) (p : ℕ × ℕ)
    → k + n ≡ m
    → Shrinks n before after p
    → Shrinks m before after (shrink k p)
unfolding shrink
shrink-Shrinks zero n m before after p e d = let e' : n ≡ m = omega (arith, e) in rw (← e') d
shrink-Shrinks (suc k) n m before after p e d =
    shrink-Shrinks k (suc n) m before after (shrink_step p) (omega (arith, e))
      (shrink_step-Shrinks n before after p d)

-- `_balanced_shrink` takes away `excess` lines, or all where there are fewer.
pub balanced_shrink-Shrinks :
    (before after excess : ℕ) → Shrinks excess before after (balanced_shrink before after excess)
unfolding balanced_shrink
balanced_shrink-Shrinks before after excess =
    shrink-Shrinks excess 0 excess before after (before, after) (omega arith) (ground arith)
