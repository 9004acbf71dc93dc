-- ===== src/Contract/Fields/Valid.antt =====
-- What a contract that `load_contract` accepts satisfies.
use satyrn_engine.Prelude.{
  ℕ, zero, suc, ◌+◌, ◌*◌, ◌/◌, ◌^◌, ◌<◌, ◌≡◌, refl, ap, Bool, true, Option, none, some, String,
  List, [], ◌∷◌, ◌++◌, arith, ltb, all_of, Bool-cases, Option-cases, inl, inr, ltb→le, tests,
}
use satyrn_engine.Prelude.Int.{pos}
use satyrn_engine.Prelude.Text.{Text, txt}
use satyrn_engine.Prelude.Value.{
  Value, Items, null, boolean, int, float, str, list, dict, other, nil, cons, finite, infinite,
  neg_infinite, nan, all_str, strings, get,
}
use native.Mathlib.Nat.{div-div-eq-div-mul, pow-succ', mul-pos}
use mathlib.Core.Option.{some-injective}
use satyrn_engine.Contract.Fields.{
  Contract, nonblank, required_problems, paths_problems, command_problems, limit_problems,
  deadline_problems, excess_bits, round_at, float_of_int, early_problems, with_late, field_problems,
  build, text_of, texts_of, limit_of, seconds_of,
}
use satyrn_engine.Prelude.Value

abbrev pub IsPositive : Option ℕ → Type 0
IsPositive none = Unit
IsPositive (some n) = 0 < n

-- The declared shape of a contract. An absent `test_command` is the empty one.
pub record IsValid (c : Contract) : Type 0 where
  pub id : nonblank c.id ≡ true
  pub task : nonblank c.task ≡ true
  pub writable_paths : all_of nonblank c.writable_paths ≡ true
  pub test_command : all_of nonblank c.test_command ≡ true
  pub preserve : all_of nonblank c.preserve ≡ true
  pub checks : all_of nonblank c.checks ≡ true
  pub turn_budget : IsPositive c.turn_budget
  pub token_budget : IsPositive c.token_budget
  pub deadline_seconds : IsPositive c.deadline_seconds

pub append-eq-nil : (xs ys : List Text) → xs ++ ys ≡ [] → (xs ≡ []) × (ys ≡ [])
append-eq-nil [] ys h = (refl, h)
append-eq-nil (x ∷ xs) ys h = cc

all_of-strings :
    (test : Text → Bool) (items : Items)
    → all_str test items ≡ true
    → all_of test (strings items) ≡ true
unfolding all_str strings
all_of-strings test nil h = refl
all_of-strings test (cons (str t) rest) h = ground (arith, all_of-strings test rest)
all_of-strings test (cons _ rest) h = ground arith

required-nonblank :
    (m b : String) (o : Option Value) → required_problems m b o ≡ [] → nonblank (text_of o) ≡ true
unfolding required_problems text_of
required-nonblank m b (some (str t)) h = ground arith
required-nonblank m b none h = cc
required-nonblank m b (some null) h = cc
required-nonblank m b (some _) h = cc

paths-nonblank :
    (b n : String) (o : Option Value)
    → paths_problems b n o ≡ []
    → all_of nonblank (texts_of o) ≡ true
unfolding paths_problems texts_of
paths-nonblank b n none h = refl
paths-nonblank b n (some (list items)) h = ground (arith, all_of-strings nonblank items)
paths-nonblank b n (some _) h = cc

command-nonblank :
    (o : Option Value) → command_problems o ≡ [] → all_of nonblank (texts_of o) ≡ true
unfolding command_problems texts_of
command-nonblank none h = refl
command-nonblank (some (list items)) h = ground (arith, all_of-strings nonblank items)
command-nonblank (some _) h = cc

limit-IsPositive :
    (m : String) (o : Option Value) → limit_problems m o ≡ [] → IsPositive (limit_of o)
unfolding limit_problems limit_of
limit-IsPositive m none h = tt
limit-IsPositive m (some (int (pos n))) h = ground arith
limit-IsPositive m (some _) h = ground arith

-- Dropping the excess bits leaves something of a positive number.
excess_bits-pos : (k n : ℕ) → 0 < n → 0 < n / 2 ^ excess_bits k n
unfolding excess_bits
excess_bits-pos zero n h = omega arith
excess_bits-pos (suc k) n h = elim (Bool-cases (ltb n (2 ^ 53))) [
  | inl small ↦ rw small (omega arith)
  | inr large ↦
      rw (large, pow-succ', ← div-div-eq-div-mul)
        (excess_bits-pos k (n / 2) (omega (tests, ltb→le n (2 ^ 53) large)))
]

pow-pos : (e : ℕ) → 0 < 2 ^ e
pow-pos zero = omega arith
pow-pos (suc e) = rw pow-succ' (omega (arith, pow-pos e))

round_at-pos : (n e : ℕ) → 0 < n / 2 ^ e → 0 < round_at n e
unfolding round_at
round_at-pos n e h =
    ground (
      arith,
      pow-pos e,
      mul-pos {m = n / 2 ^ e} {n = 2 ^ e},
      mul-pos {m = n / 2 ^ e + 1} {n = 2 ^ e},
    )

float_of_int-pos : (n s : ℕ) → 0 < n → float_of_int n ≡ some s → 0 < s
unfolding float_of_int
float_of_int-pos n s h e =
    let p : 0 < round_at n (excess_bits 1024 n) = round_at-pos n _ (excess_bits-pos 1024 n h) in
    let q : 0 < 2 ^ 1074 = omega arith in
    let r : 0 < round_at n (excess_bits 1024 n) * 2 ^ 1074 = mul-pos p q in ground arith

seconds-IsPositive : (o : Option Value) → deadline_problems o ≡ some [] → IsPositive (seconds_of o)
unfolding deadline_problems seconds_of
seconds-IsPositive none h = tt
seconds-IsPositive (some (int (pos n))) h = elim (Option-cases (float_of_int n)) [
  | inl e ↦ rw e tt
  | inr (s, e) ↦ rw e (float_of_int-pos n s (ground arith) e)
]
seconds-IsPositive (some (float (finite (pos n)))) h = ground arith
seconds-IsPositive (some _) h = ground arith

with_late-eq-nil :
    (early : List Text) (late : Option (List Text))
    → with_late early late ≡ some []
    → (early ≡ []) × (late ≡ some [])
unfolding with_late
with_late-eq-nil early none h = cc
with_late-eq-nil early (some late) h =
    let parts = append-eq-nil early late (some-injective _ _ h) in (parts.0, ap some parts.1)

module _ (data' : Value.Fields) (clean : field_problems data' ≡ some []) where
  deadline-clean : deadline_problems (get data' (txt "deadline_seconds")) ≡ some []
  unfolding field_problems
  deadline-clean = (with_late-eq-nil _ _ clean).1

  early-clean : early_problems data' ≡ []
  unfolding field_problems
  early-clean = (with_late-eq-nil _ _ clean).0

  -- A mapping in which no problem is found is read as a valid contract.
  pub build-IsValid : IsValid (build data')
  unfolding build early_problems
  build-IsValid =
      let (id, rest) = append-eq-nil _ _ early-clean in
      let (task, rest2) = append-eq-nil _ _ rest in
      let (writable, rest3) = append-eq-nil _ _ rest2 in
      let (command, rest4) = append-eq-nil _ _ rest3 in
      let (preserve, rest5) = append-eq-nil _ _ rest4 in
      let (checks, rest6) = append-eq-nil _ _ rest5 in
      let (turns, tokens) = append-eq-nil _ _ rest6 in
      record {
        id = required-nonblank _ _ _ id;
        task = required-nonblank _ _ _ task;
        writable_paths = paths-nonblank _ _ _ writable;
        test_command = command-nonblank _ command;
        preserve = paths-nonblank _ _ _ preserve;
        checks = paths-nonblank _ _ _ checks;
        turn_budget = limit-IsPositive _ _ turns;
        token_budget = limit-IsPositive _ _ tokens;
        deadline_seconds = seconds-IsPositive _ deadline-clean;
      }
