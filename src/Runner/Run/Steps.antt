-- ===== src/Runner/Run/Steps.antt =====
-- The loop of `run_tests`: its variables and the commands that ran.
use satyrn_engine.Prelude.Text.{Text, utf8}
use satyrn_engine.Prelude.Int.{ℤ, pos, is_zero}
use satyrn_engine.Prelude.{
  ◌≡◌, refl, sym, ap, ◌∙◌, ◌⊎◌, inl, inr, Bool, true, false, not, ◌&&◌, ◌||◌, List, [], ◌∷◌, ◌++◌,
  map, append-nil, append_assoc, arith, if◌then◌else◌, Bool-cases, length, any_of,
}
use satyrn_engine.Runner.Run.{
  crashed, escaped, not_started, expired, completed, raised, os_error, returned, ran, run_all,
  ran_of, all_run, note, concat, Spawned, Machine, Execution, Sys, Loop, Progress, run_once,
}
use satyrn_engine.Runner.Receipt.{is_ok, RunnerResult, refusal}

-- The first exit code that is not zero, or zero
unfoldable pub first_failure : List Execution → ℤ
first_failure [] = pos 0
first_failure (e ∷ es) = if is_zero e.exit_code then first_failure es else e.exit_code

abbrev failed : Execution → Bool
failed e = not (is_zero e.exit_code)

-- The result that the commands of a log call for
unfoldable pub summarise : List Execution → RunnerResult
unfolding first_failure
summarise es =
    let output = concat (map Execution.output es) in
    record {
      exit_code = first_failure es;
      output = output;
      truncated = any_of Execution.truncated es;
      timed_out = any_of Execution.timed_out es;
      compact_bytes = length (utf8 output);
    }

-- The variables of the loop after the commands of a log
abbrev pub so_far : List Execution → Loop
so_far es = record {
  exit_code = first_failure es;
  exit_code_set = any_of failed es;
  outputs = map Execution.output es;
  truncated = any_of Execution.truncated es;
  timed_out = any_of Execution.timed_out es;
}

module _ {A : Type 0} where
  any_of-snoc : (p : A → Bool) (es : List A) (e : A) → any_of p (es ++ e ∷ []) ≡ any_of p es || p e
  any_of-snoc p [] e = ground arith
  any_of-snoc p (x ∷ es) e = ground (arith, any_of-snoc p es e)

map-snoc :
    (es : List Execution) (e : Execution)
    → map Execution.output (es ++ e ∷ []) ≡ map Execution.output es ++ e.output ∷ []
map-snoc [] e = refl
map-snoc (x ∷ es) e = ap (λ l. Execution.output x ∷ l) (map-snoc es e)

first_failure-snoc :
    (es : List Execution) (e : Execution)
    → first_failure (es ++ e ∷ []) ≡ (
        if not (any_of failed es) && not (is_zero e.exit_code)
        then e.exit_code
        else first_failure es)
unfolding first_failure
first_failure-snoc [] e = elim (Bool-cases (is_zero e.exit_code)) [
  | inl z ↦ rw z refl
  | inr z ↦ rw z refl
]
first_failure-snoc (x ∷ es) e = elim (Bool-cases (is_zero x.exit_code)) [
  | inl z ↦ rw z (first_failure-snoc es e)
  | inr z ↦ rw z refl
]

set_after : (a b : Bool) → (if not a && b then true else a) ≡ (a || b)
set_after a b = ground arith

note-so_far : (es : List Execution) (e : Execution) → note (so_far es) e ≡ so_far (es ++ e ∷ [])
unfolding note
note-so_far es e =
    rw
      (
        first_failure-snoc es e,
        any_of-snoc failed es e,
        any_of-snoc Execution.truncated es e,
        any_of-snoc Execution.timed_out es e,
        map-snoc es e,
        set_after (any_of failed es) (failed e),
      )
      refl

-- How the loop ends: with its variables of the whole log, every command run unless one timed out.
abbrev pub End : Progress → List Execution → List (List Text) → Type 0
End (all_run loop) log rest =
    (loop ≡ so_far log) × ((rest ≡ []) ⊎ (any_of Execution.timed_out log ≡ true))
End (returned receipt) log rest = is_ok receipt.code ≡ false
End crashed log rest = Unit {0}

pub record Account (runs : List (List Text)) (log : List Execution) (p : Progress)
    (log' : List Execution) : Type 0 where
  pub new : List Execution
  pub rest : List (List Text)
  pub whole : log' ≡ log ++ new
  pub order : runs ≡ map Execution.argv new ++ rest
  pub end : End p log' rest

timed_out-snoc :
    (log : List Execution) (e : Execution)
    → e.timed_out ≡ true
    → any_of Execution.timed_out (log ++ e ∷ []) ≡ true
timed_out-snoc log e o = ground (arith, any_of-snoc Execution.timed_out log e)

Account-timed_out :
    (argv : List Text) (runs : List (List Text)) (log : List Execution) (e : Execution)
    → e.argv ≡ argv
    → e.timed_out ≡ true
    → Account (argv ∷ runs) log (all_run (note (so_far log) e)) (log ++ e ∷ [])
Account-timed_out argv runs log e a o = record {
  new = e ∷ [];
  rest = runs;
  whole = refl;
  order = ap (λ x. x ∷ runs) (sym a);
  end = (note-so_far log e, inr (timed_out-snoc log e o));
}

Account-next :
    (argv : List Text) (runs : List (List Text)) (log : List Execution) (e : Execution)
    (p : Progress) (log' : List Execution)
    → e.argv ≡ argv
    → Account runs (log ++ e ∷ []) p log'
    → Account (argv ∷ runs) log p log'
Account-next argv runs log e p log' h a = record {
  new = e ∷ a.new;
  rest = a.rest;
  whole = a.whole ∙ append_assoc log (e ∷ []) a.new;
  order = rw (a.order, h) refl;
  end = a.end;
}

module _ (machine : Machine) where
  ran_of-cases :
      (argv : List Text) (sp : Spawned)
      → ((e : Execution) × (ran_of machine argv sp ≡ ran e) × (e.argv ≡ argv))
        ⊎ (((t : Text) × (ran_of machine argv sp ≡ os_error t)) ⊎ (ran_of machine argv sp ≡ raised))
  unfolding ran_of
  ran_of-cases argv (completed code output) = inl (_, refl, refl)
  ran_of-cases argv (expired output) = inl (_, refl, refl)
  ran_of-cases argv (not_started e) = inr (inl (e, refl))
  ran_of-cases argv escaped = inr (inr refl)

  pub run_all-Account :
      (repo : Text) (timeout started : Machine.Seconds machine) (runs : List (List Text))
      (s : Sys machine)
      → (let (p, s') = run_all machine repo timeout started runs (so_far s.log) s in
          Account runs s.log p s'.log)
  unfolding run_all run_once refusal
  run_all-Account repo timeout started [] s = record {
    new = [];
    rest = [];
    whole = rw append-nil refl;
    order = refl;
    end = (refl, inl refl);
  }
  run_all-Account repo timeout started (argv ∷ runs) s =
      let now = machine.monotonic s.world in
      let end =
        machine.spawn repo argv (machine.at_least_tenth (machine.remaining timeout started now.0))
          now.1 in
      elim (ran_of-cases argv end.0) [
        | inl (e, r, a) ↦
            rw (r, run_all, run_once)
              (elim (Bool-cases e.timed_out) [
                | inl o ↦ rw (o, run_all, run_once) (rw r (Account-timed_out argv runs s.log e a o))
                | inr o ↦ rw o (
                    rw (r, note-so_far s.log e)
                      (Account-next argv runs s.log e _ _ a
                        (run_all-Account repo timeout started runs _)))
              ])
        | inr (inl (t, r)) ↦
            rw (r, run_all, run_once)
              (rw r (record {
                new = [];
                rest = argv ∷ runs;
                whole = rw append-nil refl;
                order = refl;
                end = refl;
              }))
        | inr (inr r) ↦
            rw (r, run_all, run_once)
              (rw r (record {
                new = [];
                rest = argv ∷ runs;
                whole = rw append-nil refl;
                order = refl;
                end = tt;
              }))
      ]
