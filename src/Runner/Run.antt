-- ===== src/Runner/Run.antt =====
-- `command_matches`, `restore_carried`, `_run_once` and `run_tests` of src/satyrn_engine/runner.py.
pub mod Steps
pub mod Summary
use satyrn_engine.Prelude.Text.{
  trim, text_lines, Text, Bytes, txt, eq_text, eq_text_iff, contains, starts_with, split, join,
  utf8, utf8_size, encodable, has, strip,
}
use satyrn_engine.Prelude.Int.{ℤ, pos, negsuc, is_zero}
use satyrn_engine.Prelude.{
  ℕ, zero, suc, ◌+◌, ◌-◌, ◌*◌, ◌≤◌, ◌<◌, min, max, ◌≡◌, ◌≢◌, ◌↔◌, refl, sym, ap, subst, ◌∙◌, ◌⊎◌,
  inl, inr, Bool, true, false, not, ◌&&◌, ◌||◌, Option, none, some, is_some, List, [], ◌∷◌, ◌++◌,
  map, append-nil, append_assoc, arith, tests, ltb, leb, ◌==◌, if◌then◌else◌, Bool-cases,
  Option-cases, length, take, drop, is_empty, all_of, any_of, keep, length-append, length-take-le,
  ltb→lt, lt→ltb, ltb→le, leb→le, ==_iff,
}
use satyrn_engine.Contract.Fields.{Contract}
use satyrn_engine.Runner.Carried.{select_carried}
use satyrn_engine.Runner.Compact.{compact_output}
use satyrn_engine.Runner.Output.{tail_output}
use satyrn_engine.Runner.Receipt.{RunnerCode, RunnerReceipt, RunnerResult, refusal}

-- How `subprocess.run` ends for a test command; `escaped` is an exception of another class.
pub data Spawned : Type 0 where
  completed : ℤ → Bytes → Spawned
  expired : Option Bytes → Spawned
  not_started : Text → Spawned
  escaped : Spawned

-- What runner.py calls outside the repository. `git` gives the return code and the standard output, or
-- `none` where it raises.
pub record Machine : Type 1 where
  pub World : Type 0
  pub Seconds : Type 0
  pub monotonic : World → Seconds × World
  -- `timeout - (now - started)` and `max(timeout, 0.1)`
  pub remaining : Seconds → Seconds → Seconds → Seconds
  pub at_least_tenth : Seconds → Seconds
  pub git : Text → List Text → World → Option (ℤ × Bytes) × World
  pub spawn : Text → List Text → Seconds → World → Spawned × World
  pub decode_replace : Bytes → Text
  pub show_argv : List Text → Text
  pub is_block : Text → Bool
  pub is_summary : Text → Bool

-- A test command that ran, and what `_run_once` returned of it
pub record Execution : Type 0 where
  pub argv : List Text
  pub exit_code : ℤ
  pub output : Text
  pub truncated : Bool
  pub timed_out : Bool

-- The commands that ran, in their order, stand in the log.
pub record Sys (machine : Machine) : Type 0 where
  pub world : Machine.World machine
  pub log : List Execution

-- `command.strip() == " ".join(declared)`
unfoldable pub command_matches : Text → List Text → Bool
command_matches command declared = eq_text (trim command) (join (txt " ") declared)

pub record CarriedRestore : Type 0 where
  pub paths : List Text
  pub refusal : Option Text

-- The variables of the loop in `run_tests`
pub record Loop : Type 0 where
  pub exit_code : ℤ
  pub exit_code_set : Bool
  pub outputs : List Text
  pub truncated : Bool
  pub timed_out : Bool

-- What the loop comes to: its variables, or the receipt that is returned in it, or an exception.
pub data Progress : Type 0 where
  all_run : Loop → Progress
  returned : RunnerReceipt → Progress
  crashed : Progress

-- What `_run_once` comes to: it returns, or raises an `OSError` or another exception.
pub data Ran : Type 0 where
  ran : Execution → Ran
  os_error : Text → Ran
  raised : Ran

unfoldable pub runs_of : Contract → List Text → List (List Text)
runs_of contract paths =
    let present_preserve = keep (λ p. contains p paths) contract.preserve in
    let present_checks = keep (λ p. contains p paths) contract.checks in
    contract.test_command
    ∷ ((if is_empty present_preserve then [] else (contract.test_command ++ present_preserve) ∷ [])
        ++ (if is_empty present_checks then [] else (contract.test_command ++ present_checks) ∷ []))

unfoldable pub begin : Loop
begin = record {
  exit_code = pos 0;
  exit_code_set = false;
  outputs = [];
  truncated = false;
  timed_out = false;
}

-- The body of the loop after `_run_once`
unfoldable pub note : Loop → Execution → Loop
note loop e =
    let first = not loop.exit_code_set && not (is_zero e.exit_code) in
    record {
      exit_code = if first then e.exit_code else loop.exit_code;
      exit_code_set = if first then true else loop.exit_code_set;
      outputs = loop.outputs ++ e.output ∷ [];
      truncated = loop.truncated || e.truncated;
      timed_out = loop.timed_out || e.timed_out;
    }

abbrev pub concat : List Text → Text
concat [] = []
concat (t ∷ ts) = t ++ concat ts

unfoldable pub finish : Loop → RunnerReceipt
finish loop =
    let output = concat loop.outputs in
    record {
      code = RunnerCode.ok;
      message = [];
      result = some (record {
        exit_code = loop.exit_code;
        output = output;
        truncated = loop.truncated;
        timed_out = loop.timed_out;
        compact_bytes = length (utf8 output);
      });
    }

-- What is returned of an end of `subprocess.run`
execution :
    (Bytes → Text) → (Text → Bool) → (Text → Bool) → List Text → ℤ → Bytes → Bool → Execution
execution decode_replace is_block is_summary argv exit_code output timed_out =
    let (text, truncated) = tail_output decode_replace output in
    record {
      argv = argv;
      exit_code = exit_code;
      output = compact_output is_block is_summary text;
      truncated = truncated;
      timed_out = timed_out;
    }

abbrev captured : Option Bytes → Bytes
captured none = []
captured (some b) = b

abbrev with_ran : List Execution → Ran → List Execution
with_ran log (ran e) = log ++ e ∷ []
with_ran log _ = log

checked_out : Text → List Text → Option (ℤ × Bytes) → Option CarriedRestore
checked_out base present none = none
checked_out base present (some (code, output)) =
    if is_zero code
    then some (record { paths = present; refusal = none })
    else some (record {
      paths = [];
      refusal = some (txt "carried tests could not be restored from base " ++ base);
    })

-- `base_commit or "HEAD"`
base_of : Option Text → Text
base_of none = txt "HEAD"
base_of (some t) = if is_empty t then txt "HEAD" else t

receipt_of : Progress → Option RunnerReceipt
unfolding finish
receipt_of (all_run loop) = some (finish loop)
receipt_of (returned receipt) = some receipt
receipt_of crashed = none

-- `command is not None and not command_matches(command, declared)`
pub forbidden : Option Text → List Text → Bool
unfolding command_matches
forbidden none declared = false
forbidden (some command) declared = not (command_matches command declared)

module _ (machine : Machine) where
  unfoldable pub ran_of : List Text → Spawned → Ran
  unfolding execution
  ran_of argv (completed code output) =
      ran (
        execution machine.decode_replace machine.is_block machine.is_summary argv code output false)
  ran_of argv (expired output) = ran (
      execution machine.decode_replace machine.is_block machine.is_summary argv (negsuc 0)
        (captured output) true)
  ran_of argv (not_started e) = os_error e
  ran_of argv escaped = raised

  -- `_run_once`
  unfoldable pub run_once :
      List Text → Text → Machine.Seconds machine → Sys machine → Ran × Sys machine
  unfolding ran_of
  run_once argv repo timeout s =
      let (end, w) = machine.spawn repo argv (machine.at_least_tenth timeout) s.world in
      let r = ran_of argv end in (r, record { world = w; log = with_ran s.log r })

  -- `for argv in runs`
  pub run_all :
      Text
      → Machine.Seconds machine
      → Machine.Seconds machine
      → List (List Text)
      → Loop
      → Sys machine
      → Progress × Sys machine
  unfolding run_once note
  run_all repo timeout started [] loop s = (all_run loop, s)
  run_all repo timeout started (argv ∷ runs) loop s =
      let (now, w) = machine.monotonic s.world in
      let (r, s') =
        run_once argv repo (machine.remaining timeout started now) (record s { world = w }) in
      elim r [
        | ran e ↦ elim e.timed_out [
          | true ↦ (all_run (note loop e), s')
          | false ↦ run_all repo timeout started runs (note loop e) s'
        ]
        | os_error t ↦ (
          returned (
              refusal RunnerCode.test_command_unavailable
                (txt "cannot run test command " ++ (machine.show_argv argv ++ (txt ": " ++ t)))),
          s',
        )
        | raised ↦ (crashed, s')
      ]

  tracked_at : Option Text → Option (ℤ × Bytes) → Option (Option (List Text))
  tracked_at base_commit none = none
  tracked_at base_commit (some (code, output)) =
      if is_zero code
      then some (some (text_lines (machine.decode_replace output)))
      else if is_some base_commit
      then some none
      else some (some [])

  restore_present :
      Text
      → Text
      → List Text
      → Machine.World machine
      → Option CarriedRestore × Machine.World machine
  unfolding checked_out
  restore_present repo base present w =
      if is_empty present
      then (some (record { paths = []; refusal = none }), w)
      else let (r, w') = machine.git repo (txt "checkout" ∷ base ∷ txt "--" ∷ present) w in
        (checked_out base present r, w')

  after_listing :
      Text
      → Contract
      → Text
      → Option (Option (List Text))
      → Machine.World machine
      → Option CarriedRestore × Machine.World machine
  unfolding restore_present
  after_listing repo contract base none w = (none, w)
  after_listing repo contract base (some none) w = (
    some (record {
      paths = [];
      refusal = some (txt "carried tests could not be read from base " ++ base);
    }),
    w,
  )
  after_listing repo contract base (some (some tracked)) w =
      restore_present repo base (select_carried contract tracked) w

  -- `restore_carried`
  unfoldable pub restore_carried :
      Text
      → Contract
      → Option Text
      → Machine.World machine
      → Option CarriedRestore × Machine.World machine
  unfolding tracked_at after_listing base_of
  restore_carried repo contract base_commit w =
      let base = base_of base_commit in
      let (r, w') = machine.git repo (txt "ls-tree" ∷ txt "-r" ∷ txt "--name-only" ∷ base ∷ []) w in
      after_listing repo contract base (tracked_at base_commit r) w'

  run_carried :
      Text
      → Contract
      → Machine.Seconds machine
      → List Text
      → Option Text
      → Sys machine
      → Option RunnerReceipt × Sys machine
  unfolding run_all receipt_of begin runs_of
  run_carried repo contract timeout paths (some message) s =
      (some (refusal RunnerCode.test_command_unavailable message), s)
  run_carried repo contract timeout paths none s =
      let (started, w) = machine.monotonic s.world in
      let (progress, s') =
        run_all repo timeout started (runs_of contract paths) begin (record s { world = w }) in
      (receipt_of progress, s')

  run_restored :
      Text
      → Contract
      → Machine.Seconds machine
      → Option CarriedRestore
      → Sys machine
      → Option RunnerReceipt × Sys machine
  unfolding run_carried
  run_restored repo contract timeout none s = (none, s)
  run_restored repo contract timeout (some restore) s =
      run_carried repo contract timeout restore.paths restore.refusal s

  -- `run_tests`; `none` is an exception that escapes.
  unfoldable pub run_tests :
      Text
      → Contract
      → Option Text
      → Option Text
      → Machine.Seconds machine
      → Sys machine
      → Option RunnerReceipt × Sys machine
  unfolding forbidden restore_carried run_restored
  run_tests repo contract command base_commit timeout s =
      if is_empty contract.test_command
      then (
        some (
            refusal RunnerCode.test_command_unavailable
              (txt "contract does not declare a test_command")),
        s,
      )
      else if forbidden command contract.test_command
      then (
        some (
            refusal RunnerCode.test_command_not_allowed (
              txt "only this exact command is allowed: \""
              ++ (join (txt " ") contract.test_command ++ txt "\""))),
        s,
      )
      else (let (restore, w) = restore_carried repo contract base_commit s.world in
          run_restored repo contract timeout restore (record s { world = w }))
