-- ===== src/Delivery/Host.antt =====
-- What `deliver` calls outside src/: Git, the process and file system calls of the operating system,
-- the clock, the decoders. All of it is a parameter; nothing is assumed of it here.
use satyrn_engine.Prelude.{ℕ, Bool, Option, List}
use satyrn_engine.Prelude.Int.{ℤ}
use satyrn_engine.Prelude.Text.{Text, Bytes}
use satyrn_engine.Prelude.Value.{Decoded}

abbrev pub Environment : Type 0
Environment = List (Text × Text)

pub record GitResult : Type 0 where
  pub returncode : ℤ
  pub stdout : Bytes
  pub stderr : Bytes

-- `subprocess.run`: a completed process, or an `OSError` with its text.
pub data Ran : Type 0 where
  completed : GitResult → Ran
  os_error : Bytes → Ran

-- `process.wait`: the child ended, the time was up, or a signal's exception came through.
pub data Waited : Type 0 where
  ended expired interrupted : Waited

-- `os.killpg` and `process.kill`
pub data Signalled : Type 0 where
  delivered no_group : Signalled
  refused : Text → Signalled

-- `process.wait(timeout=1.0)` of a child that is to be reaped
pub data ChildWait : Type 0 where
  child_ended child_left : ChildWait
  wait_error : Text → ChildWait

-- One pass of the loop in `_stream_implementer`: the clock, what `poll` says, what `select` says, the
-- chunk read (empty at the end of the stream), the chunks left when the child is drained, whether the
-- output ends after those (a process that the child left behind may hold the pipe), and the clock when
-- a result is built.
pub record Pass : Type 0 where
  pub now : ℕ
  pub exited : Bool
  pub ready : Bool
  pub chunk : Bytes
  pub rest : List Bytes
  pub rest_ends : Bool
  pub later : ℕ

-- `subprocess.Popen` and `communicate` of a test command: it could not start, it ended, its time was
-- up, or a signal's exception came through.
pub data TestRan : Type 0 where
  start_error : Text → TestRan
  test_ended : ℤ → Bytes → TestRan
  test_expired : TestRan
  test_interrupted : TestRan

pub record Host : Type 1 where
  pub World : Type 0
  pub environ : Environment
  pub repr : Text → Text
  pub abspath : Text → Text
  pub fsdecode : Bytes → Text
  pub decode_replace : Bytes → Text
  pub decode_utf8 : Bytes → Option Text
  pub json_loads : Text → Decoded
  pub run_git : Text → Environment → List Text → Option Bytes → World → Ran × World
  pub samefile : Text → Text → World → Bool
  pub realpath : Text → World → Text
  pub is_dir : Text → World → Bool
  pub gettempdir : World → Text
  pub mkdtemp : Text → World → Option Text × World
  pub rmtree : Text → World → Option Text × World
  pub open_spool : Text → World → Option Text × World
  pub popen : List Text → Text → Environment → Bool → World → Option Text × World
  pub returncode : World → Option ℤ
  pub wait : ℕ → World → Waited × World
  pub passes : World → List Pass × World
  pub final_wait : ℕ → World → Waited × World
  pub spool : World → Bytes
  pub terminate_group : World → Signalled × World
  pub kill_group : World → Signalled × World
  pub probe_group : World → Signalled × World
  pub probes : World → List Signalled × World
  pub wait_child : World → ChildWait × World
  pub kill_child : World → Signalled × World
  pub show_int : Option ℤ → Text
  pub show_seconds : ℕ → Text
  pub show_count : ℕ → Text
  pub run_test : List Text → Text → Environment → ℕ → World → TestRan × World
  pub collect_test : World → Bytes × World
  pub repr_list : List Text → Text
  pub monotonic : World → ℕ × World
