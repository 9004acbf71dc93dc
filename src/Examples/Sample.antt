-- ===== src/Examples/Sample.antt =====
-- A host on which a delivery succeeds, and the values that it is given.
use satyrn_engine.Prelude.Value
use satyrn_engine.Prelude.Value.{
  int, list, cons, nil, str, dict, document, decode_error, field, end,
}
use satyrn_engine.Prelude.{
  false, suc, ◌+◌, ◌-◌, max, inl, ◌==◌, ◌&&◌, ℕ, true, Option, none, some, List, [], ◌∷◌,
  if◌then◌else◌,
}
use satyrn_engine.Prelude.Text.{eq_text, starts_with, Text, Bytes, txt, contains}
use satyrn_engine.Prelude.Int.{pos}
use satyrn_engine.Mutation.Io.{Disk, value}
use satyrn_engine.Runner.Run.{Machine}
use satyrn_engine.Protocol.Request.{Reader}
use satyrn_engine.Protocol.Handle.{Services}
use satyrn_engine.Contract.{Files, content}
use satyrn_engine.Contract.Fields.{Contract}
use satyrn_engine.Delivery.Codes.{DeliveryCode}
use satyrn_engine.Delivery.Host.{
  Host, Environment, Ran, completed, ended, no_group, delivered, child_ended, test_ended, Pass,
}
use satyrn_engine.Delivery.Receipt.{DeliveryContext, DeliveryReceipt, context_receipt, plain}
use satyrn_engine.Delivery.Exec.{Sys, absent_confirmed, opened}
use satyrn_engine.Delivery.Preflight.{Request}
use satyrn_engine.Runner.Run

abbrev says : Bytes → Ran
says out = completed (record { returncode = pos 0; stdout = out; stderr = [] })

-- The world is 1 while the worktree is there, and 0 when it is not.
abbrev run_git : Text → Environment → List Text → Option Bytes → ℕ → Ran × ℕ
run_git cwd env line input w =
    if contains (txt "add") line && contains (txt "worktree") line
    then (says [], 1)
    else if contains (txt "remove") line
    then (says [], 0)
    else if contains (txt "list") line
    then (says (if w == 1 then txt "worktree /tmp/a/worktree" else []), w)
    else if contains (txt "commit-tree") line
    then (says (txt "c1"), w)
    else if contains (txt "write-tree") line
    then (says (txt "t1"), w)
    else if contains (txt "diff-tree") line
    then (says (txt "a.py"), w)
    else if contains (txt "symbolic-ref") line
    then (completed (record { returncode = pos 1; stdout = []; stderr = [] }), w)
    else (says (txt "b0"), w)

abbrev pub sample_pass : Pass
sample_pass = record {
  now = 100;
  exited = true;
  ready = true;
  chunk = [];
  rest = [];
  rest_ends = true;
  later = 101;
}

abbrev pub sample_host : Host
sample_host = record {
  World = ℕ;
  environ = [];
  repr = λ t. t;
  abspath = λ t. t;
  fsdecode = λ b. b;
  decode_replace = λ b. b;
  decode_utf8 = λ b. some b;
  json_loads = λ t. decode_error [];
  run_git = run_git;
  samefile = λ a b w. true;
  realpath = λ t w. t;
  is_dir = λ t w. true;
  gettempdir = λ w. txt "/tmp";
  mkdtemp = λ t w. (some (txt "/tmp/a"), w);
  rmtree = λ t w. (none, w);
  open_spool = λ t w. (none, w);
  popen = λ c t e b w. (none, w);
  returncode = λ w. some (pos 0);
  wait = λ t w. (ended, w);
  passes = λ w. (sample_pass ∷ [], w);
  final_wait = λ t w. (ended, w);
  spool = λ w. [];
  terminate_group = λ w. (no_group, w);
  kill_group = λ w. (no_group, w);
  probe_group = λ w. (no_group, w);
  probes = λ w. ([], w);
  wait_child = λ w. (child_ended, w);
  kill_child = λ w. (delivered, w);
  show_int = λ i. txt "0";
  show_seconds = λ n. txt "1.0";
  show_count = λ n. txt "1";
  run_test = λ c t e n w. (test_ended (pos 0) (txt "1 passed"), w);
  collect_test = λ w. ([], w);
  repr_list = λ ts. [];
  monotonic = λ w. (100, w);
}

abbrev pub sample_context : DeliveryContext
sample_context = record {
  repository = txt "/repo";
  root = txt "/repo";
  environment = [];
  contract_id = txt "c";
  base_commit = txt "b0";
  candidate_ref = txt "refs/satyrn/candidates/c";
  test_command = txt "pytest" ∷ [];
  budget = record { turn_limit = some 3; deadline_seconds = none; token_limit = none };
  contract = none;
  size_refusal = none;
}

abbrev pub sample_state : Sys sample_host
sample_state = record {
  world = 0;
  attempt = record {
    parent = txt "/tmp/a";
    worktree = txt "/tmp/a/worktree";
    registration = absent_confirmed;
    parent_exists = true;
    cleanup_gate = opened;
    process_detail = none;
  };
  log = [];
}

abbrev pub sample_receipt : DeliveryReceipt
sample_receipt =
    context_receipt sample_context DeliveryCode.ok (txt "candidate created") (record plain {
      candidate_commit = some (txt "c1");
      changed_paths = some (txt "a.py" ∷ []);
      command_exit = some (pos 0);
    })

abbrev pub sample_request : Request
sample_request = record {
  repository = txt "/repo";
  contract_id = txt "c";
  base = none;
  test_command = [];
  budget = sample_context.budget;
  contract = none;
  size_refusal = none;
}

-- A contract file that says `id: c` and `task: t`, in a directory that is there.
abbrev pub sample_files : Files
sample_files = record {
  read_text = λ path. content (txt "id: c, task: t");
  safe_load = λ t.
      document (dict (field (txt "id") (str (txt "c")) (field (txt "task") (str (txt "t")) end)));
  is_dir = λ path. true;
}

abbrev pub sample_contract : Contract
sample_contract = record {
  id = txt "c";
  task = txt "t";
  writable_paths = [];
  test_command = [];
  turn_budget = none;
  deadline_seconds = none;
  preserve = txt "spec.py" ∷ [];
  checks = txt "check.py" ∷ [];
  token_budget = none;
}

-- A contract that declares a file and a command, and files that hold it
abbrev pub editing_contract : Contract
editing_contract = record sample_contract {
  writable_paths = txt "a.py" ∷ [];
  test_command = txt "pytest" ∷ [];
}

abbrev editing_files : Files
editing_files = record sample_files {
  safe_load = λ t. document (
      dict (
        field (txt "id") (str (txt "c")) (
          field (txt "task") (str (txt "t")) (
            field (txt "writable_paths") (list (cons (str (txt "a.py")) nil))
              (field (txt "test_command") (list (cons (str (txt "pytest")) nil)) end)))));
}

abbrev pub revision : Text
revision = txt "0000000000000000000000000000000000000000000000000000000000000000"

-- A disk with one file, `a.py`, that holds `x = 1`; its world counts the calls that open something.
abbrev pub sample_disk : Disk
sample_disk = record {
  World = ℕ;
  fnmatch = λ path pattern'. eq_text path pattern';
  sha256 = λ b. revision;
  show = λ n. txt "1";
  encode_error = λ t. txt "surrogates not allowed";
  decode_utf8 = λ b. inl b;
  decode_ignore = λ b. [];
  resolve = λ t w. (value t, w);
  open_root = λ t w. (value (3 + w), suc w);
  open_directory = λ d t w. (value (3 + w), suc w);
  open_file = λ d t w. (value (3 + w), suc w);
  create = λ d t w. (value (3 + w), suc w);
  close = λ d w. (value tt, w);
  fstat = λ d w. (value (true, 420), w);
  fdopen = λ d w. (value tt, w);
  read = λ d w. (value (txt "x = 1"), w);
  write = λ d b w. (value tt, w);
  fchmod = λ d mode w. (value tt, w);
  fsync = λ d w. (value tt, w);
  rename = λ d a b w. (value tt, w);
  unlink = λ d t w. (value tt, w);
  token_hex = λ w. (value (txt "0f"), w);
}

-- A machine whose test command fails
abbrev pub sample_machine : Machine
sample_machine = record {
  World = ℕ;
  Seconds = ℕ;
  monotonic = λ w. (w, suc w);
  remaining = λ timeout started now. timeout + started - now;
  at_least_tenth = λ n. max n 1;
  git = λ repo line w. (some (pos 0, txt "spec.py\n"), w);
  spawn = λ repo argv timeout w. (satyrn_engine.Runner.Run.completed (pos 1) (txt "1 failed"), w);
  decode_replace = λ b. b;
  show_argv = λ argv. txt "argv";
  is_block = λ line. starts_with line (txt "___");
  is_summary = λ line. false;
}

-- What `json.loads` gives of a replacement request
abbrev sample_replace : Value.Fields
sample_replace = field (txt "version") (int (pos 1)) (
    field (txt "operation") (str (txt "replace")) (
      field (txt "repo") (str (txt "/repo")) (
        field (txt "contract") (str (txt "/c.yaml")) (
          field (txt "path") (str (txt "a.py")) (
            field (txt "expected_sha256") (str revision) (
              field (txt "old_text") (str (txt "1"))
                (field (txt "new_text") (str (txt "2")) end)))))))

abbrev pub sample_reader : Reader
sample_reader = record {
  decode_utf8 = λ b. inl b;
  json_loads = λ t. document (dict sample_replace);
  as_path = λ t. t;
  is_absolute = λ t. starts_with t (txt "/");
  show_value = λ v. txt "None";
  show = λ n. txt "1";
}

abbrev pub sample_services : Services
sample_services = record {
  reader = sample_reader;
  files = editing_files;
  disk = sample_disk;
  machine = sample_machine;
  default_test_timeout = 120;
  json_dumps = λ v. [];
}
