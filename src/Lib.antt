-- ===== src/Lib.antt =====
-- A verification library for satyrn-engine, the program under src/satyrn_engine: it checks a contract,
-- runs an implementer's command in an isolated Git worktree, turns what it left into a candidate commit,
-- validates that commit, and publishes it under a ref. While the implementer works, a protocol of one
-- request and one response lets it replace text in the contract's files and run the contract's tests.
--
-- Parts, and the files that model them:
--
--   * exits.py: Exits (`ExitCode`, `int(code)`).
--   * contract.py: Contract (`load_contract`), Contract/Fields (`_field_problems` and the
--     normalisation). The file system and `yaml.safe_load` are the fields of `Files`; an exception that
--     the source does not take is `crashed`.
--   * check.py: Check.
--   * budget.py: Budget (`Budget`, `evaluate`), Budget/Counter (`TurnCounter`; `json.loads` is a
--     parameter, and `none` is an exception that escapes `feed`).
--   * runner.py: Runner/Carried (`select_carried`), Runner/Output (`tail_output`), Runner/Compact
--     (`_explanations`, `compact_output`), Runner/Run (`restore_carried`, `_run_once`, `run_tests`; a
--     `Sys` is the world of a `Machine` and the log of the commands that ran).
--   * mutation.py: Mutation/Path (`normalize_relative_path`), Mutation/Apply (`_apply_replacement`),
--     Mutation/Region (`_post_edit_region`, `_post_edit_regions`), Mutation/Target (`_open_target`,
--     `_prepare_target`, `_atomic_replace`), Mutation/Replace (`replace_once`, `replace_many`). Search has
--     the searches in bytes that Python's `bytes` makes. A file operation is an action of Mutation/Io, on
--     the world of a `Disk` and a log of the descriptors opened, and on what, and closed, the bytes read
--     and written, and the names that took the place of others. Mutation/Io/Moves and Mutation/Io/Hoare
--     have a rule for each way to build an action and, in their Calls, for each call: on the descriptors
--     held, and on what is in the log.
--   * protocol.py: Protocol/Request (`parse_request`), Protocol/Response (the responses, as values),
--     Protocol/Handle (`handle_protocol`, on the worlds of a `Disk` and a `Machine`).
--   * derive.py: Derive/Render (`render_contract`).
--   * delivery.py: Delivery/Codes (the vocabularies and tables), Delivery/Receipt (`DeliveryReceipt`,
--     `_receipt`, `_context_receipt`), Delivery/Calls (`_git` and the questions to Git),
--     Delivery/Preflight (`_preflight`), Delivery/Isolation (`_temporary_parent`), Delivery/Stream
--     (`_stream_implementer`), Delivery/Cleanup (`_teardown_process_group`, `_cleanup_attempt`),
--     Delivery/Run and Delivery/Commit (the two halves of `_run_and_commit`), Delivery/Validate
--     (`_validate_candidate`, `restore_carried_at`), Delivery/Attempt (`_publish`, `_attempt`,
--     `deliver`).
--
-- A delivery is an action of Delivery/Exec: a function from the world, the state of the attempt
-- (`_AttemptState`) and the log of Git commands to an end and the same three. An end is a value, the
-- early return of a receipt, or an exception. What is outside the repository is a field of `Host`
-- (Delivery/Host): Git, processes, files, the clock, the decoders. `World` is the host's own and its
-- calls are functions of it, so a theorem for every host is one for every sequence of answers. Git's
-- commands are data (Delivery/Git) with their command lines, and the log keeps each with its exit code.
-- Delivery/Spec has a rule for each way to build an action; the theorems on what a part can do are
-- searched with these rules, in files beside the part that they are about.
--
-- Numbers and bounds. Python's integers are unbounded, and are naturals where the source has them
-- positive. A duration is a double; it is counted in units of 2 ^ -1074 seconds, in which every finite
-- double is whole, and sums of durations are exact, where the source rounds. The loop over lines in
-- `_consume_chunk` has the length of the waiting bytes and one as fuel: a line takes a byte at least. The
-- loops of `_stream_implementer` and `_teardown_process_group` run over the list of passes that the host
-- says are made.
--
-- The loop of `_post_edit_region` on the byte cap has the lines of context as fuel: a round takes one of
-- them. Any call of a `Disk` that has effects may return, end in an `OSError` or raise another exception;
-- a write is noted with the content that it was called with. The output that a drain of an exited child
-- reads may go on without end (`rest_ends` of a `Pass`). repr, json and the messages of the operating
-- system are parameters.
--
-- Not modelled: the rest of derive.py, attempt.py, cli.py, `run_protocol`, the tools and the TypeScript
-- packages; of delivery.py the JSON of a receipt, the assertions of
-- `__post_init__`, and what is written to stdout and stderr.
pub mod Prelude
pub mod Search
pub mod Mutation
pub mod Exits
pub mod Contract
pub mod Derive
pub mod Check
pub mod Budget
pub mod Delivery
pub mod Examples
pub mod Protocol
pub mod Runner
