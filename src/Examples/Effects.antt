-- ===== src/Examples/Effects.antt =====
-- Theorems of Mutation, Runner and Protocol at concrete inputs.
use satyrn_engine.Prelude.Text.{has, split, encodable, Text, txt, starts_with, utf8_size}
use satyrn_engine.Prelude.{refl, ◌≤◌, ◌≡◌, ◌↔◌, inl, none, some, List, [], ◌∷◌, ◌++◌, arith}
use satyrn_engine.Prelude.Value.{document, dict}
use satyrn_engine.Runner.Run.{restore_carried, run_tests}
use satyrn_engine.Mutation.Path.{is_dots, normalize_relative_path}
use satyrn_engine.Protocol.Request.{
  Reader, ReplaceRequest, parsed, replace_request, parse_request, is_digest,
}
use satyrn_engine.Protocol.Request.WellFormed.{IsWellFormed, parse_request-IsWellFormed}
use satyrn_engine.Protocol.Request.RoundTrip.{payload_of, parse_request-payload_of}
use satyrn_engine.Examples.Sample.{
  revision, sample_disk, sample_machine, sample_reader, sample_services, editing_contract,
}
use satyrn_engine.Mutation.Io.{Sys}
use satyrn_engine.Mutation.Io.Moves.Calls.{IsReliable}
use satyrn_engine.Mutation.Replace.{replace_once, replace_many}
use satyrn_engine.Mutation.Replace.Closing.{AllClosed, replace_closes}
use satyrn_engine.Mutation.Replace.Publishes.{
  Transacts, replace_many-Transacts, replace_once-Transacts,
}
use satyrn_engine.Mutation.Apply.{apply_replacement}
use satyrn_engine.Mutation.Apply.Sound.{Comes, apply_replacement-Comes}
use satyrn_engine.Mutation.Path.Safe.{IsSafe, normalize_iff}
use satyrn_engine.Mutation.Region.{balanced_grow, balanced_shrink, post_edit_regions}
use satyrn_engine.Mutation.Region.Balance.{
  Divides, Shrinks, balanced_grow-Divides, balanced_shrink-Shrinks,
}
use satyrn_engine.Mutation.Region.Bound.{Ignores, region_bound, post_edit_regions-le}
use satyrn_engine.Runner.Compact.{explanations}
use satyrn_engine.Runner.Compact.Explain.{
  of_block, of_blocks, block_body, later_blocks, explanations-of_blocks,
}
use satyrn_engine.Runner.Run.Summary.{Reports, Permitted, run_tests-Reports, run_tests-Permitted}
use satyrn_engine.Protocol.Handle.{handle, handle_protocol}
use satyrn_engine.Protocol.Handle.Agree.{ReplyAgrees, handle-ReplyAgrees}
use satyrn_engine.Protocol.Handle.Effects.{Permits, handle_protocol-Permits}
use satyrn_engine.Mutation.Io.Hoare.{seen}
use satyrn_engine.Mutation.Io
use satyrn_engine.Runner.Run

abbrev empty_disk : satyrn_engine.Mutation.Io.Sys sample_disk
empty_disk = record { world = 0; log = [] }

abbrev empty_machine : satyrn_engine.Runner.Run.Sys sample_machine
empty_machine = record { world = 0; log = [] }

abbrev two_edits : List (Text × Text)
two_edits = (txt "1", txt "2") ∷ (txt "x", txt "y") ∷ []

replace_many-Transacts_example :
    Transacts sample_disk (txt "/repo") editing_contract (txt "a.py") (some revision) two_edits (
      replace_many sample_disk
        (txt "/repo")
        editing_contract
        (txt "a.py")
        (some revision)
        two_edits
        empty_disk)
replace_many-Transacts_example =
    replace_many-Transacts sample_disk (txt "/repo") editing_contract (txt "a.py") (some revision) 0
      two_edits

replace_once-Transacts_example :
    Transacts sample_disk
      (txt "/repo")
      editing_contract
      (txt "a.py")
      (some revision)
      ((txt "1", txt "2") ∷ [])
      (replace_once sample_disk
        (txt "/repo")
        editing_contract
        (txt "a.py")
        (some revision)
        (txt "1")
        (txt "2")
        empty_disk)
replace_once-Transacts_example =
    replace_once-Transacts sample_disk (txt "/repo") editing_contract (txt "a.py") (some revision) 0
      (txt "1") (txt "2")

sample_reliable : IsReliable sample_disk
sample_reliable = record {
  closes_all = λ fd w. refl;
  opens_all = λ fd w. refl;
  stats = λ fd w. refl;
  reads = λ fd w. refl;
}

replace_closes_example :
    AllClosed (
      replace_once sample_disk
        (txt "/repo")
        editing_contract
        (txt "a.py")
        (some revision)
        (txt "1")
        (txt "2")
        empty_disk)
    × AllClosed (
        replace_many sample_disk
          (txt "/repo")
          editing_contract
          (txt "a.py")
          (some revision)
          two_edits
          empty_disk)
replace_closes_example =
    replace_closes sample_disk (txt "/repo") editing_contract (txt "a.py") (some revision) (txt "1")
      (txt "2") two_edits 0 sample_reliable

apply_replacement-Comes_example :
    Comes
      (txt "x = 1")
      (txt "1")
      (txt "2")
      (apply_replacement (λ n. txt "1") (λ t. []) (txt "x = 1") (txt "a.py") (txt "1") (txt "2"))
apply_replacement-Comes_example =
    apply_replacement-Comes (λ n. txt "1") (λ t. []) (txt "x = 1") (txt "a.py") (txt "1") (txt "2")

normalize_iff_example :
    (normalize_relative_path (txt "src/a.py") ≡ inl (txt "src/a.py"))
    ↔ (IsSafe (txt "src/a.py") × (txt "src/a.py" ≡ txt "src/a.py"))
normalize_iff_example = normalize_iff (txt "src/a.py") (txt "src/a.py")

balanced_grow-Divides_example : Divides 4 3 3 (balanced_grow 4 3 3)
balanced_grow-Divides_example = balanced_grow-Divides 4 3 3

balanced_shrink-Shrinks_example : Shrinks 2 3 3 (balanced_shrink 3 3 2)
balanced_shrink-Shrinks_example = balanced_shrink-Shrinks 3 3 2

nothing_left : Ignores (λ b. [])
unfolding utf8_size
nothing_left b = omega arith

post_edit_regions-le_example :
    utf8_size (
      post_edit_regions
        (λ n. txt "1")
        (λ b. [])
        (txt "x = 1")
        (txt "x = 2")
        (txt "x = 2")
        ((4, txt "2") ∷ []))
    ≤ region_bound
post_edit_regions-le_example =
    post_edit_regions-le (λ n. txt "1") (λ b. []) (txt "x = 1") (txt "x = 2") (txt "x = 2")
      ((4, txt "2") ∷ []) nothing_left

abbrev traceback : List Text
traceback = txt "___ test_a ___" ∷ txt "E  assert" ∷ txt "E  where" ∷ []

explanations-of_blocks_example :
    explanations (λ l. starts_with l (txt "___")) traceback
    ≡ of_block none (block_body (λ l. starts_with l (txt "___")) traceback)
      ++ of_blocks (later_blocks (λ l. starts_with l (txt "___")) traceback)
explanations-of_blocks_example = explanations-of_blocks (λ l. starts_with l (txt "___")) traceback

run_tests-Reports_example :
    Reports editing_contract
      (restore_carried sample_machine (txt "/repo") editing_contract none 0).0
      (run_tests sample_machine (txt "/repo") editing_contract none none 120 empty_machine).0
      (run_tests sample_machine (txt "/repo") editing_contract none none 120 empty_machine).1.log
run_tests-Reports_example =
    run_tests-Reports sample_machine (txt "/repo") editing_contract none none 120 0

run_tests-Permitted_example :
    Permitted editing_contract
      (some (txt " pytest "))
      (run_tests sample_machine
        (txt "/repo")
        editing_contract
        (some (txt " pytest "))
        none
        120
        empty_machine).1.log
run_tests-Permitted_example =
    run_tests-Permitted sample_machine (txt "/repo") editing_contract (some (txt " pytest ")) none
      120 0

handle-ReplyAgrees_example :
    ReplyAgrees
      (handle sample_services
        (txt "{...}")
        (record { disk = empty_disk; machine = empty_machine })).0
handle-ReplyAgrees_example =
    handle-ReplyAgrees sample_services (txt "{...}")
      (record { disk = empty_disk; machine = empty_machine })

handle_protocol-Permits_example :
    (let s' =
        (handle_protocol sample_services
          (txt "{...}")
          (record { disk = empty_disk; machine = empty_machine })).1 in
      Permits sample_services
        (parse_request sample_reader (txt "{...}"))
        (seen s'.disk.log)
        s'.machine.log)
handle_protocol-Permits_example = handle_protocol-Permits sample_services 0 0 (txt "{...}")

normal_sample : normalize_relative_path (txt "a.py") ≡ inl (txt "a.py")
unfolding normalize_relative_path txt split is_dots starts_with has
normal_sample = refl

abbrev sample_request : ReplaceRequest
sample_request = record {
  repo = txt "/repo";
  contract = txt "/c.yaml";
  path = txt "a.py";
  expected_sha256 = some revision;
  replacements = (txt "1", txt "2") ∷ [];
}

-- A reader that reads that request
abbrev request_reader : Reader
request_reader = record sample_reader {
  json_loads = λ t. document (dict (payload_of sample_request));
}

sample_request-IsWellFormed : IsWellFormed request_reader sample_request
unfolding txt split is_digest encodable starts_with
sample_request-IsWellFormed = record {
  absolute_repo = refl;
  absolute_contract = refl;
  safe_path = ((normalize_iff (txt "a.py") (txt "a.py")).0 normal_sample).0;
  encodable_path = refl;
  revision = refl;
  some_replacement = refl;
  pairs = ((refl, refl, refl), tt);
}

parse_request-payload_of_example :
    parse_request request_reader (txt "{...}") ≡ parsed (replace_request sample_request)
unfolding txt encodable
parse_request-payload_of_example =
    parse_request-payload_of request_reader (txt "{...}") (txt "{...}") sample_request refl refl
      sample_request-IsWellFormed (refl, refl) (refl, refl) refl refl refl

parse_request-IsWellFormed_example : IsWellFormed request_reader sample_request
parse_request-IsWellFormed_example =
    parse_request-IsWellFormed request_reader (txt "{...}") sample_request
      parse_request-payload_of_example
