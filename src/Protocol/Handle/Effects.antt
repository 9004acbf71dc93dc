-- ===== src/Protocol/Handle/Effects.antt =====
-- What a request may do to the files and which commands it may run.
use satyrn_engine.Prelude.{
  ◌≡◌, refl, subst, ◌⊎◌, inl, inr, true, Option, none, some, List, [], arith, Bool-cases,
}
use satyrn_engine.Prelude.Text.{Text, Bytes}
use mathlib.Core.Option.{some-injective}
use satyrn_engine.Check.Verdict.{Means, check-Means}
use satyrn_engine.Protocol.Handle.{
  replace_accepted, replace_checked, test_accepted, test_checked, handle_request, accepted,
  Services, State, Reply, handle, handle_protocol,
}
use satyrn_engine.Mutation.Target.Site.{Unpublished, publishes}
use satyrn_engine.Mutation.Replace.Commit.{Committed}
use satyrn_engine.Mutation.Replace.Publishes.{Transacts, replace_many-Transacts}
use satyrn_engine.Mutation.Replace.Rewrites.{Rewrites}
use satyrn_engine.Mutation.Io.{Event, Disk, Res, value, os_error, raised}
use satyrn_engine.Mutation.Io.Hoare.{seen}
use satyrn_engine.Runner.Run.{Execution, Machine}
use satyrn_engine.Runner.Run.Summary.{Permitted, run_tests-Permitted}
use satyrn_engine.Contract.Fields.Valid.{IsValid}
use satyrn_engine.Exits.{ExitCode}
use satyrn_engine.Check.{CheckResult, check}
use satyrn_engine.Contract.{Files}
use satyrn_engine.Contract.Fields.{Contract}
use satyrn_engine.Mutation.Receipt.{MutationReceipt}
use satyrn_engine.Mutation.Replace.{replace_many}
use satyrn_engine.Protocol.Request.{
  Parsed, parsed, protocol_error, crashed, ProtocolRequest, check_request, replace_request,
  run_tests_request, ReplaceRequest, RunTestsRequest, parse_request,
}
use satyrn_engine.Mutation.Io
use satyrn_engine.Exits

-- A contract that `check` accepts
pub record Checked (files : Files) (repo path : Text) : Type 0 where
  pub result : CheckResult
  pub contract : Contract
  pub checked : check files repo path ≡ some result
  pub is_accepted : accepted result ≡ some contract
  pub valid : IsValid contract
  pub directory : files.is_dir repo ≡ true

is_ok_sound : (code : ExitCode) → satyrn_engine.Exits.is_ok code ≡ true → code ≡ ExitCode.ok
is_ok_sound code h = ground arith

ok-IsValid :
    (files : Files) (repo : Text) (found : Option Contract) (c : Contract)
    → Means files repo ExitCode.ok found
    → found ≡ some c
    → IsValid c × (files.is_dir repo ≡ true)
ok-IsValid files repo none c h e = cc
ok-IsValid files repo (some found) c h e =
    subst (λ x. IsValid x × (files.is_dir repo ≡ true)) (some-injective found c e) h

accepted-IsValid :
    (files : Files) (repo : Text) (r : CheckResult) (c : Contract)
    → Means files repo r.code r.contract
    → accepted r ≡ some c
    → IsValid c × (files.is_dir repo ≡ true)
unfolding accepted
accepted-IsValid files repo r c h a = elim (Bool-cases (satyrn_engine.Exits.is_ok r.code)) [
  | inl o ↦
      ok-IsValid files repo r.contract c
        (subst (λ code. Means files repo code r.contract) (is_ok_sound r.code o) h) (rw o at a)
  | inr o ↦ let n : none ≡ some c = rw o at a in cc
]

abbrev accepted-Checked :
    (files : Files) (repo path : Text) (r : CheckResult) (c : Contract)
    → check files repo path ≡ some r
    → accepted r ≡ some c
    → Checked files repo path
accepted-Checked files repo path r c h a =
    let v = accepted-IsValid files repo r c (check-Means files repo path r h) a in
    record { result = r; contract = c; checked = h; is_accepted = a; valid = v.0; directory = v.1 }

-- Nothing is published and no command is run; or the request is a replacement and its file is published
-- as `replace_many` may do it for a contract that was accepted; or the request is a test run, and the
-- commands are those of a contract that was accepted.
abbrev pub Permits :
    (services : Services) → Parsed ProtocolRequest → List Event → List Execution → Type 0
Permits services p events commands =
    (Unpublished events × (commands ≡ []))
    ⊎ (((request : ReplaceRequest) × (p ≡ parsed (replace_request request))
          × (c : Checked services.files request.repo request.contract) × Committed services.disk
              request.repo (Checked.contract c) request.path request.expected_sha256
              (Rewrites request.replacements) events
          × (commands ≡ []))
        ⊎ ((request : RunTestsRequest) × (p ≡ parsed (run_tests_request request))
            × (c : Checked services.files request.repo request.contract) × (events ≡ [])
            × Permitted (Checked.contract c) request.command commands))

module _ (services : Services) (d : Disk.World (Services.disk services))
    (m : Machine.World (Services.machine services)) where
  abbrev start : State services
  start = record { disk = record { world = d; log = [] }; machine = record { world = m; log = [] } }

  abbrev AfterPermits : Parsed ProtocolRequest → Option Reply × State services → Type 0
  AfterPermits p r = Permits services p (seen r.1.disk.log) r.1.machine.log

  Transacts-Permits :
      (request : ReplaceRequest) (c : Checked services.files request.repo request.contract)
      (r : Res MutationReceipt × satyrn_engine.Mutation.Io.Sys services.disk)
      → Transacts services.disk request.repo
          (Checked.contract c)
          request.path
          request.expected_sha256
          request.replacements
          r
      → Permits services (parsed (replace_request request)) (seen r.1.log) []
  Transacts-Permits request c (value receipt, s) (inl r) = inl (r.1, refl)
  Transacts-Permits request c (value receipt, s) (inr r) = inr (inl (request, refl, c, r.0, refl))
  Transacts-Permits request c (os_error e, s) (inl u) = inl (u, refl)
  Transacts-Permits request c (os_error e, s) (inr t) = inr (inl (request, refl, c, t, refl))
  Transacts-Permits request c (raised, s) (inl u) = inl (u, refl)
  Transacts-Permits request c (raised, s) (inr t) = inr (inl (request, refl, c, t, refl))

  replace_accepted-Permits :
      (request : ReplaceRequest) (checked : CheckResult) (c : Option Contract)
      → check services.files request.repo request.contract ≡ some checked
      → accepted checked ≡ c
      → AfterPermits
          (parsed (replace_request request))
          (replace_accepted services request checked c start)
  unfolding replace_accepted seen publishes
  replace_accepted-Permits request checked none h a = inl (refl, refl)
  replace_accepted-Permits request checked (some contract) h a =
      Transacts-Permits request
        (accepted-Checked services.files request.repo request.contract checked contract h a)
        (replace_many services.disk request.repo contract request.path request.expected_sha256
          request.replacements (record { world = d; log = [] }))
        (replace_many-Transacts services.disk request.repo contract request.path
          request.expected_sha256 d request.replacements)

  replace_checked-Permits :
      (request : ReplaceRequest) (c : Option CheckResult)
      → check services.files request.repo request.contract ≡ c
      → AfterPermits (parsed (replace_request request)) (replace_checked services request c start)
  unfolding replace_checked seen publishes
  replace_checked-Permits request none h = inl (refl, refl)
  replace_checked-Permits request (some checked) h =
      replace_accepted-Permits request checked (accepted checked) h refl

  test_accepted-Permits :
      (request : RunTestsRequest) (checked : CheckResult) (c : Option Contract)
      → check services.files request.repo request.contract ≡ some checked
      → accepted checked ≡ c
      → AfterPermits
          (parsed (run_tests_request request))
          (test_accepted services request checked c start)
  unfolding test_accepted seen publishes
  test_accepted-Permits request checked none h a = inl (refl, refl)
  test_accepted-Permits request checked (some contract) h a = inr (
      inr (
        request,
        refl,
        accepted-Checked services.files request.repo request.contract checked contract h a,
        refl,
        run_tests-Permitted services.machine request.repo contract request.command
            request.base_commit services.default_test_timeout m,
      ))

  test_checked-Permits :
      (request : RunTestsRequest) (c : Option CheckResult)
      → check services.files request.repo request.contract ≡ c
      → AfterPermits (parsed (run_tests_request request)) (test_checked services request c start)
  unfolding test_checked seen publishes
  test_checked-Permits request none h = inl (refl, refl)
  test_checked-Permits request (some checked) h =
      test_accepted-Permits request checked (accepted checked) h refl

  handle_request-Permits :
      (p : Parsed ProtocolRequest) → AfterPermits p (handle_request services p start)
  unfolding handle_request seen publishes
  handle_request-Permits (protocol_error message) = inl (refl, refl)
  handle_request-Permits crashed = inl (refl, refl)
  handle_request-Permits (parsed (check_request repo contract)) = inl (refl, refl)
  handle_request-Permits (parsed (replace_request request)) = replace_checked-Permits request _ refl
  handle_request-Permits (parsed (run_tests_request request)) = test_checked-Permits request _ refl

-- A request has effects only as one of two operations. A file is published only for a replacement request
-- that parses, with a contract that `check` accepts, and it is the file of the request's path in the
-- request's repository, as `replace_many` may publish it: opened one directory after the other from the
-- resolved root, declared, read there with the revision expected, and given the bytes that were written
-- to a temporary file of that directory, those of the replacements. A command is run only for a test
-- request that parses, with a contract that `check` accepts, and it is that contract's own.
pub handle_protocol-Permits :
    (services : Services) (d : Disk.World (Services.disk services))
    (m : Machine.World (Services.machine services)) (data' : Bytes)
    → (let s' =
          (handle_protocol services data' (record {
            disk = record { world = d; log = [] };
            machine = record { world = m; log = [] };
          })).1 in
        Permits services (parse_request services.reader data') (seen s'.disk.log) s'.machine.log)
unfolding handle_protocol handle
handle_protocol-Permits services d m data' = handle_request-Permits services d m _
