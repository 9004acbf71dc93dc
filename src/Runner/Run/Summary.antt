-- ===== src/Runner/Run/Summary.antt =====
-- A receipt of `run_tests` and the commands that ran for it.
use satyrn_engine.Prelude.{
  ◌≡◌, refl, sym, ap, subst, ◌∙◌, ◌⊎◌, inl, inr, Bool, true, false, ◌||◌, Option, none, some, List,
  [], ◌∷◌, ◌++◌, map, append-nil, arith, Bool-cases, is_empty, all_of, any_of, keep,
}
use satyrn_engine.Prelude.Text.{txt, join, eq_text_iff, trim, eq_text_refl, Text, contains}
use satyrn_engine.Prelude.Sort.{contains-keep}
use satyrn_engine.Runner.Run.{
  restore_carried, command_matches, CarriedRestore, run_tests, run_restored, receipt_of, finish,
  begin, runs_of, run_carried, forbidden, crashed, returned, all_run, Machine, Execution, Progress,
}
use satyrn_engine.Runner.Run.Steps.{summarise, first_failure, so_far, Account, run_all-Account}
use satyrn_engine.Runner.Receipt.{is_ok, RunnerCode, RunnerReceipt, refusal}
use satyrn_engine.Contract.Fields.{Contract}

-- A command of the contract, with files that the contract names behind it
abbrev pub Allowed : Contract → List Text → Type 0
Allowed contract argv =
    (files : List Text) × (argv ≡ contract.test_command ++ files)
    × (all_of (λ p. contains p contract.preserve || contains p contract.checks) files ≡ true)

abbrev pub AllAllowed : Contract → List (List Text) → Type 0
AllAllowed contract [] = Unit {0}
AllAllowed contract (argv ∷ runs) = Allowed contract argv × AllAllowed contract runs

AllAllowed-append :
    (contract : Contract) (xs ys : List (List Text))
    → AllAllowed contract (xs ++ ys)
    → AllAllowed contract xs
AllAllowed-append contract [] ys a = tt
AllAllowed-append contract (x ∷ xs) ys (a, b) = (a, AllAllowed-append contract xs ys b)

all_of-contains :
    (r : Text → Bool) (xs : List Text)
    → ((x : Text) → contains x xs ≡ true → r x ≡ true)
    → all_of r xs ≡ true
all_of-contains r [] h = refl
all_of-contains r (x ∷ xs) h =
    let a = h x (rw (eq_text_refl x) refl) in
    let b = all_of-contains r xs (λ y c. h y (ground (arith, c))) in ground arith

-- What the contract preserves or checks with
abbrev named : Contract → Text → Bool
named contract p = contains p contract.preserve || contains p contract.checks

runs_of-AllAllowed :
    (contract : Contract) (paths : List Text) → AllAllowed contract (runs_of contract paths)
unfolding runs_of
runs_of-AllAllowed contract paths =
    let of_preserve =
      all_of-contains (named contract) (keep (λ p. contains p paths) contract.preserve)
        (λ x c. ground (arith, contains-keep (λ p. contains p paths) x contract.preserve)) in
    let of_checks =
      all_of-contains (named contract) (keep (λ p. contains p paths) contract.checks)
        (λ x c. ground (arith, contains-keep (λ p. contains p paths) x contract.checks)) in
    let first : Allowed contract contract.test_command = ([], sym (append-nil _), refl) in
    elim (Bool-cases (is_empty (keep (λ p. contains p paths) contract.preserve))) [
      | inl a ↦ elim (Bool-cases (is_empty (keep (λ p. contains p paths) contract.checks))) [
        | inl b ↦ rw (a, b) (first, tt)
        | inr b ↦ rw (a, b) (first, ((_, refl, of_checks), tt))
      ]
      | inr a ↦ elim (Bool-cases (is_empty (keep (λ p. contains p paths) contract.checks))) [
        | inl b ↦ rw (a, b) (first, ((_, refl, of_preserve), tt))
        | inr b ↦ rw (a, b) (first, ((_, refl, of_preserve), ((_, refl, of_checks), tt)))
      ]
    ]

-- What a receipt says of the commands that ran, where `paths` are the carried files: it is a refusal, or its
-- result is the summary of them, and they are the first of the runs planned for those files, all of them
-- unless one timed out.
abbrev ReportsOf : Contract → List Text → Option RunnerReceipt → List Execution → Type 0
ReportsOf contract paths none log = Unit {0}
ReportsOf contract paths (some receipt) log =
    (is_ok receipt.code ≡ false)
    ⊎ ((receipt ≡ record { code = RunnerCode.ok; message = []; result = some (summarise log) })
        × (rest : List (List Text)) × (runs_of contract paths ≡ map Execution.argv log ++ rest)
        × ((rest ≡ []) ⊎ (any_of Execution.timed_out log ≡ true)))

-- The same, where the carried files are those that `restored` names: a restoration that was not refused.
abbrev pub Reports :
    Contract → Option CarriedRestore → Option RunnerReceipt → List Execution → Type 0
Reports contract restored none log = Unit {0}
Reports contract restored (some receipt) log =
    (is_ok receipt.code ≡ false)
    ⊎ ((receipt ≡ record { code = RunnerCode.ok; message = []; result = some (summarise log) })
        × (restore : CarriedRestore) × (restored ≡ some restore)
        × (restore.refusal ≡ none)
        × (rest : List (List Text)) × (runs_of contract restore.paths
            ≡ map Execution.argv log ++ rest)
        × ((rest ≡ []) ⊎ (any_of Execution.timed_out log ≡ true)))

ReportsOf-Reports :
    (contract : Contract) (restore : CarriedRestore) (r : Option RunnerReceipt)
    (log : List Execution)
    → restore.refusal ≡ none
    → ReportsOf contract restore.paths r log
    → Reports contract (some restore) r log
ReportsOf-Reports contract restore none log h a = tt
ReportsOf-Reports contract restore (some receipt) log h (inl a) = inl a
ReportsOf-Reports contract restore (some receipt) log h (inr (e, rest, o, d)) =
    inr (e, restore, refl, h, rest, o, d)

-- The model names no command, or the words of the contract's with blanks between them and perhaps around
-- them.
abbrev pub Agreed : Option Text → List Text → Type 0
Agreed none declared = Unit {0}
Agreed (some command) declared = trim command ≡ join (txt " ") declared

forbidden-Agreed :
    (command : Option Text) (declared : List Text)
    → forbidden command declared ≡ false
    → Agreed command declared
unfolding forbidden command_matches
forbidden-Agreed none declared h = tt
forbidden-Agreed (some command) declared h = (eq_text_iff _ _).0 (ground (arith, h))

-- The commands that ran are the contract's, and none ran where the contract has none or the model named
-- another.
abbrev pub Permitted : Contract → Option Text → List Execution → Type 0
Permitted contract command log =
    (log ≡ [])
    ⊎ ((is_empty contract.test_command ≡ false)
        × Agreed command contract.test_command
        × AllAllowed contract (map Execution.argv log))

Account-AllAllowed :
    (contract : Contract) (paths : List Text) (p : Progress) (log : List Execution)
    → Account (runs_of contract paths) [] p log
    → AllAllowed contract (map Execution.argv log)
Account-AllAllowed contract paths p log a = rw a.whole (
    AllAllowed-append contract (map Execution.argv a.new) a.rest
      (subst (AllAllowed contract) a.order (runs_of-AllAllowed contract paths)))

finish-so_far :
    (log : List Execution)
    → finish (so_far log)
      ≡ record { code = RunnerCode.ok; message = []; result = some (summarise log) }
unfolding finish summarise
finish-so_far log = refl

Account-Reports :
    (contract : Contract) (paths : List Text) (p : Progress) (log : List Execution)
    → Account (runs_of contract paths) [] p log
    → ReportsOf contract paths (receipt_of p) log
unfolding receipt_of
Account-Reports contract paths (all_run loop) log a =
    let (l, r) = a.end in
    let w : log ≡ a.new = a.whole in inr (ap finish l ∙ finish-so_far log, a.rest, rw w a.order, r)
Account-Reports contract paths (returned receipt) log a = inl a.end
Account-Reports contract paths crashed log a = tt

module _ (machine : Machine) (repo : Text) (contract : Contract) where
  run_carried-Reports :
      (timeout : Machine.Seconds machine) (paths : List Text) (message : Option Text)
      (w : Machine.World machine)
      → (let (r, s') =
            run_carried machine repo contract timeout paths message
              (record { world = w; log = [] }) in
          ReportsOf contract paths r s'.log × AllAllowed contract (map Execution.argv s'.log))
  unfolding run_carried refusal begin first_failure
  run_carried-Reports timeout paths (some message) w = (inl refl, tt)
  run_carried-Reports timeout paths none w =
      let (started, w') = machine.monotonic w in
      let a =
        run_all-Account machine repo timeout started (runs_of contract paths)
          (record { world = w'; log = [] }) in
      (Account-Reports contract paths _ _ a, Account-AllAllowed contract paths _ _ a)

  of_message-Reports :
      (timeout : Machine.Seconds machine) (restore : CarriedRestore) (w : Machine.World machine)
      (message : Option Text)
      → restore.refusal ≡ message
      → (let (r, s') =
            run_carried machine repo contract timeout restore.paths message
              (record { world = w; log = [] }) in
          Reports contract (some restore) r s'.log
          × AllAllowed contract (map Execution.argv s'.log))
  unfolding run_carried refusal
  of_message-Reports timeout restore w (some message) n = (inl refl, tt)
  of_message-Reports timeout restore w none n =
      let (a, b) = run_carried-Reports timeout restore.paths none w in
      (ReportsOf-Reports contract restore _ _ n a, b)

  run_restored-Reports :
      (timeout : Machine.Seconds machine) (restore : Option CarriedRestore)
      (w : Machine.World machine)
      → (let (r, s') =
            run_restored machine repo contract timeout restore (record { world = w; log = [] }) in
          Reports contract restore r s'.log × AllAllowed contract (map Execution.argv s'.log))
  unfolding run_restored
  run_restored-Reports timeout none w = (tt, tt)
  run_restored-Reports timeout (some restore) w =
      of_message-Reports timeout restore w restore.refusal refl

  module _ (command base_commit : Option Text) (timeout : Machine.Seconds machine)
      (w : Machine.World machine) where
    -- A receipt of `run_tests` is a refusal, or its exit code is the first that is not zero, its output
    -- that of the commands in their order, and its flags and its size go with them; and the commands are
    -- the first of the runs planned for the files that `restore_carried` restored, all of them unless one
    -- timed out.
    pub run_tests-Reports :
        (let (r, s') =
            run_tests machine repo contract command base_commit timeout
              (record { world = w; log = [] }) in
          Reports contract (restore_carried machine repo contract base_commit w).0 r s'.log)
    unfolding run_tests refusal
    run_tests-Reports = elim (Bool-cases (is_empty contract.test_command)) [
      | inl e ↦ rw e (inl refl)
      | inr e ↦ elim (Bool-cases (forbidden command contract.test_command)) [
        | inl f ↦ rw (e, f) (inl refl)
        | inr f ↦ rw (e, f) ((run_restored-Reports timeout _ _).0)
      ]
    ]

    -- `run_tests` runs the contract's own command alone, with files behind it that the contract names at
    -- most, and it runs nothing where the contract declares no command or the model names another.
    pub run_tests-Permitted :
        Permitted contract command
          (run_tests machine repo contract command base_commit timeout
            (record { world = w; log = [] })).1.log
    unfolding run_tests
    run_tests-Permitted = elim (Bool-cases (is_empty contract.test_command)) [
      | inl e ↦ rw e (inl refl)
      | inr e ↦ elim (Bool-cases (forbidden command contract.test_command)) [
        | inl f ↦ rw (e, f) (inl refl)
        | inr f ↦
            rw (e, f)
              (inr (
                refl,
                forbidden-Agreed command contract.test_command f,
                (run_restored-Reports timeout _ _).1,
              ))
      ]
    ]
