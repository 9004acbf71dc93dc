-- ===== src/Check/Verdict.antt =====
-- The verdicts of `check`.
use satyrn_engine.Prelude.{subst, ◌≡◌, refl, true, false, Option, none, some, Bool-cases, inl, inr}
use satyrn_engine.Prelude.Text.{Text}
use mathlib.Core.Option.{some-injective}
use satyrn_engine.Exits.{ExitCode}
use satyrn_engine.Contract.{Loaded, loaded, refused, crashed, Files, load_contract}
use satyrn_engine.Contract.Fields.{Contract}
use satyrn_engine.Contract.Fields.Valid.{IsValid}
use satyrn_engine.Contract.Accept.{load_contract-IsValid, IsRefusal, load_contract-IsRefusal}
use satyrn_engine.Check.{CheckResult, conclude, check}

-- What each verdict means. `repo_unavailable` is reached with a contract in hand.
abbrev pub Means : Files → Text → ExitCode → Option Contract → Type 0
Means files repo ExitCode.ok (some c) = IsValid c × (files.is_dir repo ≡ true)
Means files repo ExitCode.repo_unavailable (some c) = IsValid c × (files.is_dir repo ≡ false)
Means files repo code none = IsRefusal code
Means files repo _ (some c) = ⊥

abbrev MeansResult : Files → Text → CheckResult → Type 0
MeansResult files repo r = Means files repo r.code r.contract

conclude-Means :
    (files : Files) (repo : Text) (l : Loaded) (r : CheckResult)
    → ((c : Contract) → l ≡ loaded c → IsValid c)
    → ((code : ExitCode) (m : Text) → l ≡ refused code m → IsRefusal code)
    → conclude files repo l ≡ some r
    → Means files repo r.code r.contract
unfolding conclude
conclude-Means files repo (loaded c) r v f h = elim (Bool-cases (files.is_dir repo)) [
  | inl there ↦
      subst (MeansResult files repo) (some-injective _ _ (rw there at h)) (v c refl, there)
  | inr gone ↦ subst (MeansResult files repo) (some-injective _ _ (rw gone at h)) (v c refl, gone)
]
conclude-Means files repo (refused code m) r v f h =
    subst (MeansResult files repo) (some-injective _ _ h) (f code m refl)
conclude-Means files repo crashed r v f h = cc

-- A check that ends without an escaped exception says OK only with a valid contract and a directory,
-- REPO_UNAVAILABLE only with a valid contract and no directory, and any other code only with no
-- contract and as one of the three refusals of a contract.
pub check-Means :
    (files : Files) (repo path : Text) (r : CheckResult)
    → check files repo path ≡ some r
    → Means files repo r.code r.contract
unfolding check
check-Means files repo path r h =
    conclude-Means files repo (load_contract files path) r (load_contract-IsValid files path)
      (load_contract-IsRefusal files path) h
