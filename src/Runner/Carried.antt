-- ===== src/Runner/Carried.antt =====
-- `INFRASTRUCTURE` and `select_carried` of src/satyrn_engine/runner.py.
pub mod Selects
use satyrn_engine.Prelude.{Bool, true, false, ◌||◌, List, [], ◌∷◌, ◌++◌, keep}
use satyrn_engine.Prelude.Text.{Text, txt, eq_text, contains, ends_with}
use satyrn_engine.Prelude.Sort.{sorted, unique}
use satyrn_engine.Contract.Fields.{Contract}

unfoldable pub infrastructure : List Text
infrastructure = txt "pyproject.toml" ∷ txt "pytest.ini" ∷ txt "setup.cfg" ∷ txt "tox.ini" ∷ []

unfoldable pub is_conftest : Text → Bool
is_conftest p = eq_text p (txt "conftest.py") || ends_with p (txt "/conftest.py")

-- `tracked` is a set in the source: its order and repetitions do not matter below.
wanted : Contract → List Text → List Text
unfolding is_conftest infrastructure
wanted contract tracked =
    contract.preserve
    ++ (contract.checks
        ++ (sorted (unique (keep is_conftest tracked))
            ++ keep (λ p. contains p tracked) infrastructure))

unfoldable pub select_carried : Contract → List Text → List Text
unfolding wanted
select_carried contract tracked = keep (λ p. contains p tracked) (unique (wanted contract tracked))
