-- ===== src/Runner/Carried/Selects.antt =====
-- Which tracked files `select_carried` selects.
use satyrn_engine.Prelude.{refl, ◌≡◌, ◌&&◌, ◌||◌, List, [], ◌∷◌, ◌++◌, keep, arith}
use satyrn_engine.Prelude.Text.{Text, contains}
use satyrn_engine.Prelude.Sort.{contains-sorted, contains-keep, contains-unique, sorted, unique}
use satyrn_engine.Contract.Fields.{Contract}
use satyrn_engine.Runner.Carried.{infrastructure, is_conftest, wanted, select_carried}

contains-append :
    (t : Text) (xs ys : List Text) → contains t (xs ++ ys) ≡ contains t xs || contains t ys
contains-append t [] ys = refl
contains-append t (x ∷ xs) ys = ground (arith, contains-append t xs ys)

-- What stands in the list that is narrowed to the tracked files.
contains-wanted :
    (contract : Contract) (tracked : List Text) (p : Text)
    → contains p (wanted contract tracked) ≡ (
        contains p contract.preserve
        || (contains p contract.checks
            || ((contains p tracked && is_conftest p)
                || (contains p infrastructure && contains p tracked))))
unfolding wanted
contains-wanted contract tracked p =
    rw
      (
        contains-append p contract.preserve _,
        contains-append p contract.checks _,
        contains-append p (sorted (unique (keep is_conftest tracked))) _,
        contains-sorted p (unique (keep is_conftest tracked)),
        contains-unique p (keep is_conftest tracked),
        contains-keep is_conftest p tracked,
        contains-keep (λ q. contains q tracked) p infrastructure,
      )
      refl

-- A path is selected exactly where it is tracked and the contract preserves it or checks with it, or
-- it is a `conftest.py`, or it is one of the infrastructure files.
pub contains-select_carried :
    (contract : Contract) (tracked : List Text) (p : Text)
    → contains p (select_carried contract tracked)
      ≡ contains p tracked
        && (contains p contract.preserve
            || (contains p contract.checks || (is_conftest p || contains p infrastructure)))
unfolding select_carried
contains-select_carried contract tracked p = ground (
  arith,
  contains-keep (λ q. contains q tracked) p (unique (wanted contract tracked)),
  contains-unique p (wanted contract tracked),
  contains-wanted contract tracked p,
)
