-- ===== src/Prelude/Sort.antt =====
-- `sorted` and the removal of duplicates, for texts.
use satyrn_engine.Prelude.Tests.{Bool-cases, ltb, ◌==◌, if◌then◌else◌}
use satyrn_engine.Prelude.Lists.{keep}
use satyrn_engine.Prelude.Text.{Text, eq_text, contains, eq_text_sound, eq_text_refl}
use mathlib.Core.Bool.{Bool, true, false, ◌&&◌, ◌||◌, not}
use mathlib.Core.List.{List, [], ◌∷◌}
use mathlib.Core.Logic.{inl, inr}
use mathlib.Core.Path.{◌≡◌, refl}
use native.Mathlib.Omega.{arith}

-- The order of Python's `str`, by code points
unfoldable pub le_text : Text → Text → Bool
le_text [] u = true
le_text (c ∷ t) [] = false
le_text (c ∷ t) (d ∷ u) = ltb c d || c == d && le_text t u

insert : Text → List Text → List Text
insert t [] = t ∷ []
insert t (u ∷ us) = if le_text t u then t ∷ u ∷ us else u ∷ insert t us

-- `sorted(ts)`
unfoldable pub sorted : List Text → List Text
unfolding insert
sorted [] = []
sorted (t ∷ ts) = insert t (sorted ts)

-- `list(dict.fromkeys(ts))`: each text where it first stands
unfoldable pub unique : List Text → List Text
unique [] = []
unique (t ∷ ts) = t ∷ keep (λ u. not (eq_text u t)) (unique ts)

contains-insert :
    (t u : Text) (us : List Text) → contains t (insert u us) ≡ (eq_text t u || contains t us)
unfolding insert
contains-insert t u [] = refl
contains-insert t u (v ∷ vs) = ground (arith, contains-insert t u vs)

-- Sorting keeps what is in a list.
pub contains-sorted : (t : Text) (us : List Text) → contains t (sorted us) ≡ contains t us
unfolding sorted
contains-sorted t [] = refl
contains-sorted t (u ∷ us) = ground (arith, contains-insert t u (sorted us), contains-sorted t us)

module _ (test : Text → Bool) where
  -- A text is kept where it is there and passes the test.
  pub contains-keep :
      (t : Text) (us : List Text) → contains t (keep test us) ≡ (contains t us && test t)
  contains-keep t [] = refl
  contains-keep t (u ∷ us) = elim (Bool-cases (eq_text t u)) [
    | inl same ↦ rw (eq_text_sound t u same) (ground (arith, eq_text_refl u, contains-keep u us))
    | inr other ↦ ground (arith, contains-keep t us, other)
  ]

pub contains-unique : (t : Text) (us : List Text) → contains t (unique us) ≡ contains t us
unfolding unique
contains-unique t [] = refl
contains-unique t (u ∷ us) =
    ground (arith, contains-keep (λ v. not (eq_text v u)) t (unique us), contains-unique t us)
