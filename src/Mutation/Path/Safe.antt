-- ===== src/Mutation/Path/Safe.antt =====
-- What `normalize_relative_path` accepts.
use satyrn_engine.Prelude.{
  ◌≡◌, ◌↔◌, refl, inl, Bool, true, false, not, List, [], ◌∷◌, arith, is_empty, all_of, any_of,
}
use satyrn_engine.Prelude.Text.{Text, txt, starts_with, split, has}
use satyrn_engine.Mutation.Path.{is_dots, normalize_relative_path}

-- A path that names something below the directory it is taken in.
pub record IsSafe (path : Text) : Type 0 where
  pub nonempty : is_empty path ≡ false
  pub no_nul : has 0 path ≡ false
  pub no_backslash : has 92 path ≡ false
  pub parts : all_of (λ part. not (is_dots part)) (split 47 path) ≡ true

any_of-all_of :
    (test : Text → Bool) (ts : List Text) → any_of test ts ≡ not (all_of (λ t. not (test t)) ts)
any_of-all_of test [] = refl
any_of-all_of test (t ∷ ts) = ground (arith, any_of-all_of test ts)

starts_with_slash : (t : Text) → starts_with t (47 ∷ []) ≡ true → any_of is_dots (split 47 t) ≡ true
unfolding starts_with split is_dots
starts_with_slash [] h = cc
starts_with_slash (c ∷ t) h = ground (arith, h)

-- `normalize_relative_path` returns a path exactly where the path is not empty, has no NUL and no
-- backslash, and none of its parts is empty, `.` or `..`; and what it returns is the path itself.
pub normalize_iff :
    (path result : Text)
    → (normalize_relative_path path ≡ inl result) ↔ (IsSafe path × (result ≡ path))
unfolding normalize_relative_path txt
normalize_iff path result =
    ground (arith, any_of-all_of is_dots (split 47 path), starts_with_slash path)
