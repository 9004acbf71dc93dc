-- ===== src/Mutation/Path.antt =====
-- `normalize_relative_path` of mutation.py.
pub mod Safe
use satyrn_engine.Prelude.{
  ℕ, zero, suc, ◌+◌, ◌-◌, ◌*◌, ◌≤◌, ◌<◌, min, max, ◌≡◌, ◌≢◌, ◌↔◌, refl, sym, ap, subst, ◌∙◌, ◌⊎◌,
  inl, inr, Bool, true, false, not, ◌&&◌, ◌||◌, Option, none, some, is_some, List, [], ◌∷◌, ◌++◌,
  map, append-nil, append_assoc, arith, tests, ltb, leb, ◌==◌, if◌then◌else◌, Bool-cases,
  Option-cases, length, take, drop, is_empty, all_of, any_of, keep, length-append, length-take-le,
  ltb→lt, lt→ltb, ltb→le, leb→le, ==_iff,
}
use satyrn_engine.Prelude.Text.{
  Text, Bytes, txt, eq_text, eq_text_iff, contains, starts_with, split, join, utf8, utf8_size,
  encodable, has, strip,
}

-- A segment that is the directory itself, its parent, or nothing.
unfoldable pub is_dots : Text → Bool
is_dots part = is_empty part || (eq_text part (txt ".") || eq_text part (txt ".."))

-- The message of the `ValueError`, or the path.
unfoldable pub normalize_relative_path : Text → Text ⊎ Text
unfolding is_dots
normalize_relative_path candidate =
    if is_empty candidate
    then inr (txt "path must be a non-empty string")
    else if has 0 candidate
    then inr (txt "path must not contain NUL")
    else if has 92 candidate
    then inr (txt "path must use '/' separators")
    else if starts_with candidate (txt "/")
    then inr (txt "path must be relative")
    else if any_of is_dots (split 47 candidate)
    then inr (txt "path must not contain empty, '.' or '..' segments")
    else inl candidate
