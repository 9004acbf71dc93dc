-- ===== src/Runner/Compact.antt =====
-- `_explanations` and `compact_output` of src/satyrn_engine/runner.py. What the two regular expressions
-- match is a parameter.
pub mod Explain
use satyrn_engine.Prelude.{
  ℕ, zero, suc, ◌+◌, ◌-◌, ◌*◌, ◌≤◌, ◌<◌, min, max, ◌≡◌, ◌≢◌, ◌↔◌, refl, sym, ap, subst, ◌∙◌, ◌⊎◌,
  inl, inr, Bool, true, false, not, ◌&&◌, ◌||◌, Option, none, some, is_some, List, [], ◌∷◌, ◌++◌,
  map, append-nil, append_assoc, arith, tests, ltb, leb, ◌==◌, if◌then◌else◌, Bool-cases,
  Option-cases, length, take, drop, is_empty, all_of, any_of, keep, length-append, length-take-le,
  ltb→lt, lt→ltb, ltb→le, leb→le, ==_iff,
}
use satyrn_engine.Prelude.Text.{
  Text, Bytes, txt, eq_text, eq_text_iff, contains, starts_with, split, join, utf8, utf8_size, trim,
  trim_left, trim_right, text_lines, encodable, has, strip,
}

abbrev pub compact_tail_lines : ℕ
compact_tail_lines = 20

abbrev pub explanation_lines : ℕ
explanation_lines = 3

-- `stripped == "E" or stripped.startswith("E ")`
unfoldable pub is_explanation : Text → Bool
is_explanation line =
    let stripped = trim_left line in eq_text stripped (txt "E") || starts_with stripped (txt "E ")

-- The variables of the loop
pub record Scan : Type 0 where
  pub header : Option Text
  pub seen_assertion : Bool
  pub taken : ℕ

abbrev pub header_lines : Option Text → List Text
header_lines none = []
header_lines (some h) = h ∷ []

module _ (is_block : Text → Bool) where
  -- One turn of the loop: the lines it keeps, and the variables after it.
  unfoldable pub scan : Scan → Text → List Text × Scan
  unfolding is_explanation
  scan s line =
      if is_block (trim line)
      then ([], record { header = some (trim line); seen_assertion = false; taken = 0 })
      else if not (is_explanation line)
      then ([], s)
      else if not s.seen_assertion
      then ([], record s { seen_assertion = true })
      else if leb explanation_lines s.taken
      then ([], s)
      else (
        header_lines s.header ++ trim_right line ∷ [],
        record s { header = none; taken = suc s.taken },
      )

  unfoldable pub scan_all : Scan → List Text → List Text
  unfolding scan
  scan_all s [] = []
  scan_all s (line ∷ lines) = let (kept, s') = scan s line in kept ++ scan_all s' lines

  -- `_explanations`
  unfoldable pub explanations : List Text → List Text
  unfolding scan_all
  explanations = scan_all (record { header = none; seen_assertion = false; taken = 0 })

-- `next((line for line in reversed(lines) if test(line)), None)`
last_match : (Text → Bool) → List Text → Option Text
last_match test [] = none
last_match test (line ∷ lines) = elim (last_match test lines) [
  | some l ↦ some l
  | none ↦ if test line then some line else none
]

-- `[summary] if summary else []`
abbrev summary_lines : Option Text → List Text
summary_lines none = []
summary_lines (some t) = if is_empty t then [] else t ∷ []

abbrev names_failure : Text → Bool
names_failure line = starts_with line (txt "FAILED ") || starts_with line (txt "ERROR ")

module _ (is_block is_summary : Text → Bool) where
  compact_lines : List Text → List Text → Text
  unfolding explanations last_match
  compact_lines lines [] =
      join (txt "\n") (drop (length lines - compact_tail_lines) lines)
      ++ (if is_empty lines then [] else txt "\n")
  compact_lines lines (failure ∷ kept) =
      join (txt "\n") (
        (failure ∷ kept)
        ++ (explanations is_block lines ++ summary_lines (last_match is_summary lines)))
      ++ txt "\n"

  unfoldable pub compact_output : Text → Text
  unfolding compact_lines
  compact_output text =
      let lines = text_lines text in compact_lines lines (keep names_failure lines)
