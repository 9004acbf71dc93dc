-- ===== src/Mutation/Apply.antt =====
-- `_line_of_offset` and `_apply_replacement` of mutation.py.
pub mod Sound
use satyrn_engine.Prelude.{
  ℕ, zero, suc, ◌+◌, ◌-◌, ◌*◌, ◌≤◌, ◌<◌, min, max, ◌≡◌, ◌≢◌, ◌↔◌, refl, sym, ap, subst, ◌∙◌, ◌⊎◌,
  inl, inr, Bool, true, false, not, ◌&&◌, ◌||◌, Option, none, some, is_some, List, [], ◌∷◌, ◌++◌,
  map, append-nil, append_assoc, arith, tests, ltb, leb, ◌==◌, if◌then◌else◌, Bool-cases,
  Option-cases, length, take, drop, is_empty, all_of, any_of, keep, length-append, length-take-le,
  ltb→lt, lt→ltb, ltb→le, leb→le, ==_iff,
}
use satyrn_engine.Prelude.Text.{
  Text, Bytes, txt, eq_text, eq_text_iff, contains, starts_with, split, join, utf8, utf8_size,
  encodable, has, strip,
}
use satyrn_engine.Search.{find, count, count_byte, replace_first}
use satyrn_engine.Mutation.Receipt.{MutationCode, MutationReceipt, ok, refusal}

-- `_line_of_offset`
unfoldable pub line_of_offset : Bytes → ℕ → ℕ
line_of_offset content offset = count_byte 10 (take offset content) + 1

-- What one replacement in memory comes to.
pub record Applied : Type 0 where
  pub after : Bytes
  pub anchor_offset : ℕ
  pub new_bytes : Bytes

pub data Outcome : Type 0 where
  declined : MutationCode → Text → Outcome
  applied : Applied → Outcome

-- The number of a line or a match in a message; `encode_error` is the text of a `UnicodeEncodeError`.
module _ (show : ℕ → Text) (encode_error : Text → Text) where
  -- `new_bytes in current`, with the line of its first place
  already : Text → Option ℕ → Bytes → Outcome
  already path none current =
      declined MutationCode.anchor_missing (txt "old_text was not found in " ++ path)
  already path (some i) current = declined MutationCode.anchor_already_applied (
      txt "new_text is already present in "
      ++ (path
          ++ (txt " at line "
              ++ (show (line_of_offset current i) ++ txt "; old_text was not found"))))

  -- `match current.count(old_bytes)`
  by_count : Text → Bytes → Bytes → Bytes → ℕ → Outcome
  unfolding already
  by_count path current old_bytes new_bytes zero =
      already path (if is_empty new_bytes then none else find new_bytes current) current
  by_count path current old_bytes new_bytes (suc zero) = elim (find old_bytes current) [
    | none ↦ declined MutationCode.anchor_missing (txt "old_text was not found in " ++ path)
    | some offset ↦ applied (record {
      after = replace_first old_bytes new_bytes current;
      anchor_offset = offset;
      new_bytes = new_bytes;
    })
  ]
  by_count path current old_bytes new_bytes (suc (suc n)) = declined MutationCode.anchor_ambiguous (
      txt "old_text matches "
      ++ (show (suc (suc n)) ++ (txt " locations in " ++ (path ++ txt "; it must be unique"))))

  -- `_apply_replacement`
  unfoldable pub apply_replacement : Bytes → Text → Text → Text → Outcome
  unfolding by_count
  apply_replacement current path old_text new_text =
      if not (encodable old_text)
      then declined MutationCode.mutation_failed
          (txt "cannot encode replacement text: " ++ encode_error old_text)
      else if not (encodable new_text)
      then declined MutationCode.mutation_failed
          (txt "cannot encode replacement text: " ++ encode_error new_text)
      else if eq_text (utf8 old_text) (utf8 new_text)
      then declined MutationCode.no_change_requested
          (txt "old_text and new_text are identical in " ++ (path ++ txt "; nothing to replace"))
      else by_count path current (utf8 old_text) (utf8 new_text) (count (utf8 old_text) current)
