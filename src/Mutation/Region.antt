-- ===== src/Mutation/Region.antt =====
-- The text that shows a change: `_clip_to_bytes`, `_balanced_grow`, `_balanced_shrink`,
-- `_post_edit_region` and `_post_edit_regions` of mutation.py. The text is the decoded file.
pub mod Balance
pub mod Bound
use satyrn_engine.Prelude.{
  ◌/◌, ℕ, zero, suc, ◌+◌, ◌-◌, ◌*◌, ◌≤◌, ◌<◌, min, max, ◌≡◌, ◌≢◌, ◌↔◌, refl, sym, ap, subst, ◌∙◌,
  ◌⊎◌, inl, inr, Bool, true, false, not, ◌&&◌, ◌||◌, Option, none, some, is_some, List, [], ◌∷◌,
  ◌++◌, map, append-nil, append_assoc, arith, tests, ltb, leb, ◌==◌, if◌then◌else◌, Bool-cases,
  Option-cases, length, take, drop, is_empty, all_of, any_of, keep, length-append, length-take-le,
  ltb→lt, lt→ltb, ltb→le, leb→le, ==_iff,
}
use satyrn_engine.Prelude.Text.{
  Text, Bytes, txt, eq_text, eq_text_iff, contains, starts_with, split, join, utf8, utf8_size,
  encodable, has, strip,
}
use satyrn_engine.Search.{count_byte}
use satyrn_engine.Mutation.Apply.{line_of_offset}

abbrev pub region_context_lines : ℕ
region_context_lines = 3

abbrev pub region_max_lines : ℕ
region_max_lines = 40

abbrev pub region_max_bytes : ℕ
region_max_bytes = 4000

unfoldable pub context_truncated_marker : Text
context_truncated_marker =
    txt
      "...[region context trimmed to fit cap: 40 lines / 4000 bytes; the change above is shown in full]...\n"

unfoldable pub change_truncated_marker : Text
change_truncated_marker =
    txt
      "...[region truncated: the change itself exceeds 40 lines / 4000 bytes with no context]...\n"

-- `(cut[-1] & 0xC0) == 0x80`
is_continuation : ℕ → Bool
is_continuation c = c / 64 == 2

-- `while cut and ...: cut = cut[:-1]`
keep_head : ℕ → Bytes → Bytes
unfolding is_continuation
keep_head c [] = if is_continuation c then [] else c ∷ []
keep_head c (d ∷ b) = c ∷ d ∷ b

trim : Bytes → Bytes
unfolding keep_head
trim [] = []
trim (c ∷ b) = keep_head c (trim b)

-- `_clip_to_bytes`; `decode_ignore` is `bytes.decode("utf-8", errors="ignore")`.
unfoldable pub clip_to_bytes : (Bytes → Text) → Text → ℕ → Text
unfolding trim
clip_to_bytes decode_ignore text limit =
    if leb (utf8_size text) limit then text else decode_ignore (trim (take limit (utf8 text)))

-- A round of the loop of `_balanced_grow`; it changes nothing where the loop would have ended.
grow_step : ℕ → ℕ → ℕ × ℕ → ℕ × ℕ
grow_step desired_before desired_after (before, after) =
    if ltb before desired_before && leb before after
    then (before + 1, after)
    else if ltb after desired_after
    then (before, after + 1)
    else if ltb before desired_before
    then (before + 1, after)
    else (before, after)

grow : ℕ → ℕ → ℕ → ℕ × ℕ → ℕ × ℕ
unfolding grow_step
grow zero desired_before desired_after p = p
grow (suc remaining) desired_before desired_after p =
    grow remaining desired_before desired_after (grow_step desired_before desired_after p)

-- `_balanced_grow`
unfoldable pub balanced_grow : ℕ → ℕ → ℕ → ℕ × ℕ
unfolding grow
balanced_grow budget desired_before desired_after = grow budget desired_before desired_after (0, 0)

-- A round of the loop of `_balanced_shrink`; it changes nothing where the loop would have ended.
shrink_step : ℕ × ℕ → ℕ × ℕ
shrink_step (before, after) =
    if leb before after && ltb 0 after
    then (before, after - 1)
    else if ltb 0 before
    then (before - 1, after)
    else (before, after)

shrink : ℕ → ℕ × ℕ → ℕ × ℕ
unfolding shrink_step
shrink zero p = p
shrink (suc remaining) p = shrink remaining (shrink_step p)

-- `_balanced_shrink`
unfoldable pub balanced_shrink : ℕ → ℕ → ℕ → ℕ × ℕ
unfolding shrink
balanced_shrink context_before context_after excess = shrink excess (context_before, context_after)

-- A trailing line feed ends the last line, and does not add one.
without_last_empty : List Text → List Text
without_last_empty [] = []
without_last_empty ([] ∷ []) = []
without_last_empty (l ∷ ls) = l ∷ without_last_empty ls

unfoldable pub region_lines : Text → List Text
unfolding without_last_empty
region_lines text = without_last_empty (split 10 text)

module _ (show : ℕ → Text) (decode_ignore : Bytes → Text) where
  label : ℕ → List Text → List Text
  label n [] = []
  label n (l ∷ ls) = (show n ++ (txt ": " ++ l)) ∷ label (suc n) ls

  -- `numbered`: lines are counted from 1, and the range is one of lines that are there.
  numbered : List Text → ℕ → ℕ → List Text
  unfolding label
  numbered lines first last = label first (take (last + 1 - first) (drop (first - 1) lines))

  -- `render`
  render : List Text → List Text → ℕ → ℕ → ℕ → ℕ → Text
  unfolding numbered
  render lines changed_lines start_line end_line context_before context_after = join (10 ∷ []) (
      numbered lines (start_line - context_before) (start_line - 1)
      ++ (changed_lines ++ numbered lines (end_line + 1) (end_line + context_after)))

  -- The loop of the byte cap, a round for each unit of fuel; the Boolean is `context_trimmed`.
  fit : (ℕ → ℕ → Text) → ℕ → ℕ → ℕ → Bool → (ℕ × ℕ) × Bool
  fit draw zero context_before context_after trimmed = ((context_before, context_after), trimmed)
  fit draw (suc fuel) context_before context_after trimmed =
      elim (ltb region_max_bytes (utf8_size (draw context_before context_after))
        && (ltb 0 context_before || ltb 0 context_after)) [
          | false ↦ ((context_before, context_after), trimmed)
          | true ↦
              let p = balanced_shrink context_before context_after 1 in fit draw fuel p.0 p.1 true
        ]

  marked : Text → Bool → Text
  marked rendered true = rendered ++ (10 ∷ context_truncated_marker)
  marked rendered false = rendered

  -- The context that the line budget leaves, and whether some is left out.
  context : ℕ → ℕ → ℕ → (ℕ × ℕ) × Bool
  context line_budget desired_before desired_after =
      if ltb line_budget (desired_before + desired_after)
      then (balanced_grow line_budget desired_before desired_after, true)
      else ((desired_before, desired_after), false)

  with_context : (ℕ → ℕ → Text) → (ℕ × ℕ) × Bool → Text
  unfolding fit marked
  with_context draw ((before, after), trimmed) =
      let ((b, a), t) = fit draw (before + after) before after trimmed in marked (draw b a) t

  -- A change that is too long is cut itself.
  cut_change : Text → Text
  cut_change rendered =
      clip_to_bytes decode_ignore rendered region_max_bytes ++ (10 ∷ change_truncated_marker)

  -- The region of the lines from `start_line` to `end_line`, in a file of `total` lines.
  region_of : List Text → ℕ → ℕ → ℕ → Text
  unfolding numbered render context with_context cut_change
  region_of lines total start_line end_line =
      let changed_line_count = end_line - start_line + 1 in
      let too_long = ltb region_max_lines changed_line_count in
      let changed_lines =
        numbered lines start_line
          (if too_long then start_line + region_max_lines - 1 else end_line) in
      let changed_rendered = join (10 ∷ []) changed_lines in
      if too_long || ltb region_max_bytes (utf8_size changed_rendered)
      then cut_change changed_rendered
      else with_context (render lines changed_lines start_line end_line) (
          context (region_max_lines - changed_line_count)
            (min region_context_lines (start_line - 1))
            (min region_context_lines (total - end_line)))

  -- The first and the last changed line, within the lines that are there.
  span : Bytes → ℕ → Bytes → ℕ → ℕ × ℕ
  span content anchor_offset new_bytes total =
      let start_line = line_of_offset content anchor_offset in
      let end_line = min (start_line + count_byte 10 new_bytes) total in
      (min start_line end_line, end_line)

  region_at : List Text → ℕ → ℕ × ℕ → Text
  unfolding region_of
  region_at lines zero p = []
  region_at lines (suc total) (start_line, end_line) =
      region_of lines (suc total) start_line end_line

  -- `_post_edit_region`; `text` is `after.decode("utf-8")`.
  unfoldable pub post_edit_region : Bytes → Text → ℕ → Bytes → Text
  unfolding region_at span
  post_edit_region before text anchor_offset new_bytes =
      let lines = region_lines text in
      region_at lines (length lines) (span before anchor_offset new_bytes (length lines))

  -- `windows.sort()`
  insert_window : ℕ × ℕ → List (ℕ × ℕ) → List (ℕ × ℕ)
  insert_window w [] = w ∷ []
  insert_window w (v ∷ vs) =
      let rest = insert_window w vs in
      if ltb w.0 v.0 || w.0 == v.0 && leb w.1 v.1 then w ∷ v ∷ vs else v ∷ rest

  sort_windows : List (ℕ × ℕ) → List (ℕ × ℕ)
  unfolding insert_window
  sort_windows [] = []
  sort_windows (w ∷ ws) = insert_window w (sort_windows ws)

  -- `merged`: the windows in order, those that meet taken together
  merge_windows : List (ℕ × ℕ) → ℕ × ℕ → List (ℕ × ℕ)
  merge_windows [] last = last ∷ []
  merge_windows ((first, end) ∷ ws) last = elim (leb first (last.1 + 1)) [
    | true ↦ merge_windows ws (last.0, max last.1 end)
    | false ↦ last ∷ merge_windows ws (first, end)
  ]

  merged : List (ℕ × ℕ) → List (ℕ × ℕ)
  unfolding merge_windows
  merged [] = []
  merged (w ∷ ws) = merge_windows ws w

  window : Bytes → ℕ → ℕ × Bytes → ℕ × ℕ
  unfolding span
  window content total (anchor_offset, new_bytes) =
      let (start_line, end_line) = span content anchor_offset new_bytes total in
      (max 1 (start_line - region_context_lines), min total (end_line + region_context_lines))

  clipped : Text → Text
  clipped rendered =
      if ltb region_max_bytes (utf8_size rendered)
      then clip_to_bytes decode_ignore rendered region_max_bytes ++ (10 ∷ context_truncated_marker)
      else rendered

  -- The windows' lines, with a line of dots between those that do not meet
  blocks : Bytes → List Text → ℕ → List (ℕ × Bytes) → Text
  unfolding merged sort_windows window numbered
  blocks after lines total applied = join (txt "\n...\n") (
      map (λ w. join (10 ∷ []) (numbered lines w.0 w.1))
        (merged (sort_windows (map (window after total) applied))))

  regions_at : Bytes → List Text → ℕ → List (ℕ × Bytes) → Text
  unfolding blocks clipped
  regions_at after lines zero applied = []
  regions_at after lines (suc total) applied = clipped (blocks after lines (suc total) applied)

  -- `_post_edit_regions`; `text` is `after.decode("utf-8")`.
  unfoldable pub post_edit_regions : Bytes → Bytes → Text → List (ℕ × Bytes) → Text
  unfolding regions_at
  post_edit_regions before after text ((anchor_offset, new_bytes) ∷ []) =
      post_edit_region before text anchor_offset new_bytes
  post_edit_regions before after text applied =
      let lines = region_lines text in regions_at after lines (length lines) applied
