-- ===== src/Mutation/Region/Bound.antt =====
-- How large a region can be.
use satyrn_engine.Prelude.{
  ℕ, zero, suc, ◌+◌, ◌-◌, ◌≤◌, ◌<◌, min, ◌≡◌, refl, inl, inr, Bool, true, false, ◌&&◌, ◌||◌, List,
  [], ◌∷◌, ◌++◌, append-nil, arith, ltb, if◌then◌else◌, Bool-cases, length, take, length-take-le,
}
use satyrn_engine.Prelude.Text.{Text, Bytes, txt, join, utf8, utf8_size}
use satyrn_engine.Mutation.Region.{
  blocks, region_context_lines, region_max_lines, region_max_bytes, context_truncated_marker,
  change_truncated_marker, clip_to_bytes, trim, keep_head, balanced_shrink, render, numbered, label,
  fit, marked, context, with_context, cut_change, region_of, region_at, span, post_edit_region,
  clipped, regions_at, post_edit_regions, region_lines,
}
use satyrn_engine.Mutation.Apply.{line_of_offset}
use satyrn_engine.Mutation.Region.Balance.{balanced_shrink-Shrinks}

utf8_size-append : (s t : Text) → utf8_size (s ++ t) ≡ utf8_size s + utf8_size t
unfolding utf8_size
utf8_size-append [] t = omega arith
utf8_size-append (c ∷ s) t = omega (arith, utf8_size-append s t)

length-trim-le : (b : Bytes) → length (trim b) ≤ length b
unfolding trim keep_head
length-trim-le [] = omega arith
length-trim-le (c ∷ b) = head (trim b) (length-trim-le b)
  where
    head : (r : Bytes) → length r ≤ length b → length (keep_head c r) ≤ suc (length b)
    head [] h = ground arith
    head (d ∷ r) h = omega (arith, h)

-- A decoder that leaves out what it cannot decode: no character that it makes has more bytes than it
-- was made of.
abbrev pub Ignores : (Bytes → Text) → Type 0
Ignores decode_ignore = (b : Bytes) → utf8_size (decode_ignore b) ≤ length b

pub clip_to_bytes-le :
    (decode_ignore : Bytes → Text) (text : Text) (limit : ℕ)
    → Ignores decode_ignore
    → utf8_size (clip_to_bytes decode_ignore text limit) ≤ limit
unfolding clip_to_bytes
clip_to_bytes-le decode_ignore text limit h = ground (
  arith,
  h (trim (take limit (utf8 text))),
  length-trim-le (take limit (utf8 text)),
  length-take-le limit (utf8 text),
)

-- A region and the longer marker.
abbrev pub region_bound : ℕ
region_bound = 4101

marker-le : utf8_size (10 ∷ context_truncated_marker) ≤ 101
unfolding context_truncated_marker utf8_size txt
marker-le = omega arith

change_marker-le : utf8_size (10 ∷ change_truncated_marker) ≤ 101
unfolding change_truncated_marker utf8_size txt
change_marker-le = omega arith

module _ (show : ℕ → Text) (decode_ignore : Bytes → Text) where
  -- The loop of the byte cap ends with a text that fits, or with no context at all.
  fit-le :
      (draw : ℕ → ℕ → Text) (fuel b a : ℕ) (trimmed : Bool)
      → b + a ≤ fuel
      → utf8_size (draw 0 0) ≤ region_max_bytes
      → let ((b', a'), t) = fit show decode_ignore draw fuel b a trimmed in
        utf8_size (draw b' a') ≤ region_max_bytes
  unfolding fit
  fit-le draw zero zero zero trimmed k h = h
  fit-le draw zero zero (suc a) trimmed k h = absurd (omega (arith, k))
  fit-le draw zero (suc b) a trimmed k h = absurd (omega (arith, k))
  fit-le draw (suc fuel) b a trimmed k h =
      elim (Bool-cases (ltb region_max_bytes (utf8_size (draw b a)) && (ltb 0 b || ltb 0 a))) [
        | inl e ↦
            rw (e, fit)
              (let s = balanced_shrink-Shrinks b a 1 in
                fit-le draw fuel (balanced_shrink b a 1).0 (balanced_shrink b a 1).1 true
                  (omega (arith, s.total, k)) h)
        | inr e ↦ rw (e, fit) (small b a e)
      ]
    where
      small :
          (b a : ℕ)
          → (ltb region_max_bytes (utf8_size (draw b a)) && (ltb 0 b || ltb 0 a)) ≡ false
          → utf8_size (draw b a) ≤ region_max_bytes
      small zero zero e = h
      small zero (suc a) e = ground (arith, e)
      small (suc b) a e = ground (arith, e)

  marked-le :
      (rendered : Text) (trimmed : Bool)
      → utf8_size rendered ≤ region_max_bytes
      → utf8_size (marked show decode_ignore rendered trimmed) ≤ region_bound
  unfolding marked
  marked-le rendered true h =
      omega (arith, utf8_size-append rendered (10 ∷ context_truncated_marker), marker-le, h)
  marked-le rendered false h = omega (arith, h)

  with_context-le :
      (draw : ℕ → ℕ → Text) (p : (ℕ × ℕ) × Bool)
      → utf8_size (draw 0 0) ≤ region_max_bytes
      → utf8_size (with_context show decode_ignore draw p) ≤ region_bound
  unfolding with_context
  with_context-le draw ((b, a), trimmed) h =
      marked-le _ _ (fit-le draw (b + a) b a trimmed (omega arith) h)

  cut_change-le :
      (rendered : Text)
      → Ignores decode_ignore
      → utf8_size (cut_change show decode_ignore rendered) ≤ region_bound
  unfolding cut_change
  cut_change-le rendered h = omega (
    arith,
    utf8_size-append (clip_to_bytes decode_ignore rendered region_max_bytes)
        (10 ∷ change_truncated_marker),
    change_marker-le,
    clip_to_bytes-le decode_ignore rendered region_max_bytes h,
  )

  numbered_empty :
      (lines : List Text) (first last : ℕ)
      → last + 1 - first ≡ 0
      → numbered show decode_ignore lines first last ≡ []
  unfolding numbered label
  numbered_empty lines first last h = rw h refl

  -- Without context, what is drawn is the change.
  render_alone :
      (lines changed : List Text) (first last : ℕ)
      → 0 < first
      → render show decode_ignore lines changed first last 0 0 ≡ join (10 ∷ []) changed
  unfolding render
  render_alone lines changed first last h =
      rw
        (
          numbered_empty lines (first - 0) (first - 1) (omega (arith, h)),
          numbered_empty lines (last + 1) (last + 0) (omega arith),
          append-nil changed,
        )
        refl

  region_of-le :
      (lines : List Text) (total first last : ℕ)
      → 0 < first
      → Ignores decode_ignore
      → utf8_size (region_of show decode_ignore lines total first last) ≤ region_bound
  unfolding region_of
  region_of-le lines total first last pos h =
      elim (Bool-cases
        (ltb region_max_lines (last - first + 1) || ltb region_max_bytes (utf8_size (drawn)))) [
          | inl e ↦ rw e (cut_change-le drawn h)
          | inr e ↦ rw e (
              with_context-le (render show decode_ignore lines changed first last)
                (context show decode_ignore (region_max_lines - (last - first + 1))
                  (min region_context_lines (first - 1)) (min region_context_lines (total - last)))
                (rw (render_alone lines changed first last pos) (ground (arith, e))))
        ]
    where
      changed : List Text
      changed =
          numbered show decode_ignore lines first
            (if ltb region_max_lines (last - first + 1) then first + region_max_lines - 1 else last)

      drawn : Text
      drawn = join (10 ∷ []) changed

  region_at-le :
      (lines : List Text) (total : ℕ) (p : ℕ × ℕ)
      → (0 < total → 0 < p.0)
      → Ignores decode_ignore
      → utf8_size (region_at show decode_ignore lines total p) ≤ region_bound
  unfolding region_at utf8_size
  region_at-le lines zero p pos h = omega arith
  region_at-le lines (suc total) (first, last) pos h =
      region_of-le lines (suc total) first last (pos (omega arith)) h

  span_pos :
      (content : Bytes) (offset : ℕ) (new_bytes : Bytes) (total : ℕ)
      → 0 < total
      → 0 < (span show decode_ignore content offset new_bytes total).0
  unfolding span line_of_offset
  span_pos content offset new_bytes total h = omega (arith, h)

  clipped-le :
      (rendered : Text)
      → Ignores decode_ignore
      → utf8_size (clipped show decode_ignore rendered) ≤ region_bound
  unfolding clipped
  clipped-le rendered h = ground (
    arith,
    utf8_size-append (clip_to_bytes decode_ignore rendered region_max_bytes)
        (10 ∷ context_truncated_marker),
    marker-le,
    clip_to_bytes-le decode_ignore rendered region_max_bytes h,
  )

  regions_at-le :
      (after : Bytes) (lines : List Text) (total : ℕ) (applied : List (ℕ × Bytes))
      → Ignores decode_ignore
      → utf8_size (regions_at show decode_ignore after lines total applied) ≤ region_bound
  unfolding regions_at utf8_size
  regions_at-le after lines zero applied h = omega arith
  regions_at-le after lines (suc total) applied h =
      clipped-le (blocks show decode_ignore after lines (suc total) applied) h

-- Where the lenient decoder makes no character of fewer bytes than it has, the region that is
-- reported has at most 4,101 bytes, whatever the file and however many replacements: 4,000, a line
-- feed, and the longer marker, whose 100 bytes end with a line feed of their own.
pub post_edit_regions-le :
    (show : ℕ → Text) (decode_ignore : Bytes → Text) (before after : Bytes) (text : Text)
    (applied : List (ℕ × Bytes))
    → Ignores decode_ignore
    → utf8_size (post_edit_regions show decode_ignore before after text applied) ≤ region_bound
unfolding post_edit_regions post_edit_region
post_edit_regions-le show decode_ignore before after text [] h =
    regions_at-le show decode_ignore after (region_lines text) _ [] h
post_edit_regions-le show decode_ignore before after text ((offset, new_bytes) ∷ []) h =
    region_at-le show decode_ignore (region_lines text) _
      (span show decode_ignore before offset new_bytes (length (region_lines text)))
      (span_pos show decode_ignore before offset new_bytes _) h
post_edit_regions-le show decode_ignore before after text (a ∷ b ∷ applied) h =
    regions_at-le show decode_ignore after (region_lines text) _ (a ∷ b ∷ applied) h
