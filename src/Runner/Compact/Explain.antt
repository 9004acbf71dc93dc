-- ===== src/Runner/Compact/Explain.antt =====
-- The explanations block by block.
use satyrn_engine.Prelude.{
  ℕ, zero, suc, ◌-◌, ◌≡◌, refl, ap, ◌∙◌, inl, inr, Bool, true, false, Option, none, some, List, [],
  ◌∷◌, ◌++◌, map, append_assoc, arith, leb, if◌then◌else◌, Bool-cases, take, drop, keep,
}
use satyrn_engine.Prelude.Text.{Text, trim, trim_right}
use satyrn_engine.Runner.Compact.{
  scan, is_explanation, explanation_lines, scan_all, header_lines, explanations, Scan,
}

-- The lines up to the next block's header, and the blocks after it.
module _ (is_block : Text → Bool) where
  unfoldable pub block_body : List Text → List Text
  block_body [] = []
  block_body (line ∷ lines) =
      let rest = block_body lines in if is_block (trim line) then [] else line ∷ rest

  unfoldable pub later_blocks : List Text → List (Text × List Text)
  unfolding block_body
  later_blocks [] = []
  later_blocks (line ∷ lines) =
      let rest = later_blocks lines in
      if is_block (trim line) then (trim line, block_body lines) ∷ rest else rest

abbrev pub under : Option Text → List Text → List Text
under header [] = []
under header (line ∷ lines) = header_lines header ++ (line ∷ lines)

-- What one block gives: its explanations after the first, three at most, under its header if there are any.
unfoldable pub of_block : Option Text → List Text → List Text
of_block header body =
    under header (map trim_right (take explanation_lines (drop 1 (keep is_explanation body))))

abbrev pub of_blocks : List (Text × List Text) → List Text
of_blocks [] = []
of_blocks ((header, body) ∷ blocks) = of_block (some header) body ++ of_blocks blocks

under-none : (lines : List Text) → under none lines ≡ lines
under-none [] = refl
under-none (line ∷ lines) = refl

abbrev without_first : Bool → List Text → List Text
without_first true lines = lines
without_first false lines = drop 1 lines

-- What is left of a block in the midst of the loop
abbrev partial : Scan → List Text → List Text
partial s lines =
    under s.header
      (map trim_right (take (explanation_lines - s.taken) (without_first s.seen_assertion lines)))

take_nil : (n : ℕ) → take {A = Text} n [] ≡ []
take_nil zero = refl
take_nil (suc n) = refl

without_first_nil : (b : Bool) → without_first b [] ≡ []
without_first_nil true = refl
without_first_nil false = refl

partial_nil : (s : Scan) → partial s [] ≡ []
partial_nil s = rw (without_first_nil s.seen_assertion, take_nil (explanation_lines - s.taken)) refl

-- One explanation in a block where the first was seen
partial_next :
    (header : Option Text) (taken : ℕ) (line : Text) (lines : List Text)
    → leb explanation_lines taken ≡ false
    → partial (record { header = header; seen_assertion = true; taken = taken }) (line ∷ lines)
      ≡ (header_lines header ++ trim_right line ∷ [])
        ++ partial (record { header = none; seen_assertion = true; taken = suc taken }) lines
partial_next header taken line lines h =
    let e : explanation_lines - taken ≡ suc (explanation_lines - suc taken) = ground arith in
    rw (e, under-none, append_assoc (header_lines header) (trim_right line ∷ [])) refl

partial_full :
    (header : Option Text) (taken : ℕ) (lines : List Text)
    → leb explanation_lines taken ≡ true
    → partial (record { header = header; seen_assertion = true; taken = taken }) lines ≡ []
partial_full header taken lines h =
    let e : explanation_lines - taken ≡ 0 = ground arith in rw e refl

abbrev state : Option Text → Bool → ℕ → Scan
state header seen taken = record { header = header; seen_assertion = seen; taken = taken }

module _ (is_block : Text → Bool) where
  -- The explanations that are left in `lines`, as the blocks give them
  abbrev rest_of : Scan → List Text → List Text
  rest_of s lines =
      partial s (keep is_explanation (block_body is_block lines))
      ++ of_blocks (later_blocks is_block lines)

  scan_all-partial :
      (header : Option Text) (seen : Bool) (taken : ℕ) (lines : List Text)
      → scan_all is_block (state header seen taken) lines ≡ rest_of (state header seen taken) lines
  unfolding scan_all scan block_body later_blocks of_block
  scan_all-partial header seen taken [] = rw (partial_nil (state header seen taken)) refl
  scan_all-partial header seen taken (line ∷ lines) = elim (Bool-cases (is_block (trim line))) [
    | inl b ↦
        rw (b, partial_nil (state header seen taken))
          (scan_all-partial (some (trim line)) false 0 lines)
    | inr b ↦ elim (Bool-cases (is_explanation line)) [
      | inr e ↦ rw (b, e) (scan_all-partial header seen taken lines)
      | inl e ↦
          rw (b, e)
            (elim (Bool-cases seen) [
              | inr s ↦ rw s (scan_all-partial header true taken lines)
              | inl s ↦ rw s (elim (Bool-cases (leb explanation_lines taken)) [
                | inl f ↦
                    rw (f, partial_full header taken _ f)
                      (scan_all-partial header true taken lines
                        ∙ ap (λ x. x ++ of_blocks (later_blocks is_block lines))
                            (partial_full header taken
                              (keep is_explanation (block_body is_block lines)) f))
                | inr f ↦
                    rw (f, partial_next header taken line _ f)
                      (rw (append_assoc (header_lines header ++ trim_right line ∷ [])) (
                        ap (λ x. (header_lines header ++ trim_right line ∷ []) ++ x)
                          (scan_all-partial none true (suc taken) lines)))
              ])
            ])
    ]
  ]

  -- `_explanations` gives what a split of the lines at the block headers gives: of each block the lines
  -- that start with `E`, less the first, three at most, under the block's header.
  pub explanations-of_blocks :
      (lines : List Text)
      → explanations is_block lines
        ≡ of_block none (block_body is_block lines) ++ of_blocks (later_blocks is_block lines)
  unfolding explanations of_block
  explanations-of_blocks lines = scan_all-partial none false 0 lines
