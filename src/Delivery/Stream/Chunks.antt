-- ===== src/Delivery/Stream/Chunks.antt =====
-- `_consume_chunk` of delivery.py, over more than one chunk.
use satyrn_engine.Prelude.{
  subst, ℕ, zero, suc, ◌<◌, ◌≡◌, refl, sym, ap, ◌∙◌, Option, none, some, [], ◌∷◌, ◌++◌, length,
  length-append, arith, Option-cases, Bool-cases, inl, inr, append_assoc, ◌==◌,
}
use satyrn_engine.Prelude.Text.{Text, Bytes}
use satyrn_engine.Prelude.Value.{Decoded}
use mathlib.Core.Option.{some-injective}
use satyrn_engine.Budget.{Budget}
use satyrn_engine.Budget.Counter.{TurnCounter}
use satyrn_engine.Delivery.Stream.{
  cut_line, first_line, Consumed, over, feed_line, consume_lines, consume_chunk,
}

-- The line that is found first, and that what is left is shorter.
abbrev Shorter : Bytes → Option (Bytes × Bytes) → Type 0
Shorter b none = Unit
Shorter b (some (line, rest)) = length rest < length b

cut_line-Shorter :
    (c : ℕ) (b : Bytes) (o : Option (Bytes × Bytes)) → Shorter b o → Shorter (c ∷ b) (cut_line c o)
unfolding cut_line
cut_line-Shorter c b none h = tt
cut_line-Shorter c b (some (line, rest)) h = omega (arith, h)

first_line-Shorter : (b : Bytes) → Shorter b (first_line b)
unfolding first_line
first_line-Shorter [] = tt
first_line-Shorter (c ∷ b) = elim (Bool-cases (c == 10)) [
  | inl e ↦ rw (e, Shorter) (omega arith)
  | inr e ↦ rw e (cut_line-Shorter c b (first_line b) (first_line-Shorter b))
]

-- More output leaves the first line as it is.
abbrev extended : Bytes → Option (Bytes × Bytes) → Option (Bytes × Bytes)
extended x none = none
extended x (some (line, rest)) = some (line, rest ++ x)

first_line-append :
    (b x line rest : Bytes)
    → first_line b ≡ some (line, rest)
    → first_line (b ++ x) ≡ some (line, rest ++ x)
unfolding first_line cut_line
first_line-append [] x line rest h = cc
first_line-append (c ∷ b) x line rest h = elim (Bool-cases (c == 10)) [
  | inl e ↦ rw e (ap (extended x) (rw e at h))
  | inr e ↦ elim (Option-cases (first_line b)) [
    | inl n ↦ cc (rw (e, n) at h)
    | inr ((l, r), f) ↦ rw (e, first_line-append b x l r f) (ap (extended x) (rw (e, f) at h))
  ]
]

module _ (decode_replace : Bytes → Text) (json_loads : Text → Decoded) (budget : Budget) where
  -- Fuel beyond the number of bytes changes nothing.
  consume_lines-fuel :
      (f g : ℕ) (p : Bytes) (c : TurnCounter)
      → length p < f
      → length p < g
      → consume_lines decode_replace json_loads budget f p c
        ≡ consume_lines decode_replace json_loads budget g p c
  unfolding consume_lines
  consume_lines-fuel zero g p c h k = absurd (omega (arith, h))
  consume_lines-fuel (suc f) zero p c h k = absurd (omega (arith, k))
  consume_lines-fuel (suc f) (suc g) p c h k = elim (Option-cases (first_line p)) [
    | inl n ↦ rw (n, consume_lines) refl
    | inr ((line, rest), e) ↦
        rw (e, consume_lines)
          (elim (Option-cases (feed_line decode_replace json_loads budget line c)) [
            | inl n ↦ rw (n, consume_lines) refl
            | inr (fed, d) ↦
                rw (d, consume_lines)
                  (elim (Option-cases (over budget fed)) [
                    | inl n ↦
                        rw (n, consume_lines)
                          (let s = rw (e, Shorter) at (first_line-Shorter p) in
                            consume_lines-fuel f g rest fed (omega (arith, s, h))
                              (omega (arith, s, k)))
                    | inr (state, y) ↦ rw (y, consume_lines) refl
                  ])
          ])
  ]

  -- A line that crosses no limit is taken off.
  consume_lines-line :
      (g : ℕ) (p line rest : Bytes) (c fed : TurnCounter)
      → first_line p ≡ some (line, rest)
      → feed_line decode_replace json_loads budget line c ≡ some fed
      → over budget fed ≡ none
      → consume_lines decode_replace json_loads budget (suc g) p c
        ≡ consume_lines decode_replace json_loads budget g rest fed
  unfolding consume_lines
  consume_lines-line g p line rest c fed e d o = rw (e, consume_lines) (rw d (rw o refl))

  -- What follows the bytes `p`, once these are counted as `r`.
  abbrev Continues : Bytes → Bytes → TurnCounter → Consumed → Type 0
  Continues p x c r =
      consume_lines decode_replace json_loads budget (suc (length (p ++ x))) (p ++ x) c
      ≡ consume_lines decode_replace json_loads budget (suc (length (r.pending ++ x)))
          (r.pending ++ x) r.counter

  consume_lines-append :
      (f : ℕ) (p x : Bytes) (c : TurnCounter) (r : Consumed)
      → length p < f
      → consume_lines decode_replace json_loads budget f p c ≡ some r
      → r.exhausted ≡ none
      → Continues p x c r
  unfolding consume_lines
  consume_lines-append zero p x c r k h e = absurd (omega (arith, k))
  consume_lines-append (suc f) p x c r k h e = elim (Option-cases (first_line p)) [
    | inl n ↦ subst (Continues p x c) (some-injective _ _ (rw (n, consume_lines) at h)) refl
    | inr ((line, rest), l) ↦
        elim (Option-cases (feed_line decode_replace json_loads budget line c)) [
          | inl n ↦ cc (rw (l, n, consume_lines) at h)
          | inr (fed, d) ↦ elim (Option-cases (over budget fed)) [
            | inr (state, o) ↦ cc (o, e, rw (l, consume_lines) at h)
            | inl o ↦
                let s = rw (l, Shorter) at (first_line-Shorter p) in
                consume_lines-line (length (p ++ x)) (p ++ x) line (rest ++ x) c fed
                  (first_line-append p x line rest l) d o
                ∙ consume_lines-fuel (length (p ++ x)) (suc (length (rest ++ x))) (rest ++ x) fed
                    (omega (arith, s, length-append p x, length-append rest x)) (omega arith)
                ∙ consume_lines-append f rest x fed r (omega (arith, s, k))
                    (sym (consume_lines-line f p line rest c fed l d o) ∙ h) e
          ]
        ]
  ]

-- Where a chunk is taken in without an exception and without a limit crossed, the next chunk is
-- counted as if both had come as one: the waiting bytes, the count and the exhausted limit that result
-- are the same, and so is an exception.
pub consume_chunk-append :
    (decode_replace : Bytes → Text) (json_loads : Text → Decoded) (budget : Budget)
    (chunk next pending : Bytes) (counter : TurnCounter) (r : Consumed)
    → consume_chunk decode_replace json_loads budget chunk pending counter ≡ some r
    → r.exhausted ≡ none
    → consume_chunk decode_replace json_loads budget (chunk ++ next) pending counter
      ≡ consume_chunk decode_replace json_loads budget next r.pending r.counter
unfolding consume_chunk
consume_chunk-append decode_replace json_loads budget chunk next pending counter r h e =
    rw (sym (append_assoc pending chunk next)) (
      consume_lines-append decode_replace json_loads budget (suc (length (pending ++ chunk)))
        (pending ++ chunk) next counter r (omega arith) h e)
