-- ===== src/Runner/Output/Tail.antt =====
-- What `tail_output` keeps.
use satyrn_engine.Prelude.{
  ◌<◌, ◌↔◌, true, ℕ, zero, suc, ◌-◌, ◌≤◌, ◌≡◌, refl, Bool, ◌++◌, if◌then◌else◌, ltb, ltb→lt, length,
  take, drop, take-append_drop, arith, Bool-cases, inl, inr, [], ◌∷◌,
}
use satyrn_engine.Prelude.Text.{Text, Bytes}
use satyrn_engine.Runner.Output.{tail_bytes, truncation_marker, tail_output}

length-drop : (n : ℕ) (b : Bytes) → length (drop n b) ≡ length b - n
length-drop zero b = omega arith
length-drop (suc n) [] = omega arith
length-drop (suc n) (x ∷ b) = omega (arith, length-drop n b)

-- `b` is cut in two, and the output is made of the second part.
pub record Keeps (decode : Bytes → Text) (b : Bytes) (out : Text × Bool) : Type 0 where
  pub front : Bytes
  pub last : Bytes
  pub all : front ++ last ≡ b
  pub bounded : length last ≤ tail_bytes
  pub text : out.0 ≡ (if out.1 then truncation_marker ++ decode last else decode last)
  pub marked : (out.1 ≡ true) ↔ (tail_bytes < length b)
  pub size : length last ≡ (if out.1 then tail_bytes else length b)

-- The output is what the decoder makes of an end of the bytes, of 8192 bytes at most. It is marked as
-- truncated exactly where there are more than 8192 bytes: then the marker stands in front and the end has
-- 8192 bytes. Where it is not marked, the end is the whole.
pub tail_output-Keeps : (decode : Bytes → Text) (b : Bytes) → Keeps decode b (tail_output decode b)
unfolding tail_output
tail_output-Keeps decode b = elim (Bool-cases (ltb tail_bytes (length b))) [
  | inl h ↦
      rw (h, Keeps)
        (record {
          front = take (length b - tail_bytes) b;
          last = drop (length b - tail_bytes) b;
          all = take-append_drop (length b - tail_bytes) b;
          bounded = omega (arith, length-drop (length b - tail_bytes) b, ltb→lt _ _ h);
          text = refl;
          marked = ((λ e. ltb→lt _ _ h), (λ e. refl));
          size = omega (arith, length-drop (length b - tail_bytes) b, ltb→lt _ _ h);
        })
  | inr h ↦
      rw (h, Keeps)
        (record {
          front = [];
          last = b;
          all = refl;
          bounded = ground (arith, h);
          text = refl;
          marked = ground (arith, h);
          size = refl;
        })
]
