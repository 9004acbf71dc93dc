-- ===== src/Prelude/Text.antt =====
-- Python's `str` and `bytes` as lists of code points and of bytes.
use satyrn_engine.Prelude.Tests.{Bool-cases, ltb, leb, ◌==◌, if◌then◌else◌}
use satyrn_engine.Prelude.Lists.{all_of, any_of}
use mathlib.Core.Logic.{inr, inl, ◌↔◌}
use Prim.Native.Nat.{◌%◌, ◌/◌, ℕ, ◌+◌}
use mathlib.Core.Option.{none, some, Option}
use Prim.Native.Char.{code}
use Prim.Native.String.{String}
use mathlib.Core.Path.{◌≡◌, refl}
use mathlib.Core.Bool.{Bool, true, false, not, ◌&&◌, ◌||◌}
use mathlib.Core.List.{List, [], ◌∷◌, ◌++◌}
use native.Mathlib.Omega.{arith}

abbrev pub Text : Type 0
Text = List ℕ

abbrev pub Bytes : Type 0
Bytes = List ℕ

abbrev codes : String → Text
codes String.[] = []
codes (String.◌∷◌ c s) = code c ∷ codes s

-- A literal of the source; shut in proofs, where it is one unknown text.
unfoldable pub txt : String → Text
txt = codes

-- `==` on `str` and on `bytes`
abbrev pub eq_text : Text → Text → Bool
eq_text [] [] = true
eq_text [] (b ∷ bs) = false
eq_text (a ∷ as') [] = false
eq_text (a ∷ as') (b ∷ bs) = a == b && eq_text as' bs

pub eq_text_refl : (t : Text) → eq_text t t ≡ true
eq_text_refl [] = refl
eq_text_refl (a ∷ t) = ground (arith, eq_text_refl t)

pub eq_text_sound : (s t : Text) → eq_text s t ≡ true → s ≡ t
eq_text_sound [] [] h = refl
eq_text_sound [] (b ∷ t) h = ground arith
eq_text_sound (a ∷ s) [] h = ground arith
eq_text_sound (a ∷ s) (b ∷ t) h = ground (arith, eq_text_sound s t)

pub eq_text_iff : (s t : Text) → (eq_text s t ≡ true) ↔ (s ≡ t)
eq_text_iff s t = (eq_text_sound s t, λ e. ground (arith, eq_text_refl t))

-- `t in ts`
abbrev pub contains : Text → List Text → Bool
contains t = any_of (eq_text t)

-- `t.startswith(p)`
unfoldable pub starts_with : Text → Text → Bool
starts_with t [] = true
starts_with [] (p ∷ ps) = false
starts_with (a ∷ t) (p ∷ ps) = a == p && starts_with t ps

-- The code points that `str.strip` and `str.isspace` take for white space.
unfoldable pub is_space : ℕ → Bool
is_space c =
    leb 9 c && leb c 13
    || leb 28 c && leb c 32
    || c == 133
    || c == 160
    || c == 5760
    || leb 8192 c && leb c 8202
    || c == 8232
    || c == 8233
    || c == 8239
    || c == 8287
    || c == 12288

-- `not t.strip()`
unfoldable pub is_blank : Text → Bool
unfolding is_space
is_blank = all_of is_space

-- `t.lstrip()`, `t.rstrip()` and `t.strip()` for `str`
unfoldable pub trim_left : Text → Text
unfolding is_space
trim_left [] = []
trim_left (c ∷ t) = if is_space c then trim_left t else c ∷ t

trim_end : ℕ → Text → Text
unfolding is_space
trim_end x [] = if is_space x then [] else x ∷ []
trim_end x (y ∷ r) = x ∷ y ∷ r

unfoldable pub trim_right : Text → Text
unfolding trim_end
trim_right [] = []
trim_right (c ∷ t) = trim_end c (trim_right t)

unfoldable pub trim : Text → Text
unfolding trim_left trim_right
trim t = trim_right (trim_left t)

-- `sep.join(parts)`
unfoldable pub join : Text → List Text → Text
join sep [] = []
join sep (t ∷ []) = t
join sep (t ∷ u ∷ ts) = t ++ sep ++ join sep (u ∷ ts)

-- `len(t.encode("utf-8"))`, for a text without surrogates
unfoldable pub utf8_size : Text → ℕ
utf8_size [] = 0
utf8_size (c ∷ t) =
    (if ltb c 128 then 1 else if ltb c 2048 then 2 else if ltb c 65536 then 3 else 4) + utf8_size t

-- `t.decode("ascii")`: `none` is a `UnicodeDecodeError`.
unfoldable pub decode_ascii : Bytes → Option Text
decode_ascii b = if all_of (λ c. ltb c 128) b then some b else none

-- `b.strip()`, `b.lstrip()` for `bytes`
is_ascii_space : ℕ → Bool
is_ascii_space c = leb 9 c && leb c 13 || c == 32

lstrip : Bytes → Bytes
unfolding is_ascii_space
lstrip [] = []
lstrip (c ∷ b) = if is_ascii_space c then lstrip b else c ∷ b

rstrip : Bytes → Bytes
unfolding is_ascii_space
rstrip [] = []
rstrip (c ∷ b) = drop_tail c (rstrip b)
  where
    drop_tail : ℕ → Bytes → Bytes
    drop_tail x [] = if is_ascii_space x then [] else x ∷ []
    drop_tail x (y ∷ r) = x ∷ y ∷ r

unfoldable pub strip : Bytes → Bytes
unfolding lstrip rstrip
strip b = rstrip (lstrip b)

-- `t.split(sep)` at one code point; `b.splitlines()` of git's output is the same at 10, less a last
-- empty line.
cons_head : ℕ → List Text → List Text
cons_head c [] = (c ∷ []) ∷ []
cons_head c (t ∷ ts) = (c ∷ t) ∷ ts

unfoldable pub split : ℕ → Text → List Text
unfolding cons_head
split sep [] = [] ∷ []
split sep (c ∷ t) = let rest = split sep t in if c == sep then [] ∷ rest else cons_head c rest

cons_head_nonempty :
    (c : ℕ) (ts : List Text) → (head : Text) × (tail : List Text) × (cons_head c ts ≡ head ∷ tail)
unfolding cons_head
cons_head_nonempty c [] = (c ∷ [], [], refl)
cons_head_nonempty c (t ∷ ts) = (c ∷ t, ts, refl)

pub split_nonempty :
    (sep : ℕ) (t : Text) → (head : Text) × (tail : List Text) × (split sep t ≡ head ∷ tail)
unfolding split
split_nonempty sep [] = ([], [], refl)
split_nonempty sep (c ∷ t) = elim (Bool-cases (c == sep)) [
  | inl h ↦ rw h ([], split sep t, refl)
  | inr h ↦ rw h (cons_head_nonempty c (split sep t))
]

-- Is a code point in the text?
unfoldable pub has : ℕ → Text → Bool
has c = any_of (λ x. x == c)

-- `t.removeprefix(p)`
unfoldable pub remove_prefix : Text → Text → Text
remove_prefix p t = if starts_with t p then drop_all p t else t
  where
    drop_all : Text → Text → Text
    drop_all [] u = u
    drop_all (_ ∷ q) [] = []
    drop_all (_ ∷ q) (_ ∷ u) = drop_all q u

-- `t.encode("utf-8")`, for a text without surrogates
abbrev utf8_char : ℕ → Bytes
utf8_char c =
    if ltb c 128
    then c ∷ []
    else if ltb c 2048
    then (192 + c / 64) ∷ (128 + c % 64) ∷ []
    else if ltb c 65536
    then (224 + c / 4096) ∷ (128 + c / 64 % 64) ∷ (128 + c % 64) ∷ []
    else (240 + c / 262144) ∷ (128 + c / 4096 % 64) ∷ (128 + c / 64 % 64) ∷ (128 + c % 64) ∷ []

unfoldable pub utf8 : Text → Bytes
utf8 [] = []
utf8 (c ∷ t) = utf8_char c ++ utf8 t

-- A surrogate code point, at which `str.encode` raises a `UnicodeEncodeError`
unfoldable pub encodable : Text → Bool
encodable = all_of (λ c. not (leb 55296 c && leb c 57343))

-- `t.endswith(suffix)`
unfoldable pub ends_with : Text → Text → Bool
ends_with [] suffix = eq_text [] suffix
ends_with (c ∷ t) suffix = eq_text (c ∷ t) suffix || ends_with t suffix

-- `splitlines`: a carriage return and a line feed are one break, and a last break ends a line.
pieces : (ℕ → Bool) → Bool → Text → List Text
unfolding cons_head
pieces is_break after_cr [] = []
pieces is_break after_cr (c ∷ t) =
    let pair = after_cr && c == 10 in
    let rest = pieces is_break (not pair && c == 13) t in
    if pair then rest else if is_break c then [] ∷ rest else cons_head c rest

unfoldable pub text_lines : Text → List Text
unfolding pieces
text_lines =
    pieces (λ c. leb 10 c && leb c 13 || leb 28 c && leb c 30 || c == 133 || c == 8232 || c == 8233)
      false

unfoldable pub byte_lines : Bytes → List Bytes
unfolding pieces
byte_lines = pieces (λ c. c == 10 || c == 13) false
