-- ===== src/Search.antt =====
-- Python's `find`, `count` and `replace(…, 1)` on `bytes` and `str`.
pub mod Laws
use satyrn_engine.Prelude.{
  ℕ, zero, suc, ◌+◌, ◌-◌, ◌*◌, ◌≤◌, ◌<◌, min, max, ◌≡◌, ◌≢◌, ◌↔◌, refl, sym, ap, subst, ◌∙◌, ◌⊎◌,
  inl, inr, Bool, true, false, not, ◌&&◌, ◌||◌, Option, none, some, is_some, List, [], ◌∷◌, ◌++◌,
  map, append-nil, append_assoc, arith, tests, ltb, leb, ◌==◌, if◌then◌else◌, Bool-cases,
  Option-cases, length, take, drop, is_empty, all_of, any_of, keep, length-append, length-take-le,
  ltb→lt, lt→ltb, ltb→le, leb→le, ==_iff,
}
use satyrn_engine.Prelude.Text.{
  Text, Bytes, txt, eq_text, eq_text_iff, contains, starts_with, split, join, utf8, utf8_size,
  encodable, has, strip,
}

one_on : Option ℕ → Option ℕ
one_on none = none
one_on (some i) = some (suc i)

-- `b.find(part)`: `none` is -1.
unfoldable pub find : Bytes → Bytes → Option ℕ
unfolding one_on
find part [] = if is_empty part then some 0 else none
find part (c ∷ b) =
    let rest = one_on (find part b) in if starts_with (c ∷ b) part then some 0 else rest

-- The places of a part that is not empty, from the left and not one in another; the first argument is
-- how much of the place before is left.
count_after : ℕ → Bytes → Bytes → ℕ
count_after left part [] = 0
count_after (suc left) part (c ∷ b) = count_after left part b
count_after zero part (c ∷ b) =
    let here = suc (count_after (length part - 1) part b) in
    let later = count_after 0 part b in if starts_with (c ∷ b) part then here else later

-- `b.count(part)`
unfoldable pub count : Bytes → Bytes → ℕ
unfolding count_after
count part b = if is_empty part then suc (length b) else count_after 0 part b

-- `b.replace(part, new, 1)`
unfoldable pub replace_first : Bytes → Bytes → Bytes → Bytes
replace_first part new [] = if is_empty part then new else []
replace_first part new (c ∷ b) =
    let rest = replace_first part new b in
    if starts_with (c ∷ b) part then new ++ drop (length part) (c ∷ b) else c ∷ rest

-- `b.count(b"\n", 0, offset)` at a byte
unfoldable pub count_byte : ℕ → Bytes → ℕ
count_byte x [] = 0
count_byte x (c ∷ b) = let rest = count_byte x b in if c == x then suc rest else rest
