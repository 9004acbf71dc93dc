-- ===== src/Search/Laws.antt =====
-- What the search finds, in terms of concatenation.
use satyrn_engine.Prelude.{
  ℕ, suc, ◌<◌, ◌≡◌, ◌≢◌, refl, sym, ap, subst, ◌∙◌, ◌⊎◌, inl, inr, true, none, some, [], ◌∷◌, ◌++◌,
  append-nil, arith, Bool-cases, Option-cases, length, drop,
}
use satyrn_engine.Prelude.Text.{Text, Bytes, starts_with}
use mathlib.Core.Option.{some-injective}
use satyrn_engine.Search.{find, count, count_after, replace_first, one_on}

-- A text that starts with a part is the part and what is left.
pub starts_with-append : (t p : Text) → starts_with t p ≡ true → t ≡ p ++ drop (length p) t
unfolding starts_with
starts_with-append t [] h = refl
starts_with-append [] (p ∷ ps) h = cc
starts_with-append (a ∷ t) (p ∷ ps) h = ground (arith, starts_with-append t ps)

pub append-starts_with : (p t : Text) → starts_with (p ++ t) p ≡ true
unfolding starts_with
append-starts_with [] t = refl
append-starts_with (a ∷ p) t = ground (arith, append-starts_with p t)

-- Where `find` succeeds, the part stands there, and `replace` puts the new part in its place.
pub record FoundAt (part new b : Bytes) (i : ℕ) : Type 0 where
  pub before : Bytes
  pub behind : Bytes
  pub whole : b ≡ before ++ (part ++ behind)
  pub replaced : replace_first part new b ≡ before ++ (new ++ behind)
  pub offset : i ≡ length before

pub find-FoundAt : (part new b : Bytes) (i : ℕ) → find part b ≡ some i → FoundAt part new b i
unfolding find one_on replace_first
find-FoundAt [] new [] i h = record {
  before = [];
  behind = [];
  whole = refl;
  replaced = sym (append-nil new);
  offset = sym (some-injective _ _ h);
}
find-FoundAt (p ∷ ps) new [] i h = cc
find-FoundAt part new (c ∷ b) i h = elim (Bool-cases (starts_with (c ∷ b) part)) [
  | inl s ↦ record {
    before = [];
    behind = drop (length part) (c ∷ b);
    whole = starts_with-append (c ∷ b) part s;
    replaced = rw s refl;
    offset = sym (some-injective _ _ (rw s at h));
  }
  | inr s ↦ elim (Option-cases (find part b)) [
    | inl n ↦ cc (rw (s, n) at h)
    | inr (j, f) ↦
        let r = find-FoundAt part new b j f in
        record {
          before = c ∷ r.before;
          behind = r.behind;
          whole = ap (λ x. c ∷ x) r.whole;
          replaced = rw s (ap (λ x. c ∷ x) r.replaced);
          offset = sym (some-injective _ _ (rw (s, f) at h)) ∙ ap suc r.offset;
        }
  ]
]

-- Where `find` fails, the part stands nowhere.
pub find-none : (part b before behind : Bytes) → find part b ≡ none → b ≢ before ++ (part ++ behind)
unfolding find one_on
find-none [] [] [] behind h e = cc
find-none (p ∷ ps) [] [] behind h e = cc
find-none part [] (x ∷ before) behind h e = cc
find-none part (c ∷ b) [] behind h e =
    let s = subst (λ t. starts_with t part ≡ true) (sym e) (append-starts_with part behind) in
    cc (rw s at h)
find-none part (c ∷ b) (x ∷ before) behind h e = elim (Bool-cases (starts_with (c ∷ b) part)) [
  | inl s ↦ cc (rw s at h)
  | inr s ↦ elim (Option-cases (find part b)) [
    | inl n ↦ find-none part b before behind n (ap (drop 1) e)
    | inr (j, f) ↦ cc (rw (s, f) at h)
  ]
]

count_after-find :
    (p : ℕ) (ps b : Bytes)
    → ((find (p ∷ ps) b ≡ none) × (count_after 0 (p ∷ ps) b ≡ 0))
      ⊎ ((i : ℕ) × (find (p ∷ ps) b ≡ some i) × (0 < count_after 0 (p ∷ ps) b))
unfolding find one_on count_after
count_after-find p ps [] = inl (refl, refl)
count_after-find p ps (c ∷ b) = elim (Bool-cases (starts_with (c ∷ b) (p ∷ ps))) [
  | inl s ↦ inr (0, rw s refl, rw s (omega arith))
  | inr s ↦ elim (count_after-find p ps b) [
    | inl (n, z) ↦ inl (rw (s, n) refl, rw s z)
    | inr (j, f, z) ↦ inr (suc j, rw (s, f) refl, rw s z)
  ]
]

-- A part that is counted no time is not found, and one that is counted is found.
pub count-find :
    (part b : Bytes)
    → ((find part b ≡ none) × (count part b ≡ 0))
      ⊎ ((i : ℕ) × (find part b ≡ some i) × (0 < count part b))
unfolding find count
count-find [] [] = inr (0, refl, omega arith)
count-find [] (c ∷ b) = inr (0, unfold starts_with in refl, omega arith)
count-find (p ∷ ps) b = count_after-find p ps b
