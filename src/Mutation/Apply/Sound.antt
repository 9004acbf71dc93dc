-- ===== src/Mutation/Apply/Sound.antt =====
-- What a replacement in memory does, and what each of its refusals says.
use satyrn_engine.Prelude.{
  ℕ, zero, suc, ◌<◌, ◌≡◌, ◌≢◌, refl, ◌⊎◌, inl, inr, false, ◌&&◌, Option, none, some, [], ◌∷◌, ◌++◌,
  arith, if◌then◌else◌, Bool-cases, length, is_empty,
}
use satyrn_engine.Prelude.Text.{Text, Bytes, eq_text, eq_text_iff, utf8, encodable}
use satyrn_engine.Search.{find, count}
use satyrn_engine.Search.Laws.{find-FoundAt, find-none, count-find}
use satyrn_engine.Mutation.Receipt.{MutationCode}
use satyrn_engine.Mutation.Apply.{
  Applied, Outcome, declined, applied, already, by_count, apply_replacement,
}

-- `part` stands nowhere in `b`.
abbrev pub Absent : Bytes → Bytes → Type 0
Absent part b = (before behind : Bytes) → b ≢ before ++ (part ++ behind)

-- `after` is `current` with `new_bytes` in the place of an occurrence of `old_bytes`: the first, and the
-- only one that `count` finds, which counts occurrences that do not overlap.
pub record Replaces (old_bytes new_bytes current : Bytes) (a : Applied) : Type 0 where
  pub before : Bytes
  pub behind : Bytes
  pub current_whole : current ≡ before ++ (old_bytes ++ behind)
  pub after_whole : a.after ≡ before ++ (new_bytes ++ behind)
  pub offset : a.anchor_offset ≡ length before
  pub first : find old_bytes current ≡ some a.anchor_offset
  pub unique : count old_bytes current ≡ 1
  pub new : a.new_bytes ≡ new_bytes
  pub changed : eq_text old_bytes new_bytes ≡ false

-- What each code says of the file's bytes and the two texts.
abbrev pub Declines : MutationCode → Bytes → Text → Text → Type 0
Declines MutationCode.mutation_failed current old new = (encodable old && encodable new) ≡ false
Declines MutationCode.no_change_requested current old new = utf8 old ≡ utf8 new
Declines MutationCode.anchor_missing current old new =
    Absent (utf8 old) current × (Absent (utf8 new) current ⊎ (utf8 new ≡ []))
Declines MutationCode.anchor_already_applied current old new =
    Absent (utf8 old) current
    × ((before : Bytes) × (behind : Bytes) × (current ≡ before ++ (utf8 new ++ behind)))
Declines MutationCode.anchor_ambiguous current old new = 1 < count (utf8 old) current
Declines _ current old new = ⊥

abbrev pub Comes : Bytes → Text → Text → Outcome → Type 0
Comes current old new (declined code message) = Declines code current old new
Comes current old new (applied a) = Replaces (utf8 old) (utf8 new) current a

missing_new :
    (nb current : Bytes)
    → (if is_empty nb then none else find nb current) ≡ none
    → Absent nb current ⊎ (nb ≡ [])
missing_new [] current h = inr refl
missing_new (c ∷ nb) current h = inl (λ before behind. find-none (c ∷ nb) current before behind h)

present_new :
    (nb current : Bytes) (i : ℕ)
    → (if is_empty nb then none else find nb current) ≡ some i
    → (before : Bytes) × (behind : Bytes) × (current ≡ before ++ (nb ++ behind))
present_new [] current i h = cc
present_new (c ∷ nb) current i h =
    let f = find-FoundAt (c ∷ nb) [] current i h in (f.before, f.behind, f.whole)

module _ (show : ℕ → Text) (encode_error : Text → Text) (current : Bytes)
    (path old new : Text) where
  already-Comes :
      (o : Option ℕ)
      → (if is_empty (utf8 new) then none else find (utf8 new) current) ≡ o
      → Absent (utf8 old) current
      → Comes current old new (already show encode_error path o current)
  unfolding already
  already-Comes none e a = (a, missing_new (utf8 new) current e)
  already-Comes (some i) e a = (a, present_new (utf8 new) current i e)

  by_count-Comes :
      (n : ℕ)
      → count (utf8 old) current ≡ n
      → eq_text (utf8 old) (utf8 new) ≡ false
      → Comes current old new (by_count show encode_error path current (utf8 old) (utf8 new) n)
  unfolding by_count
  by_count-Comes zero e d = elim (count-find (utf8 old) current) [
    | inl (n, z) ↦ already-Comes _ refl (λ before behind. find-none _ current before behind n)
    | inr (i, f, z) ↦ absurd (omega (arith, z, e))
  ]
  by_count-Comes (suc zero) e d = elim (count-find (utf8 old) current) [
    | inl (n, z) ↦ absurd (omega (arith, z, e))
    | inr (i, f, z) ↦
        let r = find-FoundAt (utf8 old) (utf8 new) current i f in
        rw (f, Comes)
          (record {
            before = r.before;
            behind = r.behind;
            current_whole = r.whole;
            after_whole = r.replaced;
            offset = r.offset;
            first = f;
            unique = e;
            new = refl;
            changed = d;
          })
  ]
  by_count-Comes (suc (suc n)) e d = omega (arith, e)

  -- A replacement in memory is declined for the reason that its code names, or puts the new text in the
  -- place of an occurrence of the old text and leaves what stands before and behind it. That occurrence
  -- is the first, and the only one of those that `count` finds, which counts from the left and passes
  -- over an occurrence that overlaps one it has counted.
  pub apply_replacement-Comes :
      Comes current old new (apply_replacement show encode_error current path old new)
  unfolding apply_replacement
  apply_replacement-Comes = elim (Bool-cases (encodable old)) [
    | inr o ↦ let h : (encodable old && encodable new) ≡ false = rw o refl in rw (o, Comes) h
    | inl o ↦ elim (Bool-cases (encodable new)) [
      | inr n ↦
          let h : (encodable old && encodable new) ≡ false = rw (o, n) refl in rw (o, n, Comes) h
      | inl n ↦ elim (Bool-cases (eq_text (utf8 old) (utf8 new))) [
        | inl e ↦ rw (o, n, e) ((eq_text_iff (utf8 old) (utf8 new)).0 e)
        | inr e ↦ rw (o, n, e) (by_count-Comes _ refl e)
      ]
    ]
  ]
