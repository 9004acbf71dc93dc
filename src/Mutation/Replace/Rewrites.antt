-- ===== src/Mutation/Replace/Rewrites.antt =====
-- A sequence of replacements in memory, as Mutation.Replace makes it.
use satyrn_engine.Prelude.{ℕ, suc, ◌≡◌, refl, subst, ◌⊎◌, inl, inr, false, List, [], ◌∷◌}
use satyrn_engine.Prelude.Text.{Text, Bytes, utf8}
use satyrn_engine.Mutation.Apply.Sound.{apply_replacement-Comes, Comes, Replaces, Declines}
use satyrn_engine.Mutation.Replace.{finished, stopped, apply_one, apply_all, Sequence}
use satyrn_engine.Mutation.Apply.{applied, declined, Outcome, Applied}
use satyrn_engine.Mutation.Receipt.{MutationCode, is_ok}
use satyrn_engine.Mutation.Io.{Disk}

-- The replacements in their order, each of the place of its old text, the first and
-- the only one that is counted, in what the ones before it left.
pub data Rewrites : List (Text × Text) → Bytes → Bytes → Type 0 where
  rewrites_none : (b : Bytes) → Rewrites [] b b
  rewrites_next :
      (old_text new_text : Text) (rest : List (Text × Text)) (current after : Bytes) (a : Applied)
      → Replaces (utf8 old_text) (utf8 new_text) current a
      → Rewrites rest a.after after
      → Rewrites ((old_text, new_text) ∷ rest) current after

Outcome-cases :
    (o : Outcome)
    → ((code : MutationCode) × (message : Text) × (o ≡ declined code message))
      ⊎ ((a : Applied) × (o ≡ applied a))
Outcome-cases (declined code message) = inl (code, message, refl)
Outcome-cases (applied a) = inr (a, refl)

pub Declines-not_ok :
    (code : MutationCode) (b : Bytes) (old new : Text)
    → Declines code b old new
    → is_ok code ≡ false
Declines-not_ok MutationCode.ok b old new d = absurd d
Declines-not_ok MutationCode.path_undeclared b old new d = absurd d
Declines-not_ok MutationCode.revision_unavailable b old new d = absurd d
Declines-not_ok MutationCode.revision_stale b old new d = absurd d
Declines-not_ok MutationCode.no_change_requested b old new d = refl
Declines-not_ok MutationCode.anchor_missing b old new d = refl
Declines-not_ok MutationCode.anchor_already_applied b old new d = refl
Declines-not_ok MutationCode.anchor_ambiguous b old new d = refl
Declines-not_ok MutationCode.mutation_failed b old new d = refl

abbrev pub Follows : List (Text × Text) → Bytes → Sequence → Type 0
Follows replacements before (stopped code message) = is_ok code ≡ false
Follows replacements before (finished after done) = Rewrites replacements before after

Follows-next :
    (old_text new_text : Text) (rest : List (Text × Text)) (current : Bytes) (a : Applied)
    (s : Sequence)
    → Replaces (utf8 old_text) (utf8 new_text) current a
    → Follows rest a.after s
    → Follows ((old_text, new_text) ∷ rest) current s
Follows-next old_text new_text rest current a (stopped code message) r f = f
Follows-next old_text new_text rest current a (finished after done) r f =
    rewrites_next old_text new_text rest current after a r f

module _ (disk : Disk) where
  pub apply_one-Comes :
      (current : Bytes) (path old_text new_text : Text)
      → Comes current old_text new_text (apply_one disk current path old_text new_text)
  unfolding apply_one
  apply_one-Comes current path old_text new_text =
      apply_replacement-Comes (Disk.show disk) (Disk.encode_error disk) current path old_text
        new_text

  pub apply_all-Follows :
      (path : Text) (index : ℕ) (replacements : List (Text × Text)) (current : Bytes)
      (done : List (ℕ × Bytes))
      → Follows replacements current (apply_all disk path index replacements current done)
  unfolding apply_all
  apply_all-Follows path index [] current done = rewrites_none current
  apply_all-Follows path index ((old_text, new_text) ∷ rest) current done =
      let c = apply_one-Comes current path old_text new_text in
      elim (Outcome-cases (apply_one disk current path old_text new_text)) [
        | inl (code, message, e) ↦
            rw (e, Follows)
              (Declines-not_ok code current old_text new_text
                (subst (Comes current old_text new_text) e c))
        | inr (a, e) ↦
            rw (e, Follows)
              (Follows-next old_text new_text rest current a _
                (subst (Comes current old_text new_text) e c)
                (apply_all-Follows path (suc index) rest a.after _))
      ]
