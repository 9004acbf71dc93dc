-- ===== src/Mutation/Replace/Publishes.antt =====
-- What `replace_once` and `replace_many` publish, and after what they read.
use satyrn_engine.Prelude.{
  ◌≡◌, refl, ◌⊎◌, inl, inr, false, Option, List, [], ◌∷◌, ltb, Bool-cases, length, is_empty,
}
use satyrn_engine.Prelude.Text.{Text, Bytes}
use satyrn_engine.Mutation.Target.Contents.{Triple-prepare_target}
use satyrn_engine.Mutation.Target.Site.{
  Authorized-Unpublished, Is-Unpublished, publishes, Authorized, Ready,
}
use satyrn_engine.Mutation.Replace.Commit.{Triple-and_close, Aborted, Triple-write_out, Delivered}
use satyrn_engine.Mutation.Io.Hoare.{
  Triple-exits, Triple-each, Triple-pure, Triple-bind, Ends, Is, Triple, seen,
}
use satyrn_engine.Mutation.Replace.Rewrites.{
  rewrites_none, rewrites_next, apply_one-Comes, apply_all-Follows, Declines-not_ok, Follows,
  Rewrites,
}
use satyrn_engine.Mutation.Apply.{applied, declined, Outcome}
use satyrn_engine.Mutation.Replace.{
  max_replacements, finished, stopped, Sequence, once_prepared, on_sequence, on_outcome,
  many_prepared, replace_once, replace_many,
}
use satyrn_engine.Mutation.Io.{pure, Sys, Res, Disk, Event}
use satyrn_engine.Mutation.Apply.Sound.{Comes}
use satyrn_engine.Mutation.Receipt.{MutationCode, MutationReceipt, refusal, is_ok}
use satyrn_engine.Mutation.Target.{Prepared}
use satyrn_engine.Contract.Fields.{Contract}

module _ {disk : Disk} {repo : Text} {contract : Contract} {path : Text} {expected : Option Text}
    (Changes : Bytes → Bytes → Type 0) where
  Triple-declined :
      (p : Prepared) (es : List Event)
      → Authorized disk repo contract path expected p es
      → (code : MutationCode) (message : Text) → is_ok code ≡ false
      → Triple {disk = disk}
          (Is es)
          (Delivered disk repo contract path expected Changes)
          (Aborted disk repo contract path expected Changes)
          (Aborted disk repo contract path expected Changes)
          (pure (refusal code message))
  unfolding refusal
  Triple-declined p es a code message h = Triple-pure _ (λ l w.
      inl (h, Is-Unpublished (Authorized-Unpublished disk repo contract path expected p es a) l w))

module _ {disk : Disk} (repo : Text) (contract : Contract) (path : Text) (expected : Option Text)
    (replacements : List (Text × Text)) where
  Triple-on_sequence :
      (p : Prepared) (es : List Event)
      → Authorized disk repo contract path expected p es
      → (s : Sequence) → Follows replacements p.before s
      → Triple {disk = disk}
          (Is es)
          (Delivered disk repo contract path expected (Rewrites replacements))
          (Aborted disk repo contract path expected (Rewrites replacements))
          (Aborted disk repo contract path expected (Rewrites replacements))
          (on_sequence disk p s)
  unfolding on_sequence
  Triple-on_sequence p es a (stopped code message) f =
      Triple-declined (Rewrites replacements) p es a code message f
  Triple-on_sequence p es a (finished after done) f =
      Triple-write_out (Rewrites replacements) p es a after f _

  Triple-many_prepared :
      (r : MutationReceipt ⊎ Prepared)
      → Triple {disk = disk}
          (Ready disk repo contract path expected r)
          (Delivered disk repo contract path expected (Rewrites replacements))
          (Aborted disk repo contract path expected (Rewrites replacements))
          (Aborted disk repo contract path expected (Rewrites replacements))
          (many_prepared disk replacements r)
  unfolding many_prepared
  Triple-many_prepared (inl receipt) = Triple-pure receipt (λ l r. inl r)
  Triple-many_prepared (inr p) = Triple-each _ (λ es a.
      Triple-and_close disk repo contract path expected _ p _
        (Triple-on_sequence p es a _ (apply_all-Follows disk p.path 1 replacements p.before [])))

  Triple-replace_many :
      Triple {disk = disk}
        (Is [])
        (Delivered disk repo contract path expected (Rewrites replacements))
        (Aborted disk repo contract path expected (Rewrites replacements))
        (Aborted disk repo contract path expected (Rewrites replacements))
        (replace_many disk repo contract path expected replacements)
  unfolding replace_many refusal publishes
  Triple-replace_many = elim (Bool-cases (is_empty replacements)) [
    | inl h ↦ rw h (Triple-pure _ (λ l p. inl (refl, Is-Unpublished refl l p)))
    | inr h ↦ rw h (elim (Bool-cases (ltb max_replacements (length replacements))) [
      | inl i ↦ rw i (Triple-pure _ (λ l p. inl (refl, Is-Unpublished refl l p)))
      | inr i ↦ rw i (
          Triple-bind _ _
            (Triple-exits _ (λ l p. inl p) (λ l p. inl p)
              (Triple-prepare_target repo contract path expected))
            (λ r. Triple-many_prepared r))
    ])
  ]

abbrev Rewrite : Text → Text → Bytes → Bytes → Type 0
Rewrite old_text new_text = Rewrites ((old_text, new_text) ∷ [])

module _ {disk : Disk} (repo : Text) (contract : Contract) (path : Text) (expected : Option Text)
    (old_text new_text : Text) where
  Triple-on_outcome :
      (p : Prepared) (es : List Event)
      → Authorized disk repo contract path expected p es
      → (o : Outcome) → Comes p.before old_text new_text o
      → Triple {disk = disk}
          (Is es)
          (Delivered disk repo contract path expected (Rewrite old_text new_text))
          (Aborted disk repo contract path expected (Rewrite old_text new_text))
          (Aborted disk repo contract path expected (Rewrite old_text new_text))
          (on_outcome disk p o)
  unfolding on_outcome
  Triple-on_outcome p es a (declined code message) c =
      Triple-declined (Rewrite old_text new_text) p es a code message
        (Declines-not_ok code p.before old_text new_text c)
  Triple-on_outcome p es a (applied b) c =
      Triple-write_out (Rewrite old_text new_text) p es a b.after
        (rewrites_next old_text new_text [] p.before b.after b c (rewrites_none b.after)) _

  Triple-once_prepared :
      (r : MutationReceipt ⊎ Prepared)
      → Triple {disk = disk}
          (Ready disk repo contract path expected r)
          (Delivered disk repo contract path expected (Rewrite old_text new_text))
          (Aborted disk repo contract path expected (Rewrite old_text new_text))
          (Aborted disk repo contract path expected (Rewrite old_text new_text))
          (once_prepared disk old_text new_text r)
  unfolding once_prepared
  Triple-once_prepared (inl receipt) = Triple-pure receipt (λ l r. inl r)
  Triple-once_prepared (inr p) = Triple-each _ (λ es a.
      Triple-and_close disk repo contract path expected _ p _
        (Triple-on_outcome p es a _ (apply_one-Comes disk p.before p.path old_text new_text)))

  Triple-replace_once :
      Triple {disk = disk}
        (Is [])
        (Delivered disk repo contract path expected (Rewrite old_text new_text))
        (Aborted disk repo contract path expected (Rewrite old_text new_text))
        (Aborted disk repo contract path expected (Rewrite old_text new_text))
        (replace_once disk repo contract path expected old_text new_text)
  unfolding replace_once
  Triple-replace_once =
      Triple-bind _ _
        (Triple-exits _ (λ l p. inl p) (λ l p. inl p)
          (Triple-prepare_target repo contract path expected))
        (λ r. Triple-once_prepared r)

-- What an action may come to, from an empty log. A receipt that is not OK comes with nothing published.
-- A receipt that is OK comes with one file published (`Committed`), and names the revision of its new
-- bytes. An exception comes with nothing published, or with all of that.
abbrev pub Transacts :
    (disk : Disk)
    → Text
    → Contract
    → Text
    → Option Text
    → List (Text × Text)
    → Res MutationReceipt × Sys disk
    → Type 0
Transacts disk repo contract path expected replacements r =
    Ends (Delivered disk repo contract path expected (Rewrites replacements))
      (Aborted disk repo contract path expected (Rewrites replacements))
      (Aborted disk repo contract path expected (Rewrites replacements)) r.0 (seen r.1.log)

module _ (disk : Disk) (repo : Text) (contract : Contract) (path : Text) (expected : Option Text)
    (w : Disk.World disk) where
  -- `replace_many` is all or nothing, whatever the calls of the system answer. It refuses and publishes
  -- nothing; or its receipt is OK, and the file that it published is the one of the request: of the
  -- repository's resolved root, the directories of the normal, declared path are opened one in the other,
  -- the file of the last component is opened and read there, its bytes are of the revision expected, and
  -- a temporary file made in that directory, to which are written these bytes with every replacement made
  -- in order, takes its name there; the receipt names the revision of what was written. Where it raises
  -- an exception, it has published nothing, or that file in that way.
  pub replace_many-Transacts :
      (replacements : List (Text × Text))
      → Transacts disk repo contract path expected replacements (
          replace_many disk repo contract path expected replacements
            (record { world = w; log = [] }))
  unfolding seen
  replace_many-Transacts replacements =
      (Triple-replace_many repo contract path expected replacements).at _ refl

  -- `replace_once` is all or nothing in the same way, with its one replacement.
  pub replace_once-Transacts :
      (old_text new_text : Text)
      → Transacts disk repo contract path expected ((old_text, new_text) ∷ []) (
          replace_once disk repo contract path expected old_text new_text
            (record { world = w; log = [] }))
  unfolding seen
  replace_once-Transacts old_text new_text =
      (Triple-replace_once repo contract path expected old_text new_text).at _ refl
