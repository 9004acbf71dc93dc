-- ===== src/Mutation/Replace/Closing.antt =====
-- The descriptors that the actions of Mutation.Replace open and close.
use satyrn_engine.Prelude.{
  ℕ, ◌≡◌, refl, ◌⊎◌, inl, inr, Option, none, some, List, [], arith, ltb, Bool-cases, length,
  is_empty,
}
use satyrn_engine.Prelude.Text.{Text, Bytes}
use satyrn_engine.Mutation.Io.Moves.{
  after_same, Moves-finally, Moves->>, pair, Moves-raise, Moves-catch_os, Moves-pure, Moves-bind,
  Moves, closes, opens, Held, nothing,
}
use satyrn_engine.Mutation.Io.Moves.Calls.{IsReliable}
use satyrn_engine.Mutation.Target.Descriptors.{
  Moves-atomic_replace, Moves-close_both, prepared_held, Moves-prepare_target,
}
use satyrn_engine.Mutation.Replace.{
  finished, stopped, max_replacements, Sequence, write_out, with_text, once_prepared, on_sequence,
  on_outcome, many_prepared, attempt_write, and_close, after_write, replace_once, replace_many,
}
use satyrn_engine.Mutation.Apply.{applied, declined, Outcome}
use satyrn_engine.Mutation.Target.{Prepared}
use satyrn_engine.Mutation.Receipt.{MutationReceipt}
use satyrn_engine.Mutation.Io.{Sys, Io, Res, Disk}
use satyrn_engine.Contract.Fields.{Contract}

module _ {disk : Disk} (ok : IsReliable disk) where
  Moves-with_text :
      (s e : Held) (f : Text → MutationReceipt) (r : Text ⊎ Text)
      → Moves {disk = disk} s (λ _. s) e s (with_text disk f r)
  unfolding with_text
  Moves-with_text s e f (inl text) = Moves-pure _ (λ fd. refl)
  Moves-with_text s e f (inr t) = Moves-raise (λ fd. refl)

  Moves-after_write :
      (s e : Held) (p : Prepared) (b : Bytes) (region : Text → Text) (r : Option MutationReceipt)
      → Moves {disk = disk} s (λ _. s) e s (after_write disk p b region r)
  unfolding after_write
  Moves-after_write s e p b region (some receipt) = Moves-pure _ (λ fd. refl)
  Moves-after_write s e p b region none = Moves-with_text s e _ _

  Moves-attempt_write :
      (s e : Held) (p : Prepared) (b : Bytes)
      → Moves {disk = disk} s (λ _. s) e s (attempt_write disk p b)
  unfolding attempt_write
  Moves-attempt_write s e p b =
      Moves-catch_os _ _
        (Moves->> _ _ (Moves-atomic_replace ok s p.parent_descriptor p.target_name p.mode b)
          (Moves-pure _ (λ fd. refl)))
        (λ t. Moves-pure _ (λ fd. refl))

  Moves-write_out :
      (s e : Held) (p : Prepared) (b : Bytes) (region : Text → Text)
      → Moves {disk = disk} s (λ _. s) e s (write_out disk p b region)
  unfolding write_out
  Moves-write_out s e p b region =
      Moves-bind _ _ (Moves-attempt_write s e p b) (λ r. Moves-after_write s e p b region r)

  Moves-on_outcome :
      (s : Held) (p : Prepared) (o : Outcome)
      → Moves {disk = disk} s (λ _. s) s s (on_outcome disk p o)
  unfolding on_outcome
  Moves-on_outcome s p (declined code message) = Moves-pure _ (λ fd. refl)
  Moves-on_outcome s p (applied a) = Moves-write_out s s p a.after _

  Moves-on_sequence :
      (s : Held) (p : Prepared) (o : Sequence)
      → Moves {disk = disk} s (λ _. s) s s (on_sequence disk p o)
  unfolding on_sequence
  Moves-on_sequence s p (stopped code message) = Moves-pure _ (λ fd. refl)
  Moves-on_sequence s p (finished b done) = Moves-write_out s s p b _

  Moves-and_close :
      (p : Prepared) (m : Io disk MutationReceipt)
      → Moves
          (pair p.parent_descriptor p.target_descriptor)
          (λ _. pair p.parent_descriptor p.target_descriptor)
          (pair p.parent_descriptor p.target_descriptor)
          (pair p.parent_descriptor p.target_descriptor)
          m
      → Moves
          (pair p.parent_descriptor p.target_descriptor)
          (λ _. nothing)
          nothing
          nothing
          (and_close disk p m)
  unfolding and_close
  Moves-and_close p m a = Moves-finally m _ a (Moves-close_both ok _ _)

  Moves-once_prepared :
      (old_text new_text : Text) (r : MutationReceipt ⊎ Prepared)
      → Moves {disk = disk}
          (prepared_held r)
          (λ _. nothing)
          nothing
          nothing
          (once_prepared disk old_text new_text r)
  unfolding once_prepared
  Moves-once_prepared old_text new_text (inl receipt) = Moves-pure _ (λ fd. refl)
  Moves-once_prepared old_text new_text (inr p) = Moves-and_close p _ (Moves-on_outcome _ p _)

  Moves-many_prepared :
      (replacements : List (Text × Text)) (r : MutationReceipt ⊎ Prepared)
      → Moves {disk = disk}
          (prepared_held r)
          (λ _. nothing)
          nothing
          nothing
          (many_prepared disk replacements r)
  unfolding many_prepared
  Moves-many_prepared replacements (inl receipt) = Moves-pure _ (λ fd. refl)
  Moves-many_prepared replacements (inr p) = Moves-and_close p _ (Moves-on_sequence _ p _)

  Moves-replace_once :
      (repo : Text) (contract : Contract) (path : Text) (expected : Option Text)
      (old_text new_text : Text)
      → Moves {disk = disk} nothing
          (λ _. nothing)
          nothing
          nothing
          (replace_once disk repo contract path expected old_text new_text)
  unfolding replace_once
  Moves-replace_once repo contract path expected old_text new_text =
      Moves-bind _ _ (Moves-prepare_target ok repo contract path expected)
        (λ r. Moves-once_prepared old_text new_text r)

  Moves-replace_many :
      (repo : Text) (contract : Contract) (path : Text) (expected : Option Text)
      (replacements : List (Text × Text))
      → Moves {disk = disk} nothing
          (λ _. nothing)
          nothing
          nothing
          (replace_many disk repo contract path expected replacements)
  unfolding replace_many
  Moves-replace_many repo contract path expected replacements =
      elim (Bool-cases (is_empty replacements)) [
        | inl h ↦ rw h (Moves-pure _ (λ fd. refl))
        | inr h ↦ rw h (elim (Bool-cases (ltb max_replacements (length replacements))) [
          | inl i ↦ rw i (Moves-pure _ (λ fd. refl))
          | inr i ↦ rw i (
              Moves-bind _ _ (Moves-prepare_target ok repo contract path expected)
                (λ r. Moves-many_prepared replacements r))
        ])
      ]

abbrev pub AllClosed : {disk : Disk} {A : Type 0} → Res A × Sys disk → Type 0
AllClosed r = (fd : ℕ) → opens fd r.1.log ≡ closes fd r.1.log

Moves-AllClosed :
    {disk : Disk} {A : Type 0} (m : Io disk A) (w : Disk.World disk)
    → Moves nothing (λ _. nothing) nothing nothing m
    → AllClosed (m (record { world = w; log = [] }))
unfolding opens closes
Moves-AllClosed m w a fd = omega (
  arith,
  a.at (record { world = w; log = [] }) fd,
  after_same nothing (m (record { world = w; log = [] })).0 fd,
)

-- On a disk where `os.close` and `os.fdopen` succeed, and `os.fstat` and a read raise nothing but an
-- `OSError`, `replace_once` and `replace_many` call `os.close` for every descriptor as often as they open
-- it, whatever the other calls answer: a value, an `OSError` or another exception.
pub replace_closes :
    (disk : Disk) (repo : Text) (contract : Contract) (path : Text) (expected : Option Text)
    (old_text new_text : Text) (replacements : List (Text × Text)) (w : Disk.World disk)
    → IsReliable disk
    → AllClosed (
        replace_once disk repo contract path expected old_text new_text
          (record { world = w; log = [] }))
      × AllClosed (
          replace_many disk repo contract path expected replacements
            (record { world = w; log = [] }))
replace_closes disk repo contract path expected old_text new_text replacements w ok = (
  Moves-AllClosed _ w (Moves-replace_once ok repo contract path expected old_text new_text),
  Moves-AllClosed _ w (Moves-replace_many ok repo contract path expected replacements),
)
