-- ===== src/Mutation/Replace.antt =====
-- `replace_once` and `replace_many` of mutation.py.
pub mod Closing
pub mod Rewrites
pub mod Commit
pub mod Publishes
use satyrn_engine.Prelude.{
  ℕ, zero, suc, ◌+◌, ◌-◌, ◌*◌, ◌≤◌, ◌<◌, min, max, ◌≡◌, ◌≢◌, ◌↔◌, refl, sym, ap, subst, ◌∙◌, ◌⊎◌,
  inl, inr, Bool, true, false, not, ◌&&◌, ◌||◌, Option, none, some, is_some, List, [], ◌∷◌, ◌++◌,
  map, append-nil, append_assoc, arith, tests, ltb, leb, ◌==◌, if◌then◌else◌, Bool-cases,
  Option-cases, length, take, drop, is_empty, all_of, any_of, keep, length-append, length-take-le,
  ltb→lt, lt→ltb, ltb→le, leb→le, ==_iff,
}
use satyrn_engine.Prelude.Text.{
  Text, Bytes, txt, eq_text, eq_text_iff, contains, starts_with, split, join, utf8, utf8_size,
  encodable, has, strip,
}
use satyrn_engine.Contract.Fields.{Contract}
use satyrn_engine.Mutation.Receipt.{MutationCode, MutationReceipt, refusal, replaced}
use satyrn_engine.Mutation.Apply.{Applied, Outcome, declined, applied, apply_replacement}
use satyrn_engine.Mutation.Region.{post_edit_region, post_edit_regions}
use satyrn_engine.Mutation.Io.{
  Disk, Sys, Res, Io, pure, fail, raise, catch_os, finally, undo, ◌>>=◌, ◌>>◌,
}
use satyrn_engine.Mutation.Target.{Prepared, prepare_target, atomic_replace, close_both}

abbrev pub max_replacements : ℕ
max_replacements = 16

-- An earlier place, moved by a replacement of `old_length` bytes at `offset` by `new_length`.
moved : ℕ → ℕ → ℕ → ℕ × Bytes → ℕ × Bytes
moved offset old_length new_length (start, span) =
    if leb (offset + old_length) start
    then (start + new_length - old_length, span)
    else (start, span)

-- What a sequence of replacements in memory comes to.
pub data Sequence : Type 0 where
  stopped : MutationCode → Text → Sequence
  finished : Bytes → List (ℕ × Bytes) → Sequence

module _ (disk : Disk) where
  pub apply_one : Bytes → Text → Text → Text → Outcome
  apply_one = apply_replacement (Disk.show disk) (Disk.encode_error disk)

  -- `for index, (old_text, new_text) in enumerate(replacements, start=1)`
  pub apply_all : Text → ℕ → List (Text × Text) → Bytes → List (ℕ × Bytes) → Sequence
  unfolding apply_one moved
  apply_all path index [] current done = finished current done
  apply_all path index ((old_text, new_text) ∷ rest) current done =
      elim (apply_one current path old_text new_text) [
        | declined code message ↦
            stopped code (txt "replacement " ++ (Disk.show disk index ++ (txt ": " ++ message)))
        | applied a ↦ apply_all path (suc index) rest a.after (
            map (moved a.anchor_offset (length (utf8 old_text)) (length a.new_bytes)) done
            ++ (a.anchor_offset, a.new_bytes) ∷ [])
      ]

  -- `after.decode("utf-8")`, of the region
  with_text : (Text → MutationReceipt) → Text ⊎ Text → Io disk MutationReceipt
  with_text f (inl text) = pure (f text)
  with_text f (inr e) = raise

  -- The write, and the receipt that is made of an error in it; `none` is success.
  attempt_write : Prepared → Bytes → Io disk (Option MutationReceipt)
  attempt_write p after =
      catch_os (do atomic_replace disk p.parent_descriptor p.target_name p.mode after; pure none)
        (λ e. pure (
          some (
            refusal MutationCode.mutation_failed
              (txt "cannot replace " ++ (p.path ++ (txt ": " ++ e))))))

  after_write : Prepared → Bytes → (Text → Text) → Option MutationReceipt → Io disk MutationReceipt
  unfolding with_text
  after_write p after region (some receipt) = pure receipt
  after_write p after region none =
      with_text (λ text. replaced p.path (Disk.sha256 disk after) (region text))
        (Disk.decode_utf8 disk after)

  pub write_out : Prepared → Bytes → (Text → Text) → Io disk MutationReceipt
  unfolding attempt_write after_write
  write_out p after region = do r ← attempt_write p after; after_write p after region r

  on_outcome : Prepared → Outcome → Io disk MutationReceipt
  unfolding write_out
  on_outcome p (declined code message) = pure (refusal code message)
  on_outcome p (applied a) = write_out p a.after (λ text.
      post_edit_region (Disk.show disk) (Disk.decode_ignore disk) p.before text a.anchor_offset
        a.new_bytes)

  on_sequence : Prepared → Sequence → Io disk MutationReceipt
  unfolding write_out
  on_sequence p (stopped code message) = pure (refusal code message)
  on_sequence p (finished after done) = write_out p after (λ text.
      post_edit_regions (Disk.show disk) (Disk.decode_ignore disk) p.before after text done)

  -- `finally: os.close(target_descriptor); os.close(parent_descriptor)`
  pub and_close : Prepared → Io disk MutationReceipt → Io disk MutationReceipt
  and_close p m = finally m (close_both disk p.parent_descriptor p.target_descriptor)

  once_prepared : Text → Text → MutationReceipt ⊎ Prepared → Io disk MutationReceipt
  unfolding and_close on_outcome
  once_prepared old_text new_text (inl receipt) = pure receipt
  once_prepared old_text new_text (inr p) =
      and_close p (on_outcome p (apply_one p.before p.path old_text new_text))

  -- `replace_once`
  unfoldable pub replace_once :
      Text → Contract → Text → Option Text → Text → Text → Io disk MutationReceipt
  unfolding once_prepared apply_one
  replace_once repo contract path expected_sha256 old_text new_text = do
    prepared ← prepare_target disk repo contract path expected_sha256
    once_prepared old_text new_text prepared

  many_prepared : List (Text × Text) → MutationReceipt ⊎ Prepared → Io disk MutationReceipt
  unfolding and_close on_sequence
  many_prepared replacements (inl receipt) = pure receipt
  many_prepared replacements (inr p) =
      and_close p (on_sequence p (apply_all p.path 1 replacements p.before []))

  -- `replace_many`
  unfoldable pub replace_many :
      Text → Contract → Text → Option Text → List (Text × Text) → Io disk MutationReceipt
  unfolding many_prepared apply_all
  replace_many root contract path expected_sha256 replacements =
      if is_empty replacements
      then pure (refusal MutationCode.mutation_failed (txt "no replacements were supplied"))
      else if ltb max_replacements (length replacements)
      then pure (
          refusal MutationCode.mutation_failed (
            Disk.show disk (length replacements)
            ++ (txt " replacements exceeds the limit of 16; send fewer")))
      else (do
        prepared ← prepare_target disk root contract path expected_sha256
        many_prepared replacements prepared)
