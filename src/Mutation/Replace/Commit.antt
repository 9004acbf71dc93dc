-- ===== src/Mutation/Replace/Commit.antt =====
-- The write of Mutation.Replace and the receipt that follows it.
use satyrn_engine.Prelude.{◌≡◌, refl, ◌⊎◌, inl, inr, Option, none, some, List}
use satyrn_engine.Prelude.Text.{Text, Bytes}
use satyrn_engine.Mutation.Io.Hoare.{
  Triple-bind, Triple->>, Triple-raise, Triple-catch_os, Triple-pure, Triple-exits, Triple-finally,
  Is, Triple, Log,
}
use satyrn_engine.Mutation.Target.Contents.{Triple-close_both}
use satyrn_engine.Mutation.Target.Written.{Triple-atomic_replace, Replaced}
use satyrn_engine.Mutation.Target.Site.{Refused, Authorized, Authorized-Unpublished, Unpublished}
use satyrn_engine.Mutation.Replace.{with_text, attempt_write, after_write, write_out, and_close}
use satyrn_engine.Mutation.Receipt.{replaced, refusal, MutationReceipt}
use satyrn_engine.Mutation.Target.{Prepared}
use satyrn_engine.Contract.Fields.{Contract}
use satyrn_engine.Mutation.Io.{Io, Disk, Event}

module _ (disk : Disk) (repo : Text) (contract : Contract) (path : Text) (expected : Option Text)
    (Changes : Bytes → Bytes → Type 0) where
  -- A file that may be written, in whose place comes one that was made in the same directory, by the
  -- descriptor that is open there, and given the new bytes.
  pub record Committed (l : List Event) : Type 0 where
    pub prepared : Prepared
    pub after : Bytes
    pub earlier : List Event
    pub authorized : Authorized disk repo contract path expected prepared earlier
    pub changes : Changes prepared.before after
    pub whole : Replaced earlier prepared.parent_descriptor prepared.target_name after l

  -- The end with a receipt, and the end with an exception
  abbrev pub Delivered : MutationReceipt → Log
  Delivered receipt l =
      Refused receipt l
      ⊎ ((c : Committed l) × (region : Text) × (receipt
            ≡ replaced (Prepared.path (Committed.prepared c)) (Disk.sha256 disk (Committed.after c))
                region))

  abbrev pub Aborted : Log
  Aborted l = Unpublished l ⊎ Committed l

  Delivered-Aborted : (receipt : MutationReceipt) (l : List Event) → Delivered receipt l → Aborted l
  Delivered-Aborted receipt l (inl r) = inl r.1
  Delivered-Aborted receipt l (inr r) = inr r.0

  pub Triple-and_close :
      {P : Log} (p : Prepared) (m : Io disk MutationReceipt)
      → Triple P Delivered Aborted Aborted m
      → Triple P Delivered Aborted Aborted (and_close disk p m)
  unfolding and_close
  Triple-and_close p m a =
      Triple-finally m _ a (λ r. Triple-close_both _ _ (Delivered-Aborted r) (Delivered-Aborted r))
        (Triple-close_both _ _ (λ l q. q) (λ l q. q)) (Triple-close_both _ _ (λ l q. q) (λ l q. q))

module _ {disk : Disk} {repo : Text} {contract : Contract} {path : Text} {expected : Option Text}
    (Changes : Bytes → Bytes → Type 0) (p : Prepared) (es : List Event)
    (is_authorized : Authorized disk repo contract path expected p es) (after : Bytes)
    (are_changes : Changes p.before after) where
  abbrev Written : Log
  Written = Replaced es p.parent_descriptor p.target_name after

  abbrev is_committed :
      (l : List Event) → Written l → Committed disk repo contract path expected Changes l
  is_committed l w = record {
    prepared = p;
    after = after;
    earlier = es;
    authorized = is_authorized;
    changes = are_changes;
    whole = w;
  }

  is_aborted :
      (l : List Event)
      → Unpublished l ⊎ Written l
      → Aborted disk repo contract path expected Changes l
  is_aborted l (inl u) = inl u
  is_aborted l (inr w) = inr (is_committed l w)

  abbrev Attempted : Option MutationReceipt → Log
  Attempted none l = Written l
  Attempted (some receipt) l = Refused receipt l

  Triple-with_text :
      (region : Text → Text) (r : Text ⊎ Text)
      → Triple {disk = disk} Written
          (Delivered disk repo contract path expected Changes)
          (Aborted disk repo contract path expected Changes)
          (Aborted disk repo contract path expected Changes)
          (with_text disk (λ text. replaced p.path (Disk.sha256 disk after) (region text)) r)
  unfolding with_text
  Triple-with_text region (inl text) =
      Triple-pure _ (λ l w. inr (is_committed l w, region text, refl))
  Triple-with_text region (inr e) = Triple-raise (λ l w. inr (is_committed l w))

  Triple-attempt_write :
      Triple {disk = disk}
        (Is es)
        Attempted
        (Aborted disk repo contract path expected Changes)
        (Aborted disk repo contract path expected Changes)
        (attempt_write disk p after)
  unfolding attempt_write refusal
  Triple-attempt_write =
      let u = Authorized-Unpublished disk repo contract path expected p es is_authorized in
      Triple-catch_os _ _
        (Triple->> _ _
          (Triple-exits _ (λ l q. q) is_aborted
            (Triple-atomic_replace es u p.parent_descriptor p.target_name p.mode after))
          (Triple-pure _ (λ l w. w)))
        (λ t. Triple-pure _ (λ l w. (refl, w)))

  Triple-after_write :
      (region : Text → Text) (r : Option MutationReceipt)
      → Triple {disk = disk}
          (Attempted r)
          (Delivered disk repo contract path expected Changes)
          (Aborted disk repo contract path expected Changes)
          (Aborted disk repo contract path expected Changes)
          (after_write disk p after region r)
  unfolding after_write
  Triple-after_write region none = Triple-with_text region _
  Triple-after_write region (some receipt) = Triple-pure receipt (λ l r. inl r)

  pub Triple-write_out :
      (region : Text → Text)
      → Triple {disk = disk}
          (Is es)
          (Delivered disk repo contract path expected Changes)
          (Aborted disk repo contract path expected Changes)
          (Aborted disk repo contract path expected Changes)
          (write_out disk p after region)
  unfolding write_out
  Triple-write_out region = Triple-bind _ _ Triple-attempt_write (λ r. Triple-after_write region r)
