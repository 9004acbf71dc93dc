-- ===== src/Mutation/Target/Written.antt =====
-- The write of `_atomic_replace`, and what it publishes.
use satyrn_engine.Prelude.Text.{Text, Bytes}
use satyrn_engine.Prelude.{ℕ, ◌≡◌, ◌⊎◌, inl, inr, List, ◌∷◌}
use satyrn_engine.Mutation.Io.Hoare.{
  Triple-finally, Triple->>, Triple-bind, Triple-exits, Triple-after, Is, Triple,
}
use satyrn_engine.Mutation.Io.Hoare.Calls.{
  Triple-rename_over, Triple-write_all, Triple-call, Triple-acquire, Triple-close, Triple-unlink,
}
use satyrn_engine.Mutation.Target.{fill_and_rename, fill, atomic_replace}
use satyrn_engine.Mutation.Io.{Disk, Event, opened, wrote, renamed, of_temporary}
use satyrn_engine.Mutation.Target.Site.{Is-Unpublished, Unpublished, publishes}

-- A temporary file was made in a directory, given all of the content, and given the name of the target.
pub record Replaced (es : List Event) (parent : ℕ) (target : Text) (content : Bytes)
    (l : List Event) : Type 0 where
  pub descriptor : ℕ
  pub temporary : Text
  pub whole :
      l
      ≡ renamed parent temporary target
        ∷ wrote descriptor content
        ∷ opened descriptor (of_temporary parent temporary)
        ∷ es

module _ {disk : Disk} (es : List Event) (u : Unpublished es) (parent : ℕ) (target : Text)
    (mode : ℕ) (content : Bytes) where
  Triple-fill :
      (descriptor : ℕ) (l : List Event) (v : Unpublished l)
      → Triple {disk = disk}
          (Is l)
          (λ _. Is (wrote descriptor content ∷ l))
          Unpublished
          Unpublished
          (fill disk descriptor mode content)
  unfolding fill publishes
  Triple-fill descriptor l v =
      let w = Is-Unpublished v in
      let x = Is-Unpublished {es = wrote descriptor content ∷ l} v in
      Triple->> _ _ (Triple-call _ w w) (
        Triple-finally _ _
          (Triple->> _ _ (Triple-write_all descriptor content v v)
            (Triple->> _ _ (Triple-call _ x x) (Triple-call _ x x)))
          (λ r. Triple-close descriptor x x) (Triple-close descriptor (λ l p. p) (λ l p. p))
          (Triple-close descriptor (λ l p. p) (λ l p. p)))

  -- An exception that is not an `OSError` may come from the removal of the temporary name, after all.
  pub Triple-atomic_replace :
      Triple {disk = disk}
        (Is es)
        (λ _. Replaced es parent target content)
        Unpublished
        (λ l. Unpublished l ⊎ Replaced es parent target content l)
        (atomic_replace disk parent target mode content)
  unfolding atomic_replace fill_and_rename publishes
  Triple-atomic_replace =
      let w = Is-Unpublished u in
      Triple-bind _ _ (Triple-call _ w (λ l p. inl (w l p))) (λ token.
        Triple-bind _ _ (Triple-acquire _ _ u (inl u)) (λ descriptor.
          Triple-finally _ _
            (Triple->> _ _ (Triple-exits _ (λ l p. p) (λ l p. inl p) (Triple-fill descriptor _ u)) (
              Triple-after _ (λ r l p. record { descriptor = descriptor; temporary = _; whole = p })
                (Triple-rename_over _ _ _ u (inl u))))
            (λ r. Triple-unlink _ _ (λ l p. inr p)) (Triple-unlink _ _ (λ l p. inl p))
            (Triple-unlink _ _ (λ l p. p))))
