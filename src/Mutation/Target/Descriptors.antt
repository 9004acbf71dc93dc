-- ===== src/Mutation/Target/Descriptors.antt =====
-- The descriptors that the actions of Mutation.Target open and close.
use satyrn_engine.Prelude.{
  ℕ, ◌+◌, refl, ◌⊎◌, inl, inr, Bool, true, false, Option, none, some, List, [], ◌∷◌, arith,
  Bool-cases, any_of,
}
use satyrn_engine.Prelude.Text.{Text, Bytes, eq_text, split}
use satyrn_engine.Mutation.Io.{effect, read_all, call, of_file, of_directory, raise, close, Disk}
use satyrn_engine.Mutation.Io.Moves.{
  Moves-raise, Moves-undo, Moves-finally, Moves-fail, single, Moves-pure, Moves-catch_os,
  Moves-bind, Moves->>, Moves, pair, Held, nothing,
}
use satyrn_engine.Mutation.Io.Moves.Calls.{
  Moves-close, IsReliable, Moves-rename_over, Moves-read_all, Moves-call, Moves-acquire,
  Moves-fdopen, Moves-steady, Moves-entry, Moves-unlink, Moves-write_all,
}
use satyrn_engine.Mutation.Path.{normalize_relative_path}
use satyrn_engine.Mutation.Target.{
  fill_and_rename, refuse_closed, read_target, prepare_target, prepare_normalized, open_target,
  fill, descend, decoded, close_both, checked_stat, check_revision, attempt_read, attempt_open,
  atomic_replace, after_read, after_open, Prepared, Opened,
}
use satyrn_engine.Contract.Fields.{Contract}
use satyrn_engine.Mutation.Receipt.{MutationReceipt}

abbrev pub held : Opened → Held
held o = pair o.parent o.target

abbrev pub prepared_held : MutationReceipt ⊎ Prepared → Held
prepared_held (inl receipt) = nothing
prepared_held (inr p) = pair p.parent_descriptor p.target_descriptor

abbrev opened_held : MutationReceipt ⊎ Opened → Held
opened_held (inl receipt) = nothing
opened_held (inr o) = held o

module _ {disk : Disk} (ok : IsReliable disk) where
  Moves-descend :
      (parent : ℕ) (path : List Text)
      → Moves {disk = disk} (single parent) held nothing nothing (descend disk parent path)
  unfolding descend pair single
  Moves-descend parent [] =
      Moves-undo {e = single parent} {w = single parent} raise (close parent)
        (Moves-raise (λ fd. refl)) (Moves-close parent ok (λ fd. omega arith))
        (Moves-close parent ok (λ fd. omega arith))
  Moves-descend parent (name ∷ []) =
      Moves-undo {e = single parent} {w = single parent} _ (close parent)
        (Moves-bind _ _ (Moves-acquire (of_file parent name) (Disk.open_file disk parent name))
          (λ d. Moves-pure _ (λ fd. refl)))
        (Moves-close parent ok (λ fd. omega arith)) (Moves-close parent ok (λ fd. omega arith))
  Moves-descend parent (component ∷ next ∷ rest) =
      Moves-bind _ _
        (Moves-undo {e = single parent} {w = single parent} _ (close parent)
          (Moves-bind _ _ (Moves-acquire (of_directory parent component) _) (λ child.
            Moves->> _ _ (Moves-close {c = single child} parent ok (λ fd. omega arith))
              (Moves-pure child (λ fd. refl))))
          (Moves-close parent ok (λ fd. omega arith)) (Moves-close parent ok (λ fd. omega arith)))
        (λ child. Moves-descend child (next ∷ rest))

  Moves-open_target :
      (root path : Text)
      → Moves {disk = disk} nothing held nothing nothing (open_target disk root path)
  unfolding open_target single
  Moves-open_target root path =
      Moves-bind _ _ (Moves-acquire {x = nothing} _ _)
        (λ parent. Moves-entry _ (λ fd. omega arith) (Moves-descend parent (split 47 path)))

  pub Moves-close_both :
      {e w : Held} (p t : ℕ)
      → Moves {disk = disk} (pair p t) (λ _. nothing) e w (close_both disk p t)
  unfolding close_both pair single
  Moves-close_both p t =
      Moves->> _ _ (Moves-close {c = single p} t ok (λ fd. omega arith))
        (Moves-close p ok (λ fd. omega arith))

  Moves-checked_stat :
      (s w : Held) (path : Text) (stat : Bool × ℕ)
      → Moves {disk = disk} s (λ _. s) s w (checked_stat disk path stat)
  unfolding checked_stat
  Moves-checked_stat s w path (true, mode) = Moves-pure mode (λ fd. refl)
  Moves-checked_stat s w path (false, mode) = Moves-fail _ (λ fd. refl)

  Moves-decoded :
      (s w : Held) (b : Bytes) (r : Text ⊎ Text)
      → Moves {disk = disk} s (λ _. s) s w (decoded disk b r)
  unfolding decoded
  Moves-decoded s w b (inl text) = Moves-pure b (λ fd. refl)
  Moves-decoded s w b (inr e) = Moves-fail e (λ fd. refl)

  Moves-read_target :
      (s w : Held) (path : Text) (target : ℕ)
      → Moves {disk = disk} s (λ _. s) s w (read_target disk path target)
  unfolding read_target call read_all effect
  Moves-read_target s w path target =
      Moves-bind _ _
        (Moves-steady {w' = s} w _ (λ st. ok.stats target st.world) (Moves-call {s = s} _))
        (λ stat. Moves-bind _ _ (Moves-checked_stat s w path stat) (λ mode.
          Moves->> _ _ (Moves-fdopen target ok) (
            Moves-bind _ _
              (Moves-steady {w' = s} w _ (λ st. ok.reads target st.world)
                (Moves-read_all {s = s} target))
              (λ b.
                Moves-bind _ _ (Moves-decoded s w b (Disk.decode_utf8 disk b))
                  (λ before. Moves-pure (mode, before) (λ fd. refl))))))

  Moves-refuse_closed :
      (o : Opened) (receipt : MutationReceipt) (e w : Held)
      → Moves {disk = disk} (held o) prepared_held e w (refuse_closed disk o receipt)
  unfolding refuse_closed
  Moves-refuse_closed o receipt e w =
      Moves->> _ _ (Moves-close_both o.parent o.target) (Moves-pure (inl receipt) (λ fd. refl))

  Moves-check_revision :
      (o : Opened) (path : Text) (expected : Option Text) (r : ℕ × Bytes) (e w : Held)
      → Moves {disk = disk} (held o) prepared_held e w (check_revision disk o path expected r)
  unfolding check_revision
  Moves-check_revision o path none (mode, before) e w = Moves-refuse_closed o _ e w
  Moves-check_revision o path (some expected) (mode, before) e w =
      elim (Bool-cases (eq_text (Disk.sha256 disk before) expected)) [
        | inl h ↦ rw h (Moves-pure _ (λ fd. refl))
        | inr h ↦ rw h (Moves-refuse_closed o _ e w)
      ]

  Moves-attempt_read :
      (path : Text) (o : Opened) (e w : Held)
      → Moves {disk = disk} (held o) (λ _. held o) e w (attempt_read disk path o)
  unfolding attempt_read
  Moves-attempt_read path o e w =
      Moves-catch_os _ _
        (Moves-bind _ _ (Moves-read_target (held o) w path o.target)
          (λ r. Moves-pure _ (λ fd. refl)))
        (λ t. Moves-pure _ (λ fd. refl))

  Moves-after_read :
      (o : Opened) (path : Text) (expected : Option Text) (r : MutationReceipt ⊎ (ℕ × Bytes))
      (e w : Held)
      → Moves {disk = disk} (held o) prepared_held e w (after_read disk o path expected r)
  unfolding after_read
  Moves-after_read o path expected (inl receipt) e w = Moves-refuse_closed o receipt e w
  Moves-after_read o path expected (inr r) e w = Moves-check_revision o path expected r e w

  Moves-attempt_open :
      (repo path : Text)
      → Moves {disk = disk} nothing opened_held nothing nothing (attempt_open disk repo path)
  unfolding attempt_open
  Moves-attempt_open repo path =
      Moves-catch_os _ _
        (Moves-bind _ _ (Moves-call _)
          (λ root. Moves-bind _ _ (Moves-open_target root path) (λ o. Moves-pure _ (λ fd. refl))))
        (λ t. Moves-pure _ (λ fd. refl))

  Moves-after_open :
      (path : Text) (expected : Option Text) (r : MutationReceipt ⊎ Opened)
      → Moves {disk = disk}
          (opened_held r)
          prepared_held
          nothing
          nothing
          (after_open disk path expected r)
  unfolding after_open
  Moves-after_open path expected (inl receipt) = Moves-pure _ (λ fd. refl)
  Moves-after_open path expected (inr o) =
      Moves-bind _ _ (Moves-attempt_read path o nothing nothing)
        (λ r. Moves-after_read o path expected r nothing nothing)

  Moves-prepare_normalized :
      (repo : Text) (contract : Contract) (expected : Option Text) (path : Text ⊎ Text)
      → Moves {disk = disk} nothing prepared_held nothing nothing
          (prepare_normalized disk repo contract expected path)
  unfolding prepare_normalized
  Moves-prepare_normalized repo contract expected (inr e) = Moves-pure _ (λ fd. refl)
  Moves-prepare_normalized repo contract expected (inl path) =
      elim (Bool-cases (any_of (λ p. Disk.fnmatch disk path p) contract.writable_paths)) [
        | inl h ↦
            rw h (
              Moves-bind _ _ (Moves-attempt_open repo path) (λ o. Moves-after_open path expected o))
        | inr h ↦ rw h (Moves-pure _ (λ fd. refl))
      ]

  pub Moves-prepare_target :
      (repo : Text) (contract : Contract) (path : Text) (expected : Option Text)
      → Moves {disk = disk} nothing prepared_held nothing nothing
          (prepare_target disk repo contract path expected)
  unfolding prepare_target
  Moves-prepare_target repo contract path expected =
      Moves-prepare_normalized repo contract expected (normalize_relative_path path)

  -- The temporary file is closed again, whatever is held besides.
  Moves-fill :
      (s : Held) (descriptor mode : ℕ) (content : Bytes)
      → Moves {disk = disk}
          (λ fd. s fd + single descriptor fd)
          (λ _. s)
          s
          s
          (fill disk descriptor mode content)
  unfolding fill single
  Moves-fill s descriptor mode content = Moves->> _ _ (Moves-fdopen descriptor ok) (
      Moves-finally {c = λ fd. s fd + single descriptor fd} _ _
        (Moves->> _ _ (Moves-write_all _ _) (Moves->> _ _ (Moves-call _) (Moves-call _)))
        (Moves-close descriptor ok (λ fd. refl)))

  pub Moves-atomic_replace :
      (s : Held) (parent : ℕ) (target : Text) (mode : ℕ) (content : Bytes)
      → Moves {disk = disk} s (λ _. s) s s (atomic_replace disk parent target mode content)
  unfolding atomic_replace fill_and_rename single
  Moves-atomic_replace s parent target mode content = Moves-bind _ _ (Moves-call _) (λ token.
      Moves-bind _ _ (Moves-acquire {x = s} _ _) (λ descriptor.
        Moves-finally _ _
          (Moves->> _ _ (Moves-fill s descriptor mode content) (Moves-rename_over _ _ _))
          (Moves-unlink _ _)))
