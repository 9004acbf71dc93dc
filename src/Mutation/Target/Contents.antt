-- ===== src/Mutation/Target/Contents.antt =====
-- The file that `_prepare_target` opens and reads.
use satyrn_engine.Prelude.Text.{split_nonempty, split, Text, Bytes, eq_text, eq_text_iff}
use satyrn_engine.Prelude.{
  ℕ, ◌≡◌, refl, sym, ap, ◌∙◌, ◌⊎◌, inl, inr, Bool, true, false, Option, none, some, List, [], ◌∷◌,
  Bool-cases, any_of,
}
use satyrn_engine.Mutation.Target.Site.{
  Is-Unpublished, Leads, Leads-Unpublished, Located, Located-Unpublished, Ready, Refused, Resolves,
  Site, Unpublished, at_root, inside, publishes,
}
use satyrn_engine.Mutation.Io.Hoare.{
  Triple-fail, Triple-catch_os, Triple->>, Triple-undo, Triple-pure, Triple-bind, Triple-each,
  Triple-before, Log, Is, Triple,
}
use satyrn_engine.Mutation.Io.Hoare.Calls.{
  Triple-read_all, Triple-call, Triple-answer, Triple-acquire, Triple-close,
}
use satyrn_engine.Mutation.Target.{
  prepare_target, prepare_normalized, check_revision, after_read, after_open, refuse_closed,
  cannot_read, read_target, descend, decoded, checked_stat, attempt_read, attempt_open, open_target,
  close_both, Opened,
}
use satyrn_engine.Mutation.Receipt.{refusal, MutationReceipt}
use satyrn_engine.Mutation.Io.{close, Disk, Event, opened, did_read, of_directory}
use satyrn_engine.Mutation.Path.{normalize_relative_path}
use satyrn_engine.Contract.Fields.{Contract}

module _ {disk : Disk} (root : Text) (path : List Text) where
  Triple-descend :
      (parent : ℕ) (name : Text) (rest : List Text) (l : List Event)
      → Leads root path (name ∷ rest) parent l
      → Triple {disk = disk}
          (Is l)
          (Located root path)
          Unpublished
          Unpublished
          (descend disk parent (name ∷ rest))
  unfolding descend publishes
  Triple-descend parent name [] l h =
      let u = Leads-Unpublished root path _ parent l h in
      Triple-undo {E' = Unpublished} {R' = Unpublished} _ (close parent)
        (Triple-bind _ _ (Triple-acquire _ _ u u)
          (λ d. Triple-pure _ (λ l' p. record { earlier = l; leads = h; opening = p })))
        (Triple-close parent (λ l p. p) (λ l p. p)) (Triple-close parent (λ l p. p) (λ l p. p))
  Triple-descend parent component (next ∷ rest) l h =
      let u = Leads-Unpublished root path _ parent l h in
      Triple-bind {H = λ child. Is (opened child (of_directory parent component) ∷ l)} _ _
        (Triple-undo {E' = Unpublished} {R' = Unpublished} _ (close parent)
          (Triple-bind _ _ (Triple-acquire _ _ u u) (λ d.
            Triple->> _ _ (Triple-close parent (Is-Unpublished u) (Is-Unpublished u))
              (Triple-pure _ (λ l' p. p))))
          (Triple-close parent (λ l p. p) (λ l p. p)) (Triple-close parent (λ l p. p) (λ l p. p)))
        (λ child.
          Triple-descend child next rest _ (inside component (next ∷ rest) parent child l h))

abbrev Readable : Disk → Text → Text → MutationReceipt ⊎ Opened → Log
Readable disk repo path (inl receipt) = Refused receipt
Readable disk repo path (inr o) = Site disk repo path o

abbrev Readout : ℕ → List Event → MutationReceipt ⊎ (ℕ × Bytes) → Log
Readout target es (inl receipt) = Refused receipt
Readout target es (inr (mode, b)) = Is (did_read target b ∷ es)

Triple-open_target :
    {disk : Disk} (root path : Text)
    → Triple {disk = disk}
        (Is [])
        (Located root (split 47 path))
        Unpublished
        Unpublished
        (open_target disk root path)
unfolding open_target publishes
Triple-open_target root path = Triple-bind _ _ (Triple-acquire _ _ refl refl) (λ parent.
    let (name, rest, e) = split_nonempty 47 path in
    rw e (Triple-descend root (name ∷ rest) parent name rest _ (at_root parent)))

pub Triple-close_both :
    {disk : Disk} {P E R : Log} (p t : ℕ)
    → ((l : List Event) → P l → E l)
    → ((l : List Event) → P l → R l)
    → Triple {disk = disk} P (λ _. P) E R (close_both disk p t)
unfolding close_both
Triple-close_both p t e r = Triple->> _ _ (Triple-close t e r) (Triple-close p e r)

module _ {disk : Disk} (es : List Event) (u : Unpublished es) (path : Text) (target : ℕ) where
  Triple-checked_stat :
      (stat : Bool × ℕ)
      → Triple {disk = disk}
          (Is es)
          (λ _. Is es)
          Unpublished
          Unpublished
          (checked_stat disk path stat)
  unfolding checked_stat
  Triple-checked_stat (true, mode) = Triple-pure mode (λ l p. p)
  Triple-checked_stat (false, mode) = Triple-fail _ (Is-Unpublished u)

  Triple-decoded :
      (b : Bytes) (r : Text ⊎ Text)
      → Triple {disk = disk}
          (Is (did_read target b ∷ es))
          (λ c. Is (did_read target c ∷ es))
          Unpublished
          Unpublished
          (decoded disk b r)
  unfolding decoded publishes
  Triple-decoded b (inl text) = Triple-pure b (λ l p. p)
  Triple-decoded b (inr e) = Triple-fail e (Is-Unpublished u)

  Triple-read_target :
      Triple {disk = disk}
        (Is es)
        (λ r. Is (did_read target r.1 ∷ es))
        Unpublished
        Unpublished
        (read_target disk path target)
  unfolding read_target
  Triple-read_target =
      Triple-bind _ _ (Triple-call _ (Is-Unpublished u) (Is-Unpublished u)) (λ stat.
        Triple-bind _ _ (Triple-checked_stat stat) (λ mode.
          Triple->> _ _ (Triple-call _ (Is-Unpublished u) (Is-Unpublished u)) (
            Triple-bind _ _ (Triple-read_all target u u) (λ b.
              Triple-bind _ _ (Triple-decoded b (Disk.decode_utf8 disk b))
                (λ before. Triple-pure (mode, before) (λ l p. p))))))

Triple-attempt_read :
    {disk : Disk} (es : List Event) (u : Unpublished es) (path : Text) (o : Opened)
    → Triple {disk = disk}
        (Is es)
        (Readout o.target es)
        Unpublished
        Unpublished
        (attempt_read disk path o)
unfolding attempt_read cannot_read refusal
Triple-attempt_read es u path o =
    Triple-catch_os _ _
      (Triple-bind _ _ (Triple-read_target es u path o.target) (λ r. Triple-pure _ (λ l p. p)))
      (λ t. Triple-pure _ (λ l p. (refl, p)))

Triple-attempt_open :
    {disk : Disk} (repo path : Text)
    → Triple {disk = disk}
        (Is [])
        (Readable disk repo path)
        Unpublished
        Unpublished
        (attempt_open disk repo path)
unfolding attempt_open cannot_read refusal publishes
Triple-attempt_open {disk} repo path =
    Triple-catch_os _ _
      (Triple-bind _ _
        (Triple-answer (Resolves disk repo) _ (λ w root h. record { world = w; answer = h })
          (Is-Unpublished refl) (Is-Unpublished refl))
        (λ root. Triple-each _ (λ es h.
          Triple-before {P = Is []} _ (λ l p. p ∙ h.0)
            (Triple-bind _ _ (Triple-open_target root path) (λ o.
              Triple-pure (inr o) (λ l p. record { root = root; resolved = h.1; located = p }))))))
      (λ t. Triple-pure _ (λ l p. (refl, p)))

module _ {disk : Disk} (repo : Text) (contract : Contract) (path : Text) where
  Triple-refuse_closed :
      {P : Log} (expected : Option Text) (o : Opened) (receipt : MutationReceipt)
      → ((l : List Event) → P l → Refused receipt l)
      → Triple P
          (Ready disk repo contract path expected)
          Unpublished
          Unpublished
          (refuse_closed disk o receipt)
  unfolding refuse_closed
  Triple-refuse_closed expected o receipt h =
      Triple->> _ _ (Triple-close_both o.parent o.target (λ l p. (h l p).1) (λ l p. (h l p).1))
        (Triple-pure (inl receipt) h)

  module _ (normal : Text) (is_normal : normalize_relative_path path ≡ inl normal)
      (is_declared : any_of (λ pattern'. Disk.fnmatch disk normal pattern') contract.writable_paths
        ≡ true) where
    Triple-check_revision :
        (o : Opened) (expected : Option Text) (r : ℕ × Bytes) (es : List Event)
        → Site disk repo normal o es
        → Triple {disk = disk}
            (Is (did_read o.target r.1 ∷ es))
            (Ready disk repo contract path expected)
            Unpublished
            Unpublished
            (check_revision disk o normal expected r)
    unfolding check_revision refusal publishes
    Triple-check_revision o none (mode, before) es s =
        let u = Located-Unpublished s.root (split 47 normal) o es s.located in
        Triple-refuse_closed none o _ (λ l p. (refl, Is-Unpublished u l p))
    Triple-check_revision o (some expected) (mode, before) es s =
        elim (Bool-cases (eq_text (Disk.sha256 disk before) expected)) [
          | inl h ↦ rw h (
              Triple-pure _ (λ l p. record {
                normal = is_normal;
                declared = is_declared;
                revision = ap some (sym ((eq_text_iff _ _).0 h));
                opening = es;
                site = s;
                only = p;
              }))
          | inr h ↦
              let u = Located-Unpublished s.root (split 47 normal) o es s.located in
              rw h (Triple-refuse_closed (some expected) o _ (λ l p. (refl, Is-Unpublished u l p)))
        ]

    Triple-after_read :
        (o : Opened) (expected : Option Text) (r : MutationReceipt ⊎ (ℕ × Bytes)) (es : List Event)
        → Site disk repo normal o es
        → Triple {disk = disk}
            (Readout o.target es r)
            (Ready disk repo contract path expected)
            Unpublished
            Unpublished
            (after_read disk o normal expected r)
    unfolding after_read
    Triple-after_read o expected (inl receipt) es s =
        Triple-refuse_closed expected o receipt (λ l p. p)
    Triple-after_read o expected (inr r) es s = Triple-check_revision o expected r es s

    Triple-after_open :
        (expected : Option Text) (r : MutationReceipt ⊎ Opened)
        → Triple {disk = disk}
            (Readable disk repo normal r)
            (Ready disk repo contract path expected)
            Unpublished
            Unpublished
            (after_open disk normal expected r)
    unfolding after_open
    Triple-after_open expected (inl receipt) = Triple-pure _ (λ l p. p)
    Triple-after_open expected (inr o) = Triple-each _ (λ es s.
        Triple-bind _ _
          (Triple-attempt_read es (Located-Unpublished s.root (split 47 normal) o es s.located)
            normal o)
          (λ r. Triple-after_read o expected r es s))

module _ {disk : Disk} (repo : Text) (contract : Contract) (path : Text)
    (expected : Option Text) where
  Triple-prepare_normalized :
      (normal : Text ⊎ Text)
      → normalize_relative_path path ≡ normal
      → Triple {disk = disk}
          (Is [])
          (Ready disk repo contract path expected)
          Unpublished
          Unpublished
          (prepare_normalized disk repo contract expected normal)
  unfolding prepare_normalized refusal publishes
  Triple-prepare_normalized (inr e) n = Triple-pure _ (λ l p. (refl, Is-Unpublished refl l p))
  Triple-prepare_normalized (inl normal) n =
      elim (Bool-cases (any_of (λ p. Disk.fnmatch disk normal p) contract.writable_paths)) [
        | inl h ↦ rw h (
            Triple-bind _ _ (Triple-attempt_open repo normal)
              (λ o. Triple-after_open repo contract path normal n h expected o))
        | inr h ↦ rw h (Triple-pure _ (λ l p. (refl, Is-Unpublished refl l p)))
      ]

  pub Triple-prepare_target :
      Triple {disk = disk}
        (Is [])
        (Ready disk repo contract path expected)
        Unpublished
        Unpublished
        (prepare_target disk repo contract path expected)
  unfolding prepare_target
  Triple-prepare_target = Triple-prepare_normalized (normalize_relative_path path) refl
