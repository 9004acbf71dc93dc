-- ===== src/Mutation/Io/Hoare/Calls.antt =====
-- What the calls of Mutation.Io note in the log.
use satyrn_engine.Prelude.{◌∙◌, ℕ, ◌≡◌, refl, sym, ap, subst, List, ◌∷◌}
use satyrn_engine.Prelude.Text.{Text, Bytes}
use satyrn_engine.Mutation.Io.{
  raised, os_error, value, unlink, effect, noted, rename_over, read_all, write_all, did_read, close,
  call, acquire, Res, Event, Disk, opened, wrote, renamed, Opening,
}
use satyrn_engine.Mutation.Io.Hoare.{Ends, Is, Log, Triple, Triple-catch_os, Triple-pure, seen}

same-Ends :
    {A : Type 0} (P E R : Log) (r : Res A) (l : List Event)
    → P l
    → (P l → E l)
    → (P l → R l)
    → Ends (λ _. P) E R r l
same-Ends P E R (value a) l p e w = p
same-Ends P E R (os_error t) l p e w = e p
same-Ends P E R raised l p e w = w p

noted-Ends :
    {A : Type 0} {es : List Event} (E R : Log) (event : A → Event) (r : Res A) (log : List Event)
    → ((a : A) → seen (event a ∷ log) ≡ event a ∷ seen log)
    → seen log ≡ es
    → E es
    → R es
    → Ends (λ a. Is (event a ∷ es)) E R r (seen (noted event r log))
noted-Ends E R event (value a) log h p e w = h a ∙ ap (λ l. event a ∷ l) p
noted-Ends E R event (os_error t) log h p e w = subst E (sym p) e
noted-Ends E R event raised log h p e w = subst R (sym p) w

answer-Ends :
    {A : Type 0} (P E R : Log) (C : A → Type 0) (r : Res A) (l : List Event)
    → P l
    → ((a : A) → r ≡ value a → C a)
    → (P l → E l)
    → (P l → R l)
    → Ends (λ a l'. P l' × C a) E R r l
answer-Ends P E R C (value a) l p c e w = (p, c a refl)
answer-Ends P E R C (os_error t) l p c e w = e p
answer-Ends P E R C raised l p c e w = w p

module _ {disk : Disk} {P E R : Log} where
  pub Triple-call :
      {A : Type 0} (f : Disk.World disk → Res A × Disk.World disk)
      → ((l : List Event) → P l → E l)
      → ((l : List Event) → P l → R l)
      → Triple P (λ _. P) E R (call {disk = disk} f)
  unfolding call
  Triple-call f e r = record {
    at = λ st p. same-Ends P E R (f st.world).0 (seen st.log) p (e _) (r _);
  }

  -- What is returned is what the call answered in some world.
  pub Triple-answer :
      {A : Type 0} (C : A → Type 0) (f : Disk.World disk → Res A × Disk.World disk)
      → ((w : Disk.World disk) (a : A) → (f w).0 ≡ value a → C a)
      → ((l : List Event) → P l → E l)
      → ((l : List Event) → P l → R l)
      → Triple P (λ a l. P l × C a) E R (call {disk = disk} f)
  unfolding call
  Triple-answer C f c e r = record {
    at = λ st p. answer-Ends P E R C (f st.world).0 (seen st.log) p (c st.world) (e _) (r _);
  }

  pub Triple-close :
      (d : ℕ)
      → ((l : List Event) → P l → E l)
      → ((l : List Event) → P l → R l)
      → Triple {disk = disk} P (λ _. P) E R (close d)
  unfolding close seen
  Triple-close d e r = record {
    at = λ st p. same-Ends P E R (Disk.close disk d st.world).0 (seen st.log) p (e _) (r _);
  }

module _ {disk : Disk} {P E R : Log} where
  pub Triple-unlink :
      (d : ℕ) (name : Text)
      → ((l : List Event) → P l → R l)
      → Triple {disk = disk} P (λ _. P) E R (unlink d name)
  unfolding unlink
  Triple-unlink d name r =
      Triple-catch_os _ _ (Triple-call _ (λ l p. p) r) (λ t. Triple-pure _ (λ l p. p))

module _ {disk : Disk} {es : List Event} {E R : Log} where
  Triple-effect :
      {A : Type 0} (event : A → Event) (f : Disk.World disk → Res A × Disk.World disk)
      → ((a : A) (log : List Event) → seen (event a ∷ log) ≡ event a ∷ seen log)
      → E es
      → R es
      → Triple (Is es) (λ a. Is (event a ∷ es)) E R (effect {disk = disk} event f)
  unfolding effect
  Triple-effect event f h e r = record {
    at = λ st p. noted-Ends E R event (f st.world).0 st.log (λ a. h a st.log) p e r;
  }

  pub Triple-acquire :
      (opening : Opening) (f : Disk.World disk → Res ℕ × Disk.World disk)
      → E es
      → R es
      → Triple (Is es) (λ d. Is (opened d opening ∷ es)) E R (acquire {disk = disk} opening f)
  unfolding acquire seen
  Triple-acquire opening f e r = Triple-effect _ f (λ d log. refl) e r

  pub Triple-read_all :
      (d : ℕ)
      → E es
      → R es
      → Triple {disk = disk} (Is es) (λ b. Is (did_read d b ∷ es)) E R (read_all d)
  unfolding read_all seen
  Triple-read_all d e r = Triple-effect _ _ (λ b log. refl) e r

  pub Triple-write_all :
      (d : ℕ) (b : Bytes)
      → E es
      → R es
      → Triple {disk = disk} (Is es) (λ _. Is (wrote d b ∷ es)) E R (write_all d b)
  unfolding write_all seen
  Triple-write_all d b e r = Triple-effect _ _ (λ u log. refl) e r

  pub Triple-rename_over :
      (d : ℕ) (a b : Text)
      → E es
      → R es
      → Triple {disk = disk} (Is es) (λ _. Is (renamed d a b ∷ es)) E R (rename_over d a b)
  unfolding rename_over seen
  Triple-rename_over d a b e r = Triple-effect _ _ (λ u log. refl) e r
