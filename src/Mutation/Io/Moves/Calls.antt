-- ===== src/Mutation/Io/Moves/Calls.antt =====
-- Which descriptors the calls of Mutation.Io open and close.
use satyrn_engine.Prelude.{ℕ, ◌+◌, ◌≡◌, refl, Bool, true, false, List, ◌∷◌, arith}
use satyrn_engine.Prelude.Text.{Text, Bytes}
use satyrn_engine.Mutation.Io.{
  Disk, Res, value, os_error, raised, Sys, Io, Event, opened, did_read, wrote, renamed, Opening,
  noted, effect, call, acquire, close, read_all, write_all, rename_over, unlink,
}
use satyrn_engine.Mutation.Io.Moves.{
  Held, Moves, Moves-catch_os, Moves-pure, after, after_same, closes, one, opens,
}

-- Of an event that neither opens nor closes
noted-neutral :
    {A : Type 0} (s : Held) (f : A → Event) (r : Res A) (log : List Event) (fd : ℕ)
    → ((a : A) → (opens fd (f a ∷ log) ≡ opens fd log) × (closes fd (f a ∷ log) ≡ closes fd log))
    → opens fd (noted f r log) + closes fd log + s fd
      ≡ closes fd (noted f r log) + opens fd log + after (λ _. s) s s r fd
noted-neutral s f (value a) log fd h = omega (arith, (h a).0, (h a).1)
noted-neutral s f (os_error x) log fd h = omega arith
noted-neutral s f raised log fd h = omega arith

noted-opened :
    (x : Held) (opening : Opening) (r : Res ℕ) (log : List Event) (fd : ℕ)
    → opens fd (noted (λ d. opened d opening) r log) + closes fd log + x fd
      ≡ closes fd (noted (λ d. opened d opening) r log)
        + opens fd log
        + after (λ d fd. x fd + one d fd) x x r fd
unfolding opens closes
noted-opened x opening (value d) log fd = omega arith
noted-opened x opening (os_error t) log fd = omega arith
noted-opened x opening raised log fd = omega arith

module _ {disk : Disk} where
  pub Moves-call :
      {A : Type 0} {s : Held} (f : Disk.World disk → Res A × Disk.World disk)
      → Moves s (λ _. s) s s (call {disk = disk} f)
  unfolding call
  Moves-call {s = s} f = record { at = λ st fd. omega (arith, after_same s (f st.world).0 fd) }

  -- `x` is held besides.
  pub Moves-acquire :
      {x : Held} (opening : Opening) (f : Disk.World disk → Res ℕ × Disk.World disk)
      → Moves x (λ d fd. x fd + one d fd) x x (acquire {disk = disk} opening f)
  unfolding acquire effect
  Moves-acquire {x} opening f = record {
    at = λ st fd. noted-opened x opening (f st.world).0 st.log fd;
  }

  pub Moves-read_all : {s : Held} (d : ℕ) → Moves {disk = disk} s (λ _. s) s s (read_all d)
  unfolding read_all effect opens closes
  Moves-read_all {s} d = record {
    at = λ st fd.
        noted-neutral s (did_read d) (Disk.read disk d st.world).0 st.log fd (λ b. (refl, refl));
  }

  pub Moves-write_all :
      {s : Held} (d : ℕ) (b : Bytes) → Moves {disk = disk} s (λ _. s) s s (write_all d b)
  unfolding write_all effect opens closes
  Moves-write_all {s} d b = record {
    at = λ st fd.
        noted-neutral s (λ _. wrote d b) (Disk.write disk d b st.world).0 st.log fd
          (λ u. (refl, refl));
  }

  pub Moves-rename_over :
      {s : Held} (d : ℕ) (a b : Text) → Moves {disk = disk} s (λ _. s) s s (rename_over d a b)
  unfolding rename_over effect opens closes
  Moves-rename_over {s} d a b = record {
    at = λ st fd.
        noted-neutral s (λ _. renamed d a b) (Disk.rename disk d a b st.world).0 st.log fd
          (λ u. (refl, refl));
  }

  pub Moves-unlink :
      {s : Held} (d : ℕ) (name : Text) → Moves {disk = disk} s (λ _. s) s s (unlink d name)
  unfolding unlink
  Moves-unlink d name = Moves-catch_os _ _ (Moves-call _) (λ t. Moves-pure _ (λ fd. refl))

abbrev pub is_raised : {A : Type 0} → Res A → Bool
is_raised raised = true
is_raised _ = false

-- What the system does where it is in order: `os.close` and `os.fdopen` succeed, and `os.fstat` and a read
-- raise nothing but an `OSError`.
pub record IsReliable (disk : Disk) : Type 0 where
  pub closes_all : (fd : ℕ) (w : Disk.World disk) → (Disk.close disk fd w).0 ≡ value tt
  pub opens_all : (fd : ℕ) (w : Disk.World disk) → (Disk.fdopen disk fd w).0 ≡ value tt
  pub stats : (fd : ℕ) (w : Disk.World disk) → is_raised (Disk.fstat disk fd w).0 ≡ false
  pub reads : (fd : ℕ) (w : Disk.World disk) → is_raised (Disk.read disk fd w).0 ≡ false

after_value :
    {A : Type 0} (s e w : Held) (r : Res A) (a : A) (fd : ℕ)
    → r ≡ value a
    → after (λ _. s) e w r fd ≡ s fd
after_value s e w r a fd h = rw h refl

after_steady :
    {A : Type 0} (k : A → Held) (e w w' : Held) (r : Res A) (fd : ℕ)
    → is_raised r ≡ false
    → after k e w' r fd ≡ after k e w r fd
after_steady k e w w' (value a) fd h = refl
after_steady k e w w' (os_error t) fd h = refl
after_steady k e w w' raised fd h = cc

module _ {disk : Disk} where
  pub Moves-close :
      {s c e w : Held} (d : ℕ)
      → IsReliable disk
      → ((fd : ℕ) → s fd ≡ c fd + one d fd)
      → Moves {disk = disk} s (λ _. c) e w (close d)
  unfolding close opens closes
  Moves-close {s} {c} {e} {w} d ok h = record {
    at = λ st fd. omega (
      arith,
      h fd,
      after_value c e w (Disk.close disk d st.world).0 tt fd (ok.closes_all d st.world),
    );
  }

  pub Moves-fdopen :
      {s e w : Held} (d : ℕ)
      → IsReliable disk
      → Moves {disk = disk} s (λ _. s) e w (call (Disk.fdopen disk d))
  unfolding call
  Moves-fdopen {s} {e} {w} d ok = record {
    at = λ st fd.
        omega (
          arith,
          after_value s e w (Disk.fdopen disk d st.world).0 tt fd (ok.opens_all d st.world),
        );
  }

  pub Moves-steady :
      {A : Type 0} {s : Held} {k : A → Held} {e w' : Held} (w : Held) (m : Io disk A)
      → ((st : Sys disk) → is_raised (m st).0 ≡ false)
      → Moves s k e w' m
      → Moves s k e w m
  Moves-steady {k = k} {e = e} {w' = w'} w m h a = record {
    at = λ st fd. omega (arith, a.at st fd, after_steady k e w w' (m st).0 fd (h st));
  }

  pub Moves-entry :
      {A : Type 0} {s s' : Held} {k : A → Held} {e w : Held} (m : Io disk A)
      → ((fd : ℕ) → s' fd ≡ s fd)
      → Moves s k e w m
      → Moves s' k e w m
  Moves-entry m h a = record { at = λ st fd. omega (arith, a.at st fd, h fd) }
