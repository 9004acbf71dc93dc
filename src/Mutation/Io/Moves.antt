-- ===== src/Mutation/Io/Moves.antt =====
-- Which descriptors an action opens and closes: one rule for each way to build an action.
pub mod Calls
use satyrn_engine.Prelude.{
  ℕ, ◌+◌, ◌≡◌, refl, Bool, true, false, List, [], ◌∷◌, arith, ◌==◌, if◌then◌else◌,
}
use satyrn_engine.Prelude.Text.{Text, Bytes}
use satyrn_engine.Mutation.Io.{
  Disk, Res, value, os_error, raised, Sys, Io, Event, opened, closed, did_read, wrote, renamed,
  Opening, noted, effect, proceed, handle, unless_raised, on_error, pure, fail, raise, catch_os,
  finally, undo, ◌>>=◌, ◌>>◌, call, acquire, close, read_all, write_all, rename_over, unlink,
}

-- How many times a descriptor was opened and closed; `one d` counts a descriptor that is held.
abbrev pub one : ℕ → ℕ → ℕ
one d fd = if d == fd then 1 else 0

unfoldable pub opens : ℕ → List Event → ℕ
opens fd [] = 0
opens fd (opened d opening ∷ log) = one d fd + opens fd log
opens fd (_ ∷ log) = opens fd log

unfoldable pub closes : ℕ → List Event → ℕ
closes fd [] = 0
closes fd (closed d ∷ log) = one d fd + closes fd log
closes fd (_ ∷ log) = closes fd log

-- The descriptors that are held, as a count for each
abbrev pub Held : Type 0
Held = ℕ → ℕ

abbrev pub nothing : Held
nothing fd = 0

unfoldable pub single : ℕ → Held
single d = one d

unfoldable pub pair : ℕ → ℕ → Held
pair d d' fd = one d fd + one d' fd

abbrev pub after : {A : Type 0} → (A → Held) → Held → Held → Res A → Held
after k e w (value a) = k a
after k e w (os_error t) = e
after k e w raised = w

-- An action that is entered with `s` held and ends with `k` of its value held, with `e` at an `OSError`,
-- or with `w` at another exception.
pub record Moves {disk : Disk} {A : Type 0} (s : Held) (k : A → Held) (e w : Held) (m : Io disk A)
    : Type 0 where
  pub at :
      (st : Sys disk) (fd : ℕ)
      → opens fd (m st).1.log + closes fd st.log + s fd
        ≡ closes fd (m st).1.log + opens fd st.log + after k e w (m st).0 fd

module _ {disk : Disk} {A : Type 0} (s : Held) (k : A → Held) where
  abbrev Balanced : (e w : Held) (st : Sys disk) (fd : ℕ) (x : Res A × Sys disk) → Type 0
  Balanced e w st fd x =
      opens fd x.1.log + closes fd st.log + s fd
      ≡ closes fd x.1.log + opens fd st.log + after k e w x.0 fd

  unless_raised-Balanced :
      (e w e' w' : Held) (r : Res A) (h : Io disk (Unit {0})) (st : Sys disk) (fd : ℕ)
      (t : Sys disk)
      → Balanced e w st fd (r, t)
      → Moves (after k e w r) (λ _. after k e' w' r) e' w' h
      → Balanced e' w' st fd (unless_raised r (h t))
  unless_raised-Balanced e w e' w' r h st fd t b m = of_end (h t) (m.at t fd)
    where
      of_end :
          (y : Res (Unit {0}) × Sys disk)
          → opens fd y.1.log + closes fd t.log + after k e w r fd
            ≡ closes fd y.1.log + opens fd t.log + after (λ _. after k e' w' r) e' w' y.0 fd
          → Balanced e' w' st fd (unless_raised r y)
      of_end (value u, v) c = omega (arith, b, c)
      of_end (os_error x, v) c = omega (arith, b, c)
      of_end (raised, v) c = omega (arith, b, c)

  on_error-Balanced :
      (e w e' w' : Held) (h : Io disk (Unit {0})) (st : Sys disk) (fd : ℕ) (x : Res A × Sys disk)
      → Balanced e w st fd x
      → Moves e (λ _. e') e' w' h
      → Moves w (λ _. w') e' w' h
      → Balanced e' w' st fd (on_error x h)
  on_error-Balanced e w e' w' h st fd (value a, t) b c d = b
  on_error-Balanced e w e' w' h st fd (os_error x, t) b c d =
      unless_raised-Balanced e w e' w' (os_error x) h st fd t b c
  on_error-Balanced e w e' w' h st fd (raised, t) b c d =
      unless_raised-Balanced e w e' w' raised h st fd t b d

  handle-Balanced :
      (e e' w : Held) (f : Text → Io disk A) (st : Sys disk) (fd : ℕ) (x : Res A × Sys disk)
      → Balanced e w st fd x
      → ((t : Text) → Moves e k e' w (f t))
      → Balanced e' w st fd (handle x f)
  handle-Balanced e e' w f st fd (value a, t) b c = b
  handle-Balanced e e' w f st fd (os_error x, t) b c = omega (arith, b, (c x).at t fd)
  handle-Balanced e e' w f st fd (raised, t) b c = b

pub after_same : {A : Type 0} (c : Held) (r : Res A) (fd : ℕ) → after (λ _. c) c c r fd ≡ c fd
after_same c (value a) fd = refl
after_same c (os_error e) fd = refl
after_same c raised fd = refl

module _ {disk : Disk} {A : Type 0} {s : Held} {k : A → Held} {e w : Held} where
  pub Moves-pure : (a : A) → ((fd : ℕ) → s fd ≡ k a fd) → Moves {disk = disk} s k e w (pure a)
  unfolding pure
  Moves-pure a h = record { at = λ st fd. omega (arith, h fd) }

  pub Moves-fail : (t : Text) → ((fd : ℕ) → s fd ≡ e fd) → Moves {disk = disk} s k e w (fail t)
  unfolding fail
  Moves-fail t h = record { at = λ st fd. omega (arith, h fd) }

  pub Moves-raise : ((fd : ℕ) → s fd ≡ w fd) → Moves {disk = disk} s k e w raise
  unfolding raise
  Moves-raise h = record { at = λ st fd. omega (arith, h fd) }

  pub Moves-catch_os :
      {e' : Held} (m : Io disk A) (f : Text → Io disk A)
      → Moves s k e' w m
      → ((t : Text) → Moves e' k e w (f t))
      → Moves s k e w (catch_os m f)
  unfolding catch_os
  Moves-catch_os {e'} m f a c = record {
    at = λ st fd. handle-Balanced s k e' e w f st fd (m st) (a.at st fd) c;
  }

module _ {disk : Disk} {A : Type 0} {s : Held} {k : A → Held} {e w e' w' : Held} where
  pub Moves-undo :
      (m : Io disk A) (h : Io disk (Unit {0}))
      → Moves s k e w m
      → Moves e (λ _. e') e' w' h
      → Moves w (λ _. w') e' w' h
      → Moves s k e' w' (undo m h)
  unfolding undo
  Moves-undo m h a c d = record {
    at = λ st fd. on_error-Balanced s k e w e' w' h st fd (m st) (a.at st fd) c d;
  }

finally-Balanced :
    {disk : Disk} {A : Type 0} (s c c' : Held) (r : Res A) (st t : Sys disk) (fd : ℕ)
    (y : Res (Unit {0}) × Sys disk)
    → Balanced s (λ _. c) c c st fd (r, t)
    → Balanced c (λ _. c') c' c' t fd y
    → Balanced s (λ _. c') c' c' st fd (unless_raised r y)
finally-Balanced s c c' r st t fd (value u, v) a b =
    omega (arith, a, b, after_same c r fd, after_same c' r fd)
finally-Balanced s c c' r st t fd (os_error x, v) a b = omega (arith, a, b, after_same c r fd)
finally-Balanced s c c' r st t fd (raised, v) a b = omega (arith, a, b, after_same c r fd)

module _ {disk : Disk} {A : Type 0} {s c c' : Held} where
  pub Moves-finally :
      (m : Io disk A) (h : Io disk (Unit {0}))
      → Moves s (λ _. c) c c m
      → Moves c (λ _. c') c' c' h
      → Moves s (λ _. c') c' c' (finally m h)
  unfolding finally
  Moves-finally m h a b = record {
    at = λ st fd.
        finally-Balanced s c c' (m st).0 st (m st).1 fd (h (m st).1) (a.at st fd)
          (b.at (m st).1 fd);
  }

proceed-Balanced :
    {disk : Disk} {A B : Type 0} (s : Held) (h : A → Held) (k : B → Held) (e w : Held)
    (f : A → Io disk B) (st : Sys disk) (fd : ℕ) (x : Res A × Sys disk)
    → Balanced s h e w st fd x
    → ((a : A) → Moves (h a) k e w (f a))
    → Balanced s k e w st fd (proceed x f)
proceed-Balanced s h k e w f st fd (value a, t) b c = omega (arith, b, (c a).at t fd)
proceed-Balanced s h k e w f st fd (os_error x, t) b c = b
proceed-Balanced s h k e w f st fd (raised, t) b c = b

module _ {disk : Disk} {A B : Type 0} {s : Held} {h : A → Held} {k : B → Held} {e w : Held} where
  pub Moves-bind :
      (m : Io disk A) (f : A → Io disk B)
      → Moves s h e w m
      → ((a : A) → Moves (h a) k e w (f a))
      → Moves s k e w (m >>= f)
  unfolding ◌>>=◌
  Moves-bind m f a c = record {
    at = λ st fd. proceed-Balanced s h k e w f st fd (m st) (a.at st fd) c;
  }

module _ {disk : Disk} {B : Type 0} {s t : Held} {k : B → Held} {e w : Held} where
  pub Moves->> :
      {A : Type 0} (m : Io disk A) (n : Io disk B)
      → Moves s (λ _. t) e w m
      → Moves t k e w n
      → Moves s k e w (m >> n)
  unfolding ◌>>◌
  Moves->> m n a b = Moves-bind m (λ _. n) a (λ _. b)
