-- ===== src/Mutation/Io/Hoare.antt =====
-- What an action reads and publishes: one rule for each way to build an action.
pub mod Calls
use satyrn_engine.Prelude.{◌∙◌, ℕ, ◌≡◌, refl, sym, ap, subst, List, [], ◌∷◌}
use satyrn_engine.Prelude.Text.{Text, Bytes}
use satyrn_engine.Mutation.Io.{
  raised, proceed, os_error, on_error, unless_raised, handle, ◌>>◌, ◌>>=◌, value, unlink, undo,
  effect, noted, rename_over, read_all, write_all, raise, pure, finally, fail, did_read, close,
  catch_os, call, acquire, Sys, Io, Res, Event, Disk, opened, closed, wrote, renamed, Opening,
}

-- The events without the closing of descriptors, the last first
unfoldable pub seen : List Event → List Event
seen [] = []
seen (closed d ∷ log) = seen log
seen (event ∷ log) = event ∷ seen log

abbrev pub Log : Type 1
Log = List Event → Type 0

-- The log is `es`.
abbrev pub Is : List Event → Log
Is es l = l ≡ es

abbrev pub Ends : {A : Type 0} → (A → Log) → Log → Log → Res A → Log
Ends Q E R (value a) l = Q a l
Ends Q E R (os_error t) l = E l
Ends Q E R raised l = R l

exits-Ends :
    {A : Type 0} (Q : A → Log) (E E' R R' : Log)
    → ((l : List Event) → E l → E' l)
    → ((l : List Event) → R l → R' l)
    → (r : Res A) (l : List Event) → Ends Q E R r l
    → Ends Q E' R' r l
exits-Ends Q E E' R R' g h (value a) l p = p
exits-Ends Q E E' R R' g h (os_error t) l p = g l p
exits-Ends Q E E' R R' g h raised l p = h l p

after-Ends :
    {A : Type 0} (Q Q' : A → Log) (E R : Log)
    → ((a : A) (l : List Event) → Q a l → Q' a l)
    → (r : Res A) (l : List Event) → Ends Q E R r l
    → Ends Q' E R r l
after-Ends Q Q' E R h (value a) l p = h a l p
after-Ends Q Q' E R h (os_error t) l p = p
after-Ends Q Q' E R h raised l p = p

-- An action that is entered with `P` ends with `Q` of its value, with `E` at an `OSError`, or with `R` at
-- another exception.
pub record Triple {disk : Disk} {A : Type 0} (P : Log) (Q : A → Log) (E R : Log) (m : Io disk A)
    : Type 0 where
  pub at : (st : Sys disk) → P (seen st.log) → Ends Q E R (m st).0 (seen (m st).1.log)

module _ {disk : Disk} {A : Type 0} (Q : A → Log) (R : Log) where
  handle-Ends :
      {E : Log} (E' : Log) (f : Text → Io disk A) (x : Res A × Sys disk)
      → Ends Q E' R x.0 (seen x.1.log)
      → ((t : Text) → Triple E' Q E R (f t))
      → Ends Q E R (handle x f).0 (seen (handle x f).1.log)
  handle-Ends E' f (value a, t) b c = b
  handle-Ends E' f (os_error e, t) b c = (c e).at t b
  handle-Ends E' f (raised, t) b c = b

  unless_raised-Ends :
      (E : Log) (r : Res A) (y : Res (Unit {0}) × Sys disk)
      → Ends (λ _. Ends Q E R r) E R y.0 (seen y.1.log)
      → Ends Q E R (unless_raised r y).0 (seen (unless_raised r y).1.log)
  unless_raised-Ends E r (value u, t) b = b
  unless_raised-Ends E r (os_error e, t) b = b
  unless_raised-Ends E r (raised, t) b = b

  on_error-Ends :
      (E E' R' : Log) (h : Io disk (Unit {0})) (x : Res A × Sys disk)
      → Ends Q E' R' x.0 (seen x.1.log)
      → Triple E' (λ _. E) E R h
      → Triple R' (λ _. R) E R h
      → Ends Q E R (on_error x h).0 (seen (on_error x h).1.log)
  on_error-Ends E E' R' h (value a, t) b c d = b
  on_error-Ends E E' R' h (os_error e, t) b c d = unless_raised-Ends E (os_error e) (h t) (c.at t b)
  on_error-Ends E E' R' h (raised, t) b c d = unless_raised-Ends E raised (h t) (d.at t b)

  handler-Ends :
      (E : Log) (h : Io disk (Unit {0})) (x : Res A × Sys disk)
      → Ends Q E R x.0 (seen x.1.log)
      → ((a : A) → Triple (Q a) (λ _. Q a) E R h)
      → Triple E (λ _. E) E R h
      → Triple R (λ _. R) E R h
      → Ends (λ _. Ends Q E R x.0) E R (h x.1).0 (seen (h x.1).1.log)
  handler-Ends E h (value a, t) p b c d = (b a).at t p
  handler-Ends E h (os_error e, t) p b c d = c.at t p
  handler-Ends E h (raised, t) p b c d = d.at t p

proceed-Ends :
    {disk : Disk} {A B : Type 0} (H : A → Log) (Q : B → Log) (E R : Log) (f : A → Io disk B)
    (x : Res A × Sys disk)
    → Ends H E R x.0 (seen x.1.log)
    → ((a : A) → Triple (H a) Q E R (f a))
    → Ends Q E R (proceed x f).0 (seen (proceed x f).1.log)
proceed-Ends H Q E R f (value a, t) b c = (c a).at t b
proceed-Ends H Q E R f (os_error e, t) b c = b
proceed-Ends H Q E R f (raised, t) b c = b

module _ {disk : Disk} {A : Type 0} {P : Log} {Q : A → Log} {E R : Log} where
  pub Triple-pure :
      (a : A) → ((l : List Event) → P l → Q a l) → Triple {disk = disk} P Q E R (pure a)
  unfolding pure
  Triple-pure a h = record { at = λ st p. h (seen st.log) p }

  pub Triple-fail :
      (t : Text) → ((l : List Event) → P l → E l) → Triple {disk = disk} P Q E R (fail t)
  unfolding fail
  Triple-fail t h = record { at = λ st p. h (seen st.log) p }

  pub Triple-raise : ((l : List Event) → P l → R l) → Triple {disk = disk} P Q E R raise
  unfolding raise
  Triple-raise h = record { at = λ st p. h (seen st.log) p }

  pub Triple-catch_os :
      {E' : Log} (m : Io disk A) (f : Text → Io disk A)
      → Triple P Q E' R m
      → ((t : Text) → Triple E' Q E R (f t))
      → Triple P Q E R (catch_os m f)
  unfolding catch_os
  Triple-catch_os {E'} m f a c = record { at = λ st p. handle-Ends Q R E' f (m st) (a.at st p) c }

  pub Triple-undo :
      {E' R' : Log} (m : Io disk A) (h : Io disk (Unit {0}))
      → Triple P Q E' R' m
      → Triple E' (λ _. E) E R h
      → Triple R' (λ _. R) E R h
      → Triple P Q E R (undo m h)
  unfolding undo
  Triple-undo {E'} {R'} m h a c d = record {
    at = λ st p. on_error-Ends Q R E E' R' h (m st) (a.at st p) c d;
  }

  pub Triple-finally :
      (m : Io disk A) (h : Io disk (Unit {0}))
      → Triple P Q E R m
      → ((a : A) → Triple (Q a) (λ _. Q a) E R h)
      → Triple E (λ _. E) E R h
      → Triple R (λ _. R) E R h
      → Triple P Q E R (finally m h)
  unfolding finally
  Triple-finally m h a b c d = record {
    at = λ st p.
        unless_raised-Ends Q R E (m st).0 (h (m st).1)
          (handler-Ends Q R E h (m st) (a.at st p) b c d);
  }

  -- The log is known where the action begins.
  pub Triple-each :
      (m : Io disk A) → ((es : List Event) → P es → Triple (Is es) Q E R m) → Triple P Q E R m
  Triple-each m h = record { at = λ st p. (h (seen st.log) p).at st refl }

module _ {disk : Disk} {A : Type 0} {P : Log} {Q : A → Log} {E R : Log} where
  pub Triple-before :
      {P' : Log} (m : Io disk A)
      → ((l : List Event) → P' l → P l)
      → Triple P Q E R m
      → Triple P' Q E R m
  Triple-before m h a = record { at = λ st p. a.at st (h _ p) }

  pub Triple-after :
      {Q' : A → Log} (m : Io disk A)
      → ((a : A) (l : List Event) → Q a l → Q' a l)
      → Triple P Q E R m
      → Triple P Q' E R m
  Triple-after {Q'} m h a = record { at = λ st p. after-Ends Q Q' E R h (m st).0 _ (a.at st p) }

  pub Triple-exits :
      {E' R' : Log} (m : Io disk A)
      → ((l : List Event) → E l → E' l)
      → ((l : List Event) → R l → R' l)
      → Triple P Q E R m
      → Triple P Q E' R' m
  Triple-exits {E'} {R'} m g h a = record {
    at = λ st p. exits-Ends Q E E' R R' g h (m st).0 _ (a.at st p);
  }

module _ {disk : Disk} {A B : Type 0} {P : Log} {H : A → Log} {Q : B → Log} {E R : Log} where
  pub Triple-bind :
      (m : Io disk A) (f : A → Io disk B)
      → Triple P H E R m
      → ((a : A) → Triple (H a) Q E R (f a))
      → Triple P Q E R (m >>= f)
  unfolding ◌>>=◌
  Triple-bind m f a c = record { at = λ st p. proceed-Ends H Q E R f (m st) (a.at st p) c }

module _ {disk : Disk} {A B : Type 0} {P H : Log} {Q : B → Log} {E R : Log} where
  pub Triple->> :
      (m : Io disk A) (n : Io disk B)
      → Triple P (λ _. H) E R m
      → Triple H Q E R n
      → Triple P Q E R (m >> n)
  unfolding ◌>>◌
  Triple->> m n a b = Triple-bind m (λ _. n) a (λ _. b)
