-- ===== src/Delivery/Spec.antt =====
-- What a part of a delivery can do: the Git commands that it adds to the log, and how it ends. One
-- rule for each way to build an action.
use satyrn_engine.Prelude.{◌≡◌, refl, Bool, true, false, Option, List, ◌∷◌, if◌then◌else◌}
use satyrn_engine.Prelude.Int.{ℤ}
use satyrn_engine.Prelude.Text.{Text, Bytes}
use satyrn_engine.Delivery.Host.{Host, Environment}
use satyrn_engine.Delivery.Git.{GitCommand}
use satyrn_engine.Delivery.Receipt.{DeliveryReceipt}
use satyrn_engine.Delivery.Exec.{
  AttemptState, Sys, Exit, go, returned, raised, Exec, pure, leave, raise, gets, call, attempt_of,
  modify, return_if, on_raise, called, ◌>>=◌, ◌>>◌, after_raise, proceed, enter,
}
use satyrn_engine.Delivery.Calls.{git}

abbrev pub Log : Type 0
Log = List (GitCommand × ℤ)

-- The second log is the first with commands in front of it that satisfy `P`.
pub data Extends (P : GitCommand → Type 0) (old : Log) : Log → Type 0 where
  same : Extends P old old
  ran :
      {c : GitCommand} {code : ℤ} {new : Log}
      → P c
      → Extends P old new
      → Extends P old ((c, code) ∷ new)

pub Extends-trans :
    {P : GitCommand → Type 0} {a b c : Log} → Extends P a b → Extends P b c → Extends P a c
Extends-trans p same = p
Extends-trans p (ran h q) = ran h (Extends-trans p q)

-- How an action ends: by a value, by an early return, or by an exception.
abbrev pub Ends : {A : Type 0} → (DeliveryReceipt → Type 0) → (A → Type 0) → Exit A → Type 0
Ends R Q (go a) = Q a
Ends R Q (returned r) = R r
Ends R Q raised = Unit

pub record Spec {host : Host} {A : Type 0} (P : GitCommand → Type 0) (R : DeliveryReceipt → Type 0)
    (Q : A → Type 0) (m : Exec host A) : Type 0 where
  pub at : (s : Sys host) → Extends P s.log (m s).1.log × Ends R Q (m s).0

abbrev pub Any : {A : Type 0} → A → Type 0
Any a = Unit {0}

module _ {host : Host} {P : GitCommand → Type 0} {R : DeliveryReceipt → Type 0} {A : Type 0}
    {Q : A → Type 0} where
  pub Spec-pure : (a : A) → Q a → Spec {host = host} P R Q (pure a)
  unfolding pure
  Spec-pure a h = record { at = λ s. (same, h) }

  pub Spec-leave : (r : DeliveryReceipt) → R r → Spec {host = host} P R Q (leave r)
  unfolding leave
  Spec-leave r h = record { at = λ s. (same, h) }

  pub Spec-raise : Spec {host = host} P R Q raise
  unfolding raise
  Spec-raise = record { at = λ s. (same, tt) }

  pub Spec-if :
      (b : Bool) (m n : Exec host A)
      → (b ≡ true → Spec P R Q m)
      → (b ≡ false → Spec P R Q n)
      → Spec P R Q (if b then m else n)
  Spec-if true m n f g = f refl
  Spec-if false m n f g = g refl

module _ {host : Host} {P : GitCommand → Type 0} {R : DeliveryReceipt → Type 0} where
  pub Spec-gets : {A : Type 0} (f : Host.World host → A) → Spec P R Any (gets {host = host} f)
  unfolding gets
  Spec-gets f = record { at = λ s. (same, tt) }

  pub Spec-call :
      {A : Type 0} (f : Host.World host → A × Host.World host) → Spec P R Any (call {host = host} f)
  unfolding call
  Spec-call f = record { at = λ s. (same, tt) }

  pub Spec-attempt_of :
      {A : Type 0} (f : AttemptState → A) → Spec P R Any (attempt_of {host = host} f)
  unfolding attempt_of
  Spec-attempt_of f = record { at = λ s. (same, tt) }

  pub Spec-modify : (f : AttemptState → AttemptState) → Spec P R Any (modify {host = host} f)
  unfolding modify
  Spec-modify f = record { at = λ s. (same, tt) }

  pub Spec-git :
      (cwd : Text) (env : Environment) (c : GitCommand) (input : Option Bytes)
      → P c
      → Spec P R Any (git host cwd env c input)
  unfolding git
  Spec-git cwd env c input h = record { at = λ s. (ran h same, tt) }

  pub Spec-return_if :
      (b : Bool) (r : DeliveryReceipt) → R r → Spec P R Any (return_if {host = host} b r)
  unfolding return_if
  Spec-return_if true r h = record { at = λ s. (same, h) }
  Spec-return_if false r h = record { at = λ s. (same, tt) }

module _ {host : Host} {P : GitCommand → Type 0} {R : DeliveryReceipt → Type 0} {A B : Type 0}
    {M : A → Type 0} {Q : B → Type 0} where
  proceed-Spec :
      (old : Log) (x : Exit A × Sys host) (f : A → Exec host B)
      → Extends P old x.1.log
      → Ends R M x.0
      → ((a : A) → M a → Spec P R Q (f a))
      → Extends P old (proceed x f).1.log × Ends R Q (proceed x f).0
  unfolding proceed
  proceed-Spec old (go a, s) f e h k = let (e', h') = (k a h).at s in (Extends-trans e e', h')
  proceed-Spec old (returned r, s) f e h k = (e, h)
  proceed-Spec old (raised, s) f e h k = (e, tt)

  pub Spec-bind :
      (m : Exec host A) (f : A → Exec host B)
      → Spec P R M m
      → ((a : A) → M a → Spec P R Q (f a))
      → Spec P R Q (m >>= f)
  unfolding ◌>>=◌
  Spec-bind m f km kf = record {
    at = λ s. let (e, h) = km.at s in proceed-Spec s.log (m s) f e h kf;
  }

module _ {host : Host} {P : GitCommand → Type 0} {R : DeliveryReceipt → Type 0} {A B : Type 0}
    {Q : B → Type 0} where
  -- The value of the first part is not looked at.
  pub Spec->>= :
      (m : Exec host A) (f : A → Exec host B)
      → Spec P R Any m
      → ((a : A) → Spec P R Q (f a))
      → Spec P R Q (m >>= f)
  Spec->>= m f km kf = Spec-bind m f km (λ a _. kf a)

  pub Spec->> :
      (m : Exec host A) (n : Exec host B) → Spec P R Any m → Spec P R Q n → Spec P R Q (m >> n)
  unfolding ◌>>◌
  Spec->> m n km kn = Spec-bind m (λ _. n) km (λ a _. kn)

module _ {host : Host} {P : GitCommand → Type 0} {R : DeliveryReceipt → Type 0} {A : Type 0} where
  after_raise-Spec :
      (Q : A → Type 0) (old : Log) (x : Exit A × Sys host) (handler : Exec host (Unit {0}))
      → Extends P old x.1.log
      → Ends R Q x.0
      → Spec P R Any handler
      → Extends P old (after_raise x handler).1.log × Ends R Q (after_raise x handler).0
  unfolding after_raise
  after_raise-Spec Q old (go a, s) handler e h k = (e, h)
  after_raise-Spec Q old (returned r, s) handler e h k = (e, h)
  after_raise-Spec Q old (raised, s) handler e h k = (Extends-trans e (k.at s).0, tt)

  pub Spec-on_raise :
      {Q : A → Type 0} (m : Exec host A) (handler : Exec host (Unit {0}))
      → Spec P R Q m
      → Spec P R Any handler
      → Spec P R Q (on_raise m handler)
  unfolding on_raise
  Spec-on_raise {Q} m handler km kh = record {
    at = λ s. let (e, h) = km.at s in after_raise-Spec Q s.log (m s) handler e h kh;
  }

enter-Ends :
    (R R' : DeliveryReceipt → Type 0) (x : Exit DeliveryReceipt) → Ends R R x → Ends R' R (enter x)
enter-Ends R R' (go r) h = h
enter-Ends R R' (returned r) h = h
enter-Ends R R' raised h = h

module _ {host : Host} {P : GitCommand → Type 0} {R R' : DeliveryReceipt → Type 0} where
  -- What a function returns early is what it returns.
  pub Spec-called : (m : Exec host DeliveryReceipt) → Spec P R R m → Spec P R' R (called m)
  unfolding called
  Spec-called m km = record { at = λ s. let (e, h) = km.at s in (e, enter-Ends R R' (m s).0 h) }

pub ruleset spec_rules = (
  Spec-pure, Spec-leave, Spec-raise, Spec-if, Spec-gets, Spec-call, Spec-attempt_of, Spec-modify,
  Spec-git, Spec-return_if, Spec->>=, Spec->>, Spec-on_raise,
)
