-- ===== src/Mutation/Io.antt =====
-- The file operations of mutation.py as actions on a state, with a log of what they did.
pub mod Moves
pub mod Hoare
use satyrn_engine.Prelude.{
  ℕ, zero, suc, ◌+◌, ◌-◌, ◌*◌, ◌≤◌, ◌<◌, min, max, ◌≡◌, ◌≢◌, ◌↔◌, refl, sym, ap, subst, ◌∙◌, ◌⊎◌,
  inl, inr, Bool, true, false, not, ◌&&◌, ◌||◌, Option, none, some, is_some, List, [], ◌∷◌, ◌++◌,
  map, append-nil, append_assoc, arith, tests, ltb, leb, ◌==◌, if◌then◌else◌, Bool-cases,
  Option-cases, length, take, drop, is_empty, all_of, any_of, keep, length-append, length-take-le,
  ltb→lt, lt→ltb, ltb→le, leb→le, ==_iff,
}
use satyrn_engine.Prelude.Text.{
  Text, Bytes, txt, eq_text, eq_text_iff, contains, starts_with, split, join, utf8, utf8_size,
  encodable, has, strip,
}

-- An end of an action or of a call: a value, an `OSError` with its text, or another exception.
pub data Res (A : Type 0) : Type 0 where
  value : A → Res A
  os_error : Text → Res A
  raised : Res A

-- What mutation.py calls outside the repository; any call that has effects may end in any of the three
-- ways. `inr` of `decode_utf8` is a `UnicodeDecodeError`. `write` is the write and the flush.
pub record Disk : Type 1 where
  pub World : Type 0
  pub fnmatch : Text → Text → Bool
  pub sha256 : Bytes → Text
  pub show : ℕ → Text
  pub encode_error : Text → Text
  pub decode_utf8 : Bytes → Text ⊎ Text
  pub decode_ignore : Bytes → Text
  pub resolve : Text → World → Res Text × World
  pub open_root : Text → World → Res ℕ × World
  pub open_directory : ℕ → Text → World → Res ℕ × World
  pub open_file : ℕ → Text → World → Res ℕ × World
  pub create : ℕ → Text → World → Res ℕ × World
  pub close : ℕ → World → Res (Unit {0}) × World
  pub fstat : ℕ → World → Res (Bool × ℕ) × World
  pub fdopen : ℕ → World → Res (Unit {0}) × World
  pub read : ℕ → World → Res Bytes × World
  pub write : ℕ → Bytes → World → Res (Unit {0}) × World
  pub fchmod : ℕ → ℕ → World → Res (Unit {0}) × World
  pub fsync : ℕ → World → Res (Unit {0}) × World
  pub rename : ℕ → Text → Text → World → Res (Unit {0}) × World
  pub unlink : ℕ → Text → World → Res (Unit {0}) × World
  pub token_hex : World → Res Text × World

-- What a descriptor was opened on: a path, or a name in the directory of another descriptor.
pub data Opening : Type 0 where
  of_root : Text → Opening
  of_directory of_file of_temporary : ℕ → Text → Opening

-- A descriptor that was opened, and on what; one that `os.close` was called for; what was read from a
-- descriptor, what was written to one, and a name of a directory that took the place of another.
pub data Event : Type 0 where
  opened : ℕ → Opening → Event
  closed : ℕ → Event
  did_read : ℕ → Bytes → Event
  wrote : ℕ → Bytes → Event
  renamed : ℕ → Text → Text → Event

pub record Sys (disk : Disk) : Type 0 where
  pub world : Disk.World disk
  pub log : List Event

module _ (disk : Disk) where
  abbrev pub Io : Type 0 → Type 0
  Io A = Sys disk → Res A × Sys disk

abbrev pub proceed :
    {disk : Disk} {A B : Type 0} → Res A × Sys disk → (A → Io disk B) → Res B × Sys disk
proceed (value a, s) f = f a s
proceed (os_error e, s) f = (os_error e, s)
proceed (raised, s) f = (raised, s)

abbrev pub handle :
    {disk : Disk} {A : Type 0} → Res A × Sys disk → (Text → Io disk A) → Res A × Sys disk
handle (value a, s) f = (value a, s)
handle (os_error e, s) f = f e s
handle (raised, s) f = (raised, s)

-- What is raised in a `finally` or an `except` takes the place of what was to come.
abbrev pub unless_raised :
    {disk : Disk} {A : Type 0} → Res A → Res (Unit {0}) × Sys disk → Res A × Sys disk
unless_raised r (value u, s) = (r, s)
unless_raised r (os_error e, s) = (os_error e, s)
unless_raised r (raised, s) = (raised, s)

module _ {disk : Disk} {A : Type 0} where
  unfoldable pub pure : A → Io disk A
  pure a s = (value a, s)

  -- `raise OSError(message)`
  unfoldable pub fail : Text → Io disk A
  fail message s = (os_error message, s)

  unfoldable pub raise : Io disk A
  raise s = (raised, s)

  -- `try: m except OSError as exc: f(exc)`
  unfoldable pub catch_os : Io disk A → (Text → Io disk A) → Io disk A
  catch_os m f s = handle (m s) f

  -- `try: m finally: h`
  unfoldable pub finally : Io disk A → Io disk (Unit {0}) → Io disk A
  finally m h s = let (r, s') = m s in unless_raised r (h s')

  abbrev pub on_error : Res A × Sys disk → Io disk (Unit {0}) → Res A × Sys disk
  on_error (value a, s) h = (value a, s)
  on_error (os_error e, s) h = unless_raised (os_error e) (h s)
  on_error (raised, s) h = unless_raised raised (h s)

  -- `try: m except BaseException: h; raise`
  unfoldable pub undo : Io disk A → Io disk (Unit {0}) → Io disk A
  undo m h s = on_error (m s) h

module _ {disk : Disk} {A B : Type 0} where
  infixl 5 ◌>>=◌ ◌>>◌
  unfoldable pub ◌>>=◌ : Io disk A → (A → Io disk B) → Io disk B
  ◌>>=◌ m f s = proceed (m s) f

  unfoldable pub ◌>>◌ : Io disk A → Io disk B → Io disk B
  unfolding ◌>>=◌
  m >> n = m >>= λ _. n

abbrev pub noted : {A : Type 0} → (A → Event) → Res A → List Event → List Event
noted f (value a) log = f a ∷ log
noted f _ log = log

module _ {disk : Disk} {A : Type 0} where
  -- A call without a place in the log, and one that is noted where it succeeds
  unfoldable pub call : (Disk.World disk → Res A × Disk.World disk) → Io disk A
  call f s = let (r, w) = f s.world in (r, record s { world = w })

  unfoldable pub effect : (A → Event) → (Disk.World disk → Res A × Disk.World disk) → Io disk A
  effect event f s = let (r, w) = f s.world in (r, record { world = w; log = noted event r s.log })

module _ {disk : Disk} where
  unfoldable pub acquire : Opening → (Disk.World disk → Res ℕ × Disk.World disk) → Io disk ℕ
  unfolding effect
  acquire opening = effect (λ d. opened d opening)

  -- `os.close(fd)`, which gives the descriptor up also where it fails
  unfoldable pub close : ℕ → Io disk (Unit {0})
  close fd s =
      let (r, w) = Disk.close disk fd s.world in (r, record { world = w; log = closed fd ∷ s.log })

  -- `input_file.read()`
  unfoldable pub read_all : ℕ → Io disk Bytes
  unfolding effect
  read_all fd = effect (did_read fd) (Disk.read disk fd)

  -- `output.write(content); output.flush()`
  unfoldable pub write_all : ℕ → Bytes → Io disk (Unit {0})
  unfolding effect
  write_all fd content = effect (λ _. wrote fd content) (Disk.write disk fd content)

  -- `os.replace(temporary, target, ...)`
  unfoldable pub rename_over : ℕ → Text → Text → Io disk (Unit {0})
  unfolding effect
  rename_over parent temporary target =
      effect (λ _. renamed parent temporary target) (Disk.rename disk parent temporary target)

  -- `with suppress(OSError): os.unlink(name, ...)`
  unfoldable pub unlink : ℕ → Text → Io disk (Unit {0})
  unfolding catch_os call pure
  unlink parent name = catch_os (call (Disk.unlink disk parent name)) (λ e. pure tt)
