-- ===== src/Mutation/Target.antt =====
-- `_open_target`, `_prepare_target` and `_atomic_replace` of mutation.py.
pub mod Written
pub mod Site
pub mod Descriptors
pub mod Contents
use satyrn_engine.Prelude.{
  ℕ, zero, suc, ◌+◌, ◌-◌, ◌*◌, ◌≤◌, ◌<◌, min, max, ◌≡◌, ◌≢◌, ◌↔◌, refl, sym, ap, subst, ◌∙◌, ◌⊎◌,
  inl, inr, Bool, true, false, not, ◌&&◌, ◌||◌, Option, none, some, is_some, List, [], ◌∷◌, ◌++◌,
  map, append-nil, append_assoc, arith, tests, ltb, leb, ◌==◌, if◌then◌else◌, Bool-cases,
  Option-cases, length, take, drop, is_empty, all_of, any_of, keep, length-append, length-take-le,
  ltb→lt, lt→ltb, ltb→le, leb→le, ==_iff,
}
use satyrn_engine.Prelude.Text.{
  Text, Bytes, txt, eq_text, eq_text_iff, contains, starts_with, split, join, utf8, utf8_size,
  encodable, has, strip,
}
use satyrn_engine.Mutation.Io.{
  write_all, of_root, of_directory, of_file, of_temporary, Disk, Sys, Res, Io, pure, fail, raise,
  catch_os, finally, undo, ◌>>=◌, ◌>>◌, call, acquire, close, read_all, rename_over, unlink,
}
use satyrn_engine.Contract.Fields.{Contract}
use satyrn_engine.Mutation.Receipt.{MutationCode, MutationReceipt, refusal}
use satyrn_engine.Mutation.Path.{normalize_relative_path}

-- What `_prepare_target` hands on; both descriptors are open.
pub record Prepared : Type 0 where
  pub parent_descriptor : ℕ
  pub target_descriptor : ℕ
  pub target_name : Text
  pub path : Text
  pub mode : ℕ
  pub before : Bytes

pub record Opened : Type 0 where
  pub parent : ℕ
  pub target : ℕ
  pub name : Text

module _ (disk : Disk) where
  -- The directories of a path, from an open parent, and the file in the last; an error closes the
  -- parent that is open then.
  descend : ℕ → List Text → Io disk Opened
  descend parent [] = undo raise (close parent)
  descend parent (name ∷ []) =
      undo
        (do
          target ← acquire (of_file parent name) (Disk.open_file disk parent name)
          pure (record { parent = parent; target = target; name = name }))
        (close parent)
  descend parent (component ∷ next ∷ rest) = do
    child ←
        undo
          (do
            child ←
                acquire (of_directory parent component) (Disk.open_directory disk parent component)
            close parent
            pure child)
          (close parent)
    descend child (next ∷ rest)

  -- `_open_target`
  unfoldable pub open_target : Text → Text → Io disk Opened
  unfolding descend
  open_target root path = do
    parent ← acquire (of_root root) (Disk.open_root disk root)
    descend parent (split 47 path)

  -- `os.close(target_descriptor); os.close(parent_descriptor)`
  unfoldable pub close_both : ℕ → ℕ → Io disk (Unit {0})
  close_both parent target = do close target; close parent

  -- The bytes of a regular file of UTF-8 text, and its mode
  checked_stat : Text → Bool × ℕ → Io disk ℕ
  checked_stat path (true, mode) = pure mode
  checked_stat path (false, mode) = fail (txt "mutation target is not a regular file: " ++ path)

  decoded : Bytes → Text ⊎ Text → Io disk Bytes
  decoded b (inl text) = pure b
  decoded b (inr e) = fail e

  read_target : Text → ℕ → Io disk (ℕ × Bytes)
  unfolding checked_stat decoded
  read_target path target = do
    stat ← call (Disk.fstat disk target)
    mode ← checked_stat path stat
    call (Disk.fdopen disk target)
    b ← read_all target
    before ← decoded b (Disk.decode_utf8 disk b)
    pure (mode, before)

  -- `_close_both`
  refuse_closed : Opened → MutationReceipt → Io disk (MutationReceipt ⊎ Prepared)
  refuse_closed o receipt = do close_both o.parent o.target; pure (inl receipt)

  check_revision : Opened → Text → Option Text → ℕ × Bytes → Io disk (MutationReceipt ⊎ Prepared)
  unfolding refuse_closed
  check_revision o path none (mode, before) = refuse_closed o (
      refusal MutationCode.revision_unavailable
        (txt "no captured revision is available for " ++ path))
  check_revision o path (some expected) (mode, before) =
      if eq_text (Disk.sha256 disk before) expected
      then pure (
          inr (record {
            parent_descriptor = o.parent;
            target_descriptor = o.target;
            target_name = o.name;
            path = path;
            mode = mode;
            before = before;
          }))
      else refuse_closed o (
          refusal MutationCode.revision_stale (
            txt "file revision changed for "
            ++ (path
                ++ (txt ": expected "
                    ++ (expected ++ (txt ", found " ++ Disk.sha256 disk before))))))

  cannot_read : Text → Text → MutationReceipt
  cannot_read path e =
      refusal MutationCode.mutation_failed
        (txt "cannot read mutation target " ++ (path ++ (txt ": " ++ e)))

  -- What is read, or the refusal that is made of an error in the reading
  attempt_read : Text → Opened → Io disk (MutationReceipt ⊎ (ℕ × Bytes))
  unfolding read_target cannot_read
  attempt_read path o =
      catch_os (do r ← read_target path o.target; pure (inr r))
        (λ e. pure (inl (cannot_read path e)))

  after_read :
      Opened
      → Text
      → Option Text
      → MutationReceipt ⊎ (ℕ × Bytes)
      → Io disk (MutationReceipt ⊎ Prepared)
  unfolding refuse_closed check_revision
  after_read o path expected (inl receipt) = refuse_closed o receipt
  after_read o path expected (inr r) = check_revision o path expected r

  attempt_open : Text → Text → Io disk (MutationReceipt ⊎ Opened)
  unfolding open_target cannot_read
  attempt_open repo path =
      catch_os (do root ← call (Disk.resolve disk repo); o ← open_target root path; pure (inr o))
        (λ e. pure (inl (cannot_read path e)))

  after_open : Text → Option Text → MutationReceipt ⊎ Opened → Io disk (MutationReceipt ⊎ Prepared)
  unfolding attempt_read after_read
  after_open path expected (inl receipt) = pure (inl receipt)
  after_open path expected (inr o) = do r ← attempt_read path o; after_read o path expected r

  prepare_normalized :
      Text → Contract → Option Text → Text ⊎ Text → Io disk (MutationReceipt ⊎ Prepared)
  unfolding attempt_open after_open
  prepare_normalized repo contract expected (inr e) =
      pure (inl (refusal MutationCode.mutation_failed (txt "invalid mutation path: " ++ e)))
  prepare_normalized repo contract expected (inl path) =
      if any_of (λ pattern'. Disk.fnmatch disk path pattern') contract.writable_paths
      then (do o ← attempt_open repo path; after_open path expected o)
      else pure (
          inl (
            refusal MutationCode.path_undeclared
              (txt "path is outside the contract's writable paths: " ++ path)))

  -- `_prepare_target`
  unfoldable pub prepare_target :
      Text → Contract → Text → Option Text → Io disk (MutationReceipt ⊎ Prepared)
  unfolding prepare_normalized
  prepare_target repo contract path expected =
      prepare_normalized repo contract expected (normalize_relative_path path)

  -- The `with` block on the temporary file, which closes it
  fill : ℕ → ℕ → Bytes → Io disk (Unit {0})
  fill descriptor mode content = do
    call (Disk.fdopen disk descriptor)
    finally
        (do
          write_all descriptor content
          call (Disk.fchmod disk descriptor mode)
          call (Disk.fsync disk descriptor))
        (close descriptor)

  fill_and_rename : ℕ → Text → Text → ℕ → ℕ → Bytes → Io disk (Unit {0})
  unfolding fill
  fill_and_rename parent temporary target descriptor mode content = do
    fill descriptor mode content
    rename_over parent temporary target

  -- `_atomic_replace`
  unfoldable pub atomic_replace : ℕ → Text → ℕ → Bytes → Io disk (Unit {0})
  unfolding fill_and_rename
  atomic_replace parent target mode content = do
    token ← call (Disk.token_hex disk)
    let temporary = txt "." ++ (target ++ (txt ".satyrn-" ++ (token ++ txt ".tmp")))
    descriptor ← acquire (of_temporary parent temporary) (Disk.create disk parent temporary)
    finally (fill_and_rename parent temporary target descriptor mode content)
        (unlink parent temporary)
