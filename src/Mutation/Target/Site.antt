-- ===== src/Mutation/Target/Site.antt =====
-- Which file a log opens, and which one it publishes.
use satyrn_engine.Prelude.Text.{split, Text}
use satyrn_engine.Prelude.{
  ℕ, ◌≡◌, refl, ap, ◌∙◌, ◌⊎◌, inl, inr, Bool, true, false, Option, some, List, [], ◌∷◌, any_of,
}
use satyrn_engine.Mutation.Io.Hoare.{Log}
use satyrn_engine.Mutation.Target.{Prepared, Opened}
use satyrn_engine.Mutation.Receipt.{MutationReceipt, is_ok}
use satyrn_engine.Mutation.Io.{
  Disk, Event, opened, did_read, renamed, of_root, of_directory, of_file, value,
}
use satyrn_engine.Mutation.Path.{normalize_relative_path}
use satyrn_engine.Contract.Fields.{Contract}

-- Did a file take the place of another?
unfoldable pub publishes : List Event → Bool
publishes [] = false
publishes (renamed d a b ∷ log) = true
publishes (_ ∷ log) = publishes log

abbrev pub Unpublished : Log
Unpublished l = publishes l ≡ false

abbrev pub Refused : MutationReceipt → Log
Refused receipt l = (is_ok receipt.code ≡ false) × Unpublished l

pub Is-Unpublished : {es : List Event} → Unpublished es → (l : List Event) → l ≡ es → Unpublished l
Is-Unpublished u l p = ap publishes p ∙ u

-- `Leads root path rest d l`: the events `l` open, from the root on, the directories of `path` up to the
-- ones of `rest`, each in the one before; the last has the descriptor `d`.
pub data Leads (root : Text) (path : List Text) : List Text → ℕ → List Event → Type 0 where
  at_root : (d : ℕ) → Leads root path path d (opened d (of_root root) ∷ [])
  inside :
      (name : Text) (rest : List Text) (p d : ℕ) (l : List Event)
      → Leads root path (name ∷ rest) p l
      → Leads root path rest d (opened d (of_directory p name) ∷ l)

-- The file of a path is open, and so is its directory; nothing else happened.
pub record Located (root : Text) (path : List Text) (o : Opened) (l : List Event) : Type 0 where
  pub earlier : List Event
  pub leads : Leads root path (o.name ∷ []) o.parent earlier
  pub opening : l ≡ opened o.target (of_file o.parent o.name) ∷ earlier

-- In some world, a name resolves to this path.
pub record Resolves (disk : Disk) (name path : Text) : Type 0 where
  pub world : Disk.World disk
  pub answer : (Disk.resolve disk name world).0 ≡ value path

-- The root is the one that the repository's name resolves to.
pub record Site (disk : Disk) (repo path : Text) (o : Opened) (l : List Event) : Type 0 where
  pub root : Text
  pub resolved : Resolves disk repo root
  pub located : Located root (split 47 path) o l

pub Leads-Unpublished :
    (root : Text) (path rest : List Text) (d : ℕ) (l : List Event)
    → Leads root path rest d l
    → Unpublished l
unfolding publishes
Leads-Unpublished root path _ _ _ (at_root d) = refl
Leads-Unpublished root path _ _ _ (inside name rest p d l' h) =
    Leads-Unpublished root path (name ∷ rest) p l' h

pub Located-Unpublished :
    (root : Text) (path : List Text) (o : Opened) (l : List Event)
    → Located root path o l
    → Unpublished l
unfolding publishes
Located-Unpublished root path o l s =
    Is-Unpublished (Leads-Unpublished root path _ o.parent s.earlier s.leads) l s.opening

abbrev pub file_of : Prepared → Opened
file_of p = record {
  parent = p.parent_descriptor;
  target = p.target_descriptor;
  name = p.target_name;
}

module _ (disk : Disk) (repo : Text) (contract : Contract) (path : Text)
    (expected : Option Text) where
  -- A file that may be written: its path is normal and declared, its descriptors are those of that path
  -- in the repository, and its bytes, the last that were read, are read from that descriptor and of the
  -- revision expected.
  pub record Authorized (p : Prepared) (l : List Event) : Type 0 where
    pub normal : normalize_relative_path path ≡ inl p.path
    pub declared :
        any_of (λ pattern'. Disk.fnmatch disk p.path pattern') contract.writable_paths ≡ true
    pub revision : expected ≡ some (Disk.sha256 disk p.before)
    pub opening : List Event
    pub site : Site disk repo p.path (file_of p) opening
    pub only : l ≡ did_read p.target_descriptor p.before ∷ opening

  abbrev pub Ready : MutationReceipt ⊎ Prepared → Log
  Ready (inl receipt) = Refused receipt
  Ready (inr p) = Authorized p

pub Authorized-Unpublished :
    (disk : Disk) (repo : Text) (contract : Contract) (path : Text) (expected : Option Text)
    (p : Prepared) (l : List Event)
    → Authorized disk repo contract path expected p l
    → Unpublished l
unfolding publishes
Authorized-Unpublished disk repo contract path expected p l a =
    Is-Unpublished
      (Located-Unpublished a.site.root (split 47 p.path) (file_of p) a.opening a.site.located) l
      a.only
