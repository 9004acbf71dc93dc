-- ===== src/Contract.antt =====
-- src/satyrn_engine/contract.py: loading and validating a contract. The file system and the YAML
-- library are parameters.
pub mod Fields
pub mod Accept
use satyrn_engine.Prelude.{
  ℕ, Bool, true, false, Option, none, some, List, [], ◌∷◌, ◌++◌, if◌then◌else◌,
}
use satyrn_engine.Prelude.Text.{Text, txt, join}
use satyrn_engine.Prelude.Value.{
  Value, dict, Decoded, document, decode_error, other_error, type_name,
}
use satyrn_engine.Exits.{ExitCode}
use satyrn_engine.Contract.Fields.{Contract, field_problems, build}
use satyrn_engine.Prelude.Value

-- What `load_contract` ends with: a contract, a `ContractError`, or another exception.
pub data Loaded : Type 0 where
  loaded : Contract → Loaded
  refused : ExitCode → Text → Loaded
  crashed : Loaded

-- `path.read_text(encoding="utf-8")`: a text, an `OSError`, or a `UnicodeDecodeError`.
pub data Reading : Type 0 where
  content : Text → Reading
  os_error : Text → Reading
  not_utf8 : Reading

pub record Files : Type 0 where
  pub read_text : Text → Reading
  pub safe_load : Text → Decoded
  pub is_dir : Text → Bool

settle : Value.Fields → Option (List Text) → Loaded
settle data' none = crashed
settle data' (some []) = loaded (build data')
settle data' (some (p ∷ ps)) = refused ExitCode.contract_missing_field (join (txt "; ") (p ∷ ps))

unfoldable pub validate : Text → Value → Loaded
unfolding settle
validate path (dict data') = settle data' (field_problems data')
validate path v =
    refused ExitCode.contract_missing_field
      (txt "top level of " ++ path ++ txt " must be a mapping, not " ++ type_name v)

parse : Text → Decoded → Loaded
unfolding validate
parse path (document v) = validate path v
parse path (decode_error detail) =
    refused ExitCode.contract_invalid_yaml (txt "invalid YAML in " ++ path ++ txt ": " ++ detail)
parse path other_error = crashed

read : Files → Text → Reading → Loaded
unfolding parse
read files path (content text) = parse path (files.safe_load text)
read files path (os_error detail) =
    refused ExitCode.contract_unreadable (txt "cannot read contract " ++ path ++ txt ": " ++ detail)
read files path not_utf8 = crashed

unfoldable pub load_contract : Files → Text → Loaded
unfolding read
load_contract files path = read files path (files.read_text path)
