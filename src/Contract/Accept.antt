-- ===== src/Contract/Accept.antt =====
-- What `load_contract` accepts and refuses.
use satyrn_engine.Prelude.{◌≡◌, refl, Option, none, some, List, [], ◌∷◌, ap, subst}
use satyrn_engine.Prelude.Text.{Text}
use satyrn_engine.Prelude.Value.{Value, dict, Decoded, document, decode_error, other_error}
use satyrn_engine.Exits.{ExitCode}
use satyrn_engine.Contract.{
  Loaded, loaded, refused, Reading, content, os_error, not_utf8, Decoded, document, decode_error,
  other_error, Files, settle, validate, parse, read, load_contract,
}
use satyrn_engine.Contract.Fields.{Contract, field_problems}
use satyrn_engine.Contract.Fields.Valid.{IsValid, build-IsValid}
use satyrn_engine.Prelude.Value

loaded_contract : Contract → Loaded → Contract
loaded_contract d (loaded c) = c
loaded_contract d _ = d

loaded-injective : (c d : Contract) → loaded c ≡ loaded d → c ≡ d
unfolding loaded_contract
loaded-injective c d h = ap (loaded_contract c) h

settle-IsValid :
    (data' : Value.Fields) (o : Option (List Text)) (c : Contract)
    → field_problems data' ≡ o
    → settle data' o ≡ loaded c
    → IsValid c
unfolding settle
settle-IsValid data' none c e h = cc
settle-IsValid data' (some []) c e h =
    subst IsValid (loaded-injective _ _ h) (build-IsValid data' e)
settle-IsValid data' (some (p ∷ ps)) c e h = cc

validate-IsValid : (path : Text) (v : Value) (c : Contract) → validate path v ≡ loaded c → IsValid c
unfolding validate
validate-IsValid path (dict data') c h = settle-IsValid data' _ c refl h
validate-IsValid path _ c h = cc

-- A contract that `load_contract` returns has a non-blank id and task, lists of non-blank strings
-- only, and positive budgets.
pub load_contract-IsValid :
    (files : Files) (path : Text) (c : Contract) → load_contract files path ≡ loaded c → IsValid c
unfolding load_contract
load_contract-IsValid files path c h = go (files.read_text path) h
  where
    go_parsed : (p : Decoded) → parse path p ≡ loaded c → IsValid c
    go_parsed (document v) e = validate-IsValid path v c e
    go_parsed (decode_error detail) e = cc
    go_parsed other_error e = cc

    go : (r : Reading) → read files path r ≡ loaded c → IsValid c
    go (content text) e = go_parsed (files.safe_load text) e
    go (os_error detail) e = cc
    go not_utf8 e = cc

-- The three refusals of a contract
abbrev pub IsRefusal : ExitCode → Type 0
IsRefusal ExitCode.contract_unreadable = Unit
IsRefusal ExitCode.contract_invalid_yaml = Unit
IsRefusal ExitCode.contract_missing_field = Unit
IsRefusal _ = ⊥

refused_code : Loaded → ExitCode
refused_code (refused code m) = code
refused_code _ = ExitCode.contract_unreadable

read-IsRefusal :
    (files : Files) (path : Text) (r : Reading) → IsRefusal (refused_code (read files path r))
unfolding read refused_code
read-IsRefusal files path (content text) = parsed (files.safe_load text)
  where
    settled : (d : Value.Fields) (o : Option (List Text)) → IsRefusal (refused_code (settle d o))
    settled d none = tt
    settled d (some []) = tt
    settled d (some (p ∷ ps)) = tt

    validated : (v : Value) → IsRefusal (refused_code (validate path v))
    validated (dict d) = settled d (field_problems d)
    validated _ = tt

    parsed : (p : Decoded) → IsRefusal (refused_code (parse path p))
    parsed (document v) = validated v
    parsed (decode_error detail) = tt
    parsed other_error = tt
read-IsRefusal files path (os_error detail) = tt
read-IsRefusal files path not_utf8 = tt

pub load_contract-IsRefusal :
    (files : Files) (path : Text) (code : ExitCode) (m : Text)
    → load_contract files path ≡ refused code m
    → IsRefusal code
unfolding load_contract refused_code
load_contract-IsRefusal files path code m h =
    subst (λ l. IsRefusal (refused_code l)) h (read-IsRefusal files path (files.read_text path))
