-- ===== src/Protocol/Request.antt =====
-- The requests of src/satyrn_engine/protocol.py and `parse_request`.
pub mod WellFormed
pub mod RoundTrip
use satyrn_engine.Prelude.{
  ℕ, suc, ◌⊎◌, inl, inr, Bool, true, false, not, ◌&&◌, ◌||◌, Option, none, some, is_some, List, [],
  ◌∷◌, ◌++◌, leb, ◌==◌, if◌then◌else◌, length, is_empty, all_of,
}
use satyrn_engine.Prelude.Text.{Text, Bytes, txt, eq_text, contains, encodable}
use satyrn_engine.Prelude.Int.{pos}
use satyrn_engine.Prelude.Value.{
  Value, Items, null, boolean, int, float, str, list, dict, other, nil, cons, Decoded, document,
  decode_error, other_error, get, end, field, odd_field, type_name,
}
use satyrn_engine.Mutation.Path.{normalize_relative_path}
use satyrn_engine.Prelude.Value

pub record ReplaceRequest : Type 0 where
  pub repo : Text
  pub contract : Text
  pub path : Text
  pub expected_sha256 : Option Text
  pub replacements : List (Text × Text)

pub record RunTestsRequest : Type 0 where
  pub repo : Text
  pub contract : Text
  pub command : Option Text
  pub base_commit : Option Text

pub data ProtocolRequest : Type 0 where
  check_request : Text → Text → ProtocolRequest
  replace_request : ReplaceRequest → ProtocolRequest
  run_tests_request : RunTestsRequest → ProtocolRequest

-- An end of the parser: a result, a `ProtocolError` with its message, or an exception of another class.
pub data Parsed (A : Type 0) : Type 0 where
  parsed : A → Parsed A
  protocol_error : Text → Parsed A
  crashed : Parsed A

module _ {A B : Type 0} where
  infixl 5 ◌>>=◌
  abbrev pub ◌>>=◌ : Parsed A → (A → Parsed B) → Parsed B
  ◌>>=◌ (parsed a) f = f a
  ◌>>=◌ (protocol_error m) f = protocol_error m
  ◌>>=◌ crashed f = crashed

-- What the parser calls outside the repository: the UTF-8 decoder, `json.loads`, `str(Path(text))`, its
-- `is_absolute` and `repr`.
pub record Reader : Type 0 where
  pub decode_utf8 : Bytes → Text ⊎ Text
  pub json_loads : Text → Decoded
  pub as_path : Text → Text
  pub is_absolute : Text → Bool
  pub show_value : Option Value → Text
  pub show : ℕ → Text

abbrev is_hexadecimal : ℕ → Bool
is_hexadecimal c = leb 48 c && leb c 57 || leb 97 c && leb c 102

-- `re.compile(r"[0-9a-f]{n}").fullmatch(text)`
unfoldable pub is_digest : ℕ → Text → Bool
is_digest n text = length text == n && all_of is_hexadecimal text

quoted : Text → Text
quoted name = txt "'" ++ (name ++ txt "'")

wrong_string : Text → Bool → Text
unfolding quoted
wrong_string name allow_empty =
    txt "request field "
    ++ (quoted name
        ++ (if allow_empty then txt " must be a string" else txt " must be a non-empty string"))

-- `_required_string`
required_string : Value.Fields → Text → Bool → Parsed Text
unfolding quoted wrong_string
required_string payload name allow_empty = elim (get payload name) [
  | some (str value) ↦
      if not allow_empty && is_empty value
      then protocol_error (wrong_string name allow_empty)
      else if encodable value
      then parsed value
      else protocol_error
          (txt "request field " ++ (quoted name ++ txt " must contain only UTF-8 scalar values"))
  | _ ↦ protocol_error (wrong_string name allow_empty)
]

-- `_required_revision`
required_revision : Value.Fields → Parsed (Option Text)
unfolding is_digest
required_revision payload = elim (get payload (txt "expected_sha256")) [
  | none ↦ protocol_error (txt "request field 'expected_sha256' is required")
  | some null ↦ parsed none
  | some (str value) ↦
      if is_digest 64 value
      then parsed (some value)
      else protocol_error (
          txt "request field 'expected_sha256' must be null or 64 lowercase hexadecimal characters")
  | some _ ↦
      protocol_error
        (txt "request field 'expected_sha256' must be null or 64 lowercase hexadecimal characters")
]

-- `command = payload.get("command")`, and a test that it is a string where it is not `None`
optional_command : Value.Fields → Parsed (Option Text)
unfolding required_string
optional_command payload = elim (get payload (txt "command")) [
  | none ↦ parsed none
  | some null ↦ parsed none
  | some _ ↦ do value ← required_string payload (txt "command") false; parsed (some value)
]

wrong_base : Text
wrong_base = txt "request field 'base_commit' must be null or 40 lowercase hexadecimal characters"

optional_base : Value.Fields → Parsed (Option Text)
unfolding is_digest wrong_base
optional_base payload = elim (get payload (txt "base_commit")) [
  | none ↦ parsed none
  | some null ↦ parsed none
  | some (str value) ↦ if is_digest 40 value then parsed (some value) else protocol_error wrong_base
  | some _ ↦ protocol_error wrong_base
]

normal_path : Text → Parsed Text
normal_path path = elim (normalize_relative_path path) [
  | inl p ↦ parsed p
  | inr e ↦ protocol_error (txt "invalid replacement path: " ++ e)
]

module _ (reader : Reader) where
  -- `_required_edit_pair`
  required_edit_pair : Value → ℕ → Parsed (Text × Text)
  unfolding required_string
  required_edit_pair (dict payload) index = do
    old_text ← required_string payload (txt "old_text") false
    new_text ← required_string payload (txt "new_text") true
    parsed (old_text, new_text)
  required_edit_pair _ index =
      protocol_error
        (txt "request field 'edits[" ++ (reader.show index ++ txt "]' must be a mapping"))

  edit_pairs : Items → ℕ → Parsed (List (Text × Text))
  unfolding required_edit_pair
  edit_pairs nil index = parsed []
  edit_pairs (cons item items) index = do
    pair ← required_edit_pair item index
    pairs ← edit_pairs items (suc index)
    parsed (pair ∷ pairs)

  edits_of : Option Value → Parsed (List (Text × Text))
  unfolding edit_pairs
  edits_of (some (list (cons item items))) = edit_pairs (cons item items) 0
  edits_of _ = protocol_error (txt "request field 'edits' must be a non-empty array")

  parse_replacements : Value.Fields → Parsed (List (Text × Text))
  unfolding edits_of required_string
  parse_replacements payload =
      let has_edits = is_some (get payload (txt "edits")) in
      let has_pair =
        is_some (get payload (txt "old_text")) || is_some (get payload (txt "new_text")) in
      if has_edits && has_pair
      then protocol_error
          (txt "a replace request carries either edits or one old_text/new_text pair, not both")
      else if has_edits
      then edits_of (get payload (txt "edits"))
      else (do
        old_text ← required_string payload (txt "old_text") false
        new_text ← required_string payload (txt "new_text") true
        parsed ((old_text, new_text) ∷ []))

  parse_replace : Value.Fields → Text → Text → Parsed ProtocolRequest
  unfolding required_string required_revision normal_path parse_replacements
  parse_replace payload repo contract =
      if not (reader.is_absolute repo) || not (reader.is_absolute contract)
      then protocol_error
          (txt "replace request fields 'repo' and 'contract' must be absolute paths")
      else (do
        raw ← required_string payload (txt "path") false
        path ← normal_path raw
        replacements ← parse_replacements payload
        expected_sha256 ← required_revision payload
        parsed (
            replace_request (record {
              repo = repo;
              contract = contract;
              path = path;
              expected_sha256 = expected_sha256;
              replacements = replacements;
            })))

  parse_test : Value.Fields → Text → Text → Parsed ProtocolRequest
  unfolding optional_command optional_base
  parse_test payload repo contract = do
    command ← optional_command payload
    base_commit ← optional_base payload
    parsed (
        run_tests_request (record {
          repo = repo;
          contract = contract;
          command = command;
          base_commit = base_commit;
        }))

  -- `match operation`
  select : Value.Fields → Text → Text → Text → Parsed ProtocolRequest
  unfolding parse_replace parse_test
  select payload operation repo contract =
      if eq_text operation (txt "check")
      then parsed (check_request repo contract)
      else if eq_text operation (txt "test")
      then parse_test payload repo contract
      else parse_replace payload repo contract

  parse_operation : Value.Fields → Text → Parsed ProtocolRequest
  unfolding required_string select
  parse_operation payload operation = do
    repo ← required_string payload (txt "repo") false
    contract ← required_string payload (txt "contract") false
    select payload operation (reader.as_path repo) (reader.as_path contract)

  unsupported : Option Value → Parsed ProtocolRequest
  unsupported operation = protocol_error (
      txt "unsupported operation "
      ++ (reader.show_value operation ++ txt "; expected one of ('check', 'replace', 'test')"))

  operation_of : Value.Fields → Option Value → Parsed ProtocolRequest
  unfolding parse_operation unsupported
  operation_of payload (some (str operation)) =
      if contains operation (txt "check" ∷ txt "replace" ∷ txt "test" ∷ [])
      then parse_operation payload operation
      else unsupported (some (str operation))
  operation_of payload operation = unsupported operation

  -- `type(version) is int and version == PROTOCOL_VERSION`
  abbrev is_version : Option Value → Bool
  is_version (some (int (pos n))) = n == 1
  is_version _ = false

  parse_payload : Value → Parsed ProtocolRequest
  unfolding operation_of
  parse_payload (dict payload) =
      if is_version (get payload (txt "version"))
      then operation_of payload (get payload (txt "operation"))
      else protocol_error (
          txt "unsupported protocol version "
          ++ (reader.show_value (get payload (txt "version")) ++ txt "; expected 1"))
  parse_payload value =
      protocol_error (txt "request top level must be a mapping, not " ++ type_name value)

  parse_document : Decoded → Parsed ProtocolRequest
  unfolding parse_payload
  parse_document (document value) = parse_payload value
  parse_document (decode_error e) = protocol_error (txt "request is not valid JSON: " ++ e)
  parse_document other_error = crashed

  parse_text : Text ⊎ Text → Parsed ProtocolRequest
  unfolding parse_document
  parse_text (inl text) = parse_document (reader.json_loads text)
  parse_text (inr e) = protocol_error (txt "request is not valid UTF-8: " ++ e)

  -- `parse_request`, of bytes
  unfoldable pub parse_request : Bytes → Parsed ProtocolRequest
  unfolding parse_text
  parse_request data' = parse_text (reader.decode_utf8 data')
