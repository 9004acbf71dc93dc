-- ===== src/Protocol/Request/RoundTrip.antt =====
-- A replacement request written out as a payload, and read back.
use satyrn_engine.Prelude.{
  ℕ, suc, ◌≡◌, refl, inl, Bool, true, false, Option, none, some, List, [], ◌∷◌, is_empty,
}
use satyrn_engine.Prelude.Text.{Text, Bytes, txt, encodable}
use satyrn_engine.Prelude.Int.{pos}
use satyrn_engine.Prelude.Value.{
  Value, Items, null, boolean, int, float, str, list, dict, other, nil, cons, Decoded, document,
  decode_error, other_error, get, end, field, odd_field, type_name,
}
use satyrn_engine.Protocol.Request.WellFormed.{IsWellFormed, ArePairs, IsString, IsRevision}
use satyrn_engine.Mutation.Path.Safe.{IsSafe, normalize_iff}
use satyrn_engine.Protocol.Request.{
  Reader, parsed, replace_request, ReplaceRequest, parse_request, required_string,
  required_revision, normal_path, required_edit_pair, edit_pairs, edits_of, parse_replacements,
  parse_replace, select, parse_operation, operation_of, parse_payload, parse_document, parse_text,
}
use satyrn_engine.Prelude.Value

abbrev edit_items : List (Text × Text) → Items
edit_items [] = nil
edit_items ((old_text, new_text) ∷ rest) =
    cons (dict (field (txt "old_text") (str old_text) (field (txt "new_text") (str new_text) end)))
      (edit_items rest)

abbrev revision_value : Option Text → Value
revision_value none = null
revision_value (some t) = str t

unfoldable pub payload_of : ReplaceRequest → Value.Fields
payload_of r = field (txt "version") (int (pos 1)) (
    field (txt "operation") (str (txt "replace")) (
      field (txt "repo") (str r.repo) (
        field (txt "contract") (str r.contract) (
          field (txt "path") (str r.path) (
            field (txt "expected_sha256") (revision_value r.expected_sha256)
              (field (txt "edits") (list (edit_items r.replacements)) end))))))

required_string-str :
    (payload : Value.Fields) (name : Text) (allow_empty : Bool) (t : Text)
    → get payload name ≡ some (str t)
    → IsString allow_empty t
    → required_string payload name allow_empty ≡ parsed t
unfolding required_string
required_string-str payload name allow_empty t h (e, d) = rw (required_string, h, e, d) refl

required_revision-value :
    (payload : Value.Fields) (r : Option Text)
    → get payload (txt "expected_sha256") ≡ some (revision_value r)
    → IsRevision r
    → required_revision payload ≡ parsed r
unfolding required_revision
required_revision-value payload none h i = rw (required_revision, h) refl
required_revision-value payload (some t) h i = rw (required_revision, h, i) refl

normal_path-parsed : (path : Text) → IsSafe path → normal_path path ≡ parsed path
unfolding normal_path
normal_path-parsed path s = rw (normal_path, (normalize_iff path path).1 (s, refl)) refl

module _ (reader : Reader) where
  pair-parsed :
      (old_text new_text : Text) (index : ℕ)
      → IsString false old_text
      → encodable new_text ≡ true
      → required_edit_pair reader
          (dict (field (txt "old_text") (str old_text) (field (txt "new_text") (str new_text) end)))
          index
        ≡ parsed (old_text, new_text)
  unfolding required_edit_pair get txt
  pair-parsed old_text new_text index o n =
      let payload =
        field (txt "old_text") (str old_text) (field (txt "new_text") (str new_text) end) in
      rw
        (
          required_string-str payload (txt "old_text") false old_text refl o,
          required_string-str payload (txt "new_text") true new_text refl (refl, n),
        )
        refl

  edit_pairs-parsed :
      (pairs : List (Text × Text)) (index : ℕ)
      → ArePairs pairs
      → edit_pairs reader (edit_items pairs) index ≡ parsed pairs
  unfolding edit_pairs
  edit_pairs-parsed [] index a = refl
  edit_pairs-parsed ((old_text, new_text) ∷ rest) index ((o, e, n), b) =
      rw (pair-parsed old_text new_text index (o, e) n, edit_pairs-parsed rest (suc index) b) refl

  edits_of-parsed :
      (pairs : List (Text × Text))
      → is_empty pairs ≡ false
      → ArePairs pairs
      → edits_of reader (some (list (edit_items pairs))) ≡ parsed pairs
  unfolding edits_of
  edits_of-parsed [] e a = cc
  edits_of-parsed (p ∷ pairs) e a = edit_pairs-parsed (p ∷ pairs) 0 a

  parse_replacements-payload_of :
      (r : ReplaceRequest)
      → IsWellFormed reader r
      → parse_replacements reader (payload_of r) ≡ parsed r.replacements
  unfolding parse_replacements payload_of get txt
  parse_replacements-payload_of r w = edits_of-parsed r.replacements w.some_replacement w.pairs

  parse_replace-payload_of :
      (r : ReplaceRequest)
      → IsWellFormed reader r
      → is_empty r.path ≡ false
      → parse_replace reader (payload_of r) r.repo r.contract ≡ parsed (replace_request r)
  unfolding parse_replace payload_of get txt
  parse_replace-payload_of r w p =
      rw
        (
          w.absolute_repo,
          w.absolute_contract,
          required_string-str (payload_of r) (txt "path") false r.path refl (p, w.encodable_path),
          normal_path-parsed r.path w.safe_path,
          parse_replacements-payload_of r w,
          required_revision-value (payload_of r) r.expected_sha256 refl w.revision,
        )
        refl

  parse_payload-payload_of :
      (r : ReplaceRequest)
      → IsWellFormed reader r
      → IsString false r.repo
      → IsString false r.contract
      → is_empty r.path ≡ false
      → reader.as_path r.repo ≡ r.repo
      → reader.as_path r.contract ≡ r.contract
      → parse_payload reader (dict (payload_of r)) ≡ parsed (replace_request r)
  unfolding parse_payload operation_of parse_operation select payload_of get txt
  parse_payload-payload_of r w a b p c d =
      rw
        (
          required_string-str (payload_of r) (txt "repo") false r.repo refl a,
          required_string-str (payload_of r) (txt "contract") false r.contract refl b,
          c,
          d,
        )
        (parse_replace-payload_of r w p)

  -- A well-formed replacement request that is written out as a payload, with its replacements as edits, is
  -- read back as it is, where the decoder and `json.loads` give that payload and the texts of its two paths
  -- are the ones that `Path` keeps.
  pub parse_request-payload_of :
      (data' : Bytes) (text : Text) (r : ReplaceRequest)
      → reader.decode_utf8 data' ≡ inl text
      → reader.json_loads text ≡ document (dict (payload_of r))
      → IsWellFormed reader r
      → IsString false r.repo
      → IsString false r.contract
      → is_empty r.path ≡ false
      → reader.as_path r.repo ≡ r.repo
      → reader.as_path r.contract ≡ r.contract
      → parse_request reader data' ≡ parsed (replace_request r)
  unfolding parse_request parse_text parse_document
  parse_request-payload_of data' text r h j w a b p c d =
      rw (h, j) (parse_payload-payload_of r w a b p c d)
