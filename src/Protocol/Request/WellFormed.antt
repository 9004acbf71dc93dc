-- ===== src/Protocol/Request/WellFormed.antt =====
-- The replacement requests that `parse_request` returns.
use satyrn_engine.Prelude.{
  ℕ, suc, ◌≡◌, refl, sym, subst, ◌⊎◌, inl, inr, Bool, true, false, not, ◌&&◌, ◌||◌, Option, none,
  some, is_some, List, [], ◌∷◌, Bool-cases, is_empty,
}
use satyrn_engine.Prelude.Text.{Text, Bytes, txt, eq_text, contains, encodable}
use satyrn_engine.Prelude.Value.{
  Value, Items, null, boolean, int, float, str, list, dict, other, nil, cons, Decoded, document,
  decode_error, other_error, get, end, field, odd_field, type_name,
}
use satyrn_engine.Protocol.Request.{
  is_version, optional_command, optional_base, Reader, Parsed, parsed, protocol_error, crashed,
  ProtocolRequest, check_request, replace_request, run_tests_request, ReplaceRequest, parse_request,
  is_digest, required_string, required_revision, normal_path, required_edit_pair, edit_pairs,
  edits_of, parse_replacements, parse_replace, parse_test, select, parse_operation, operation_of,
  parse_payload, parse_document, parse_text, unsupported, ◌>>=◌,
}
use satyrn_engine.Mutation.Path.{normalize_relative_path}
use satyrn_engine.Mutation.Path.Safe.{IsSafe, normalize_iff}
use satyrn_engine.Prelude.Value

abbrev pub ArePairs : List (Text × Text) → Type 0
ArePairs [] = Unit {0}
ArePairs ((old_text, new_text) ∷ rest) =
    ((is_empty old_text ≡ false) × (encodable old_text ≡ true) × (encodable new_text ≡ true))
    × ArePairs rest

abbrev pub IsRevision : Option Text → Type 0
IsRevision none = Unit {0}
IsRevision (some t) = is_digest 64 t ≡ true

pub record IsWellFormed (reader : Reader) (r : ReplaceRequest) : Type 0 where
  pub absolute_repo : reader.is_absolute r.repo ≡ true
  pub absolute_contract : reader.is_absolute r.contract ≡ true
  pub safe_path : IsSafe r.path
  pub encodable_path : encodable r.path ≡ true
  pub revision : IsRevision r.expected_sha256
  pub some_replacement : is_empty r.replacements ≡ false
  pub pairs : ArePairs r.replacements

-- What holds of a result, if there is one
abbrev Holds : {A : Type 0} → (A → Type 0) → Parsed A → Type 0
Holds P (parsed a) = P a
Holds P (protocol_error m) = Unit {0}
Holds P crashed = Unit {0}

Holds-bind :
    {A B : Type 0} (Q : A → Type 0) (P : B → Type 0) (m : Parsed A) (f : A → Parsed B)
    → Holds Q m
    → ((a : A) → Q a → Holds P (f a))
    → Holds P (m >>= f)
Holds-bind Q P (parsed a) f q h = h a q
Holds-bind Q P (protocol_error m) f q h = tt
Holds-bind Q P crashed f q h = tt

abbrev pub IsString : Bool → Text → Type 0
IsString allow_empty t = ((not allow_empty && is_empty t) ≡ false) × (encodable t ≡ true)

module _ (payload : Value.Fields) where
  required_string-IsString :
      (name : Text) (allow_empty : Bool) (v : Option Value)
      → get payload name ≡ v
      → Holds (IsString allow_empty) (required_string payload name allow_empty)
  unfolding required_string
  required_string-IsString name allow_empty (some (str t)) h =
      elim (Bool-cases (not allow_empty && is_empty t)) [
        | inl e ↦ rw (h, Holds, e) tt
        | inr e ↦ elim (Bool-cases (encodable t)) [
          | inl d ↦ rw (h, Holds, e, d) (e, d)
          | inr d ↦ rw (h, Holds, e, d) tt
        ]
      ]
  required_string-IsString name allow_empty none h = rw (h, Holds) tt
  required_string-IsString name allow_empty (some null) h = rw (h, Holds) tt
  required_string-IsString name allow_empty (some (boolean b)) h = rw (h, Holds) tt
  required_string-IsString name allow_empty (some (int n)) h = rw (h, Holds) tt
  required_string-IsString name allow_empty (some (float n)) h = rw (h, Holds) tt
  required_string-IsString name allow_empty (some (list n)) h = rw (h, Holds) tt
  required_string-IsString name allow_empty (some (dict n)) h = rw (h, Holds) tt
  required_string-IsString name allow_empty (some (other n)) h = rw (h, Holds) tt

  required_revision-IsRevision :
      (v : Option Value)
      → get payload (txt "expected_sha256") ≡ v
      → Holds IsRevision (required_revision payload)
  unfolding required_revision
  required_revision-IsRevision (some (str t)) h = elim (Bool-cases (is_digest 64 t)) [
    | inl d ↦ rw (h, Holds, d) d
    | inr d ↦ rw (h, Holds, d) tt
  ]
  required_revision-IsRevision none h = rw (h, Holds) tt
  required_revision-IsRevision (some null) h = rw (h, Holds) tt
  required_revision-IsRevision (some (boolean b)) h = rw (h, Holds) tt
  required_revision-IsRevision (some (int n)) h = rw (h, Holds) tt
  required_revision-IsRevision (some (float n)) h = rw (h, Holds) tt
  required_revision-IsRevision (some (list n)) h = rw (h, Holds) tt
  required_revision-IsRevision (some (dict n)) h = rw (h, Holds) tt
  required_revision-IsRevision (some (other n)) h = rw (h, Holds) tt

normal_path-IsSafe :
    (path : Text) (r : Text ⊎ Text)
    → normalize_relative_path path ≡ r
    → encodable path ≡ true
    → Holds (λ p. IsSafe p × (encodable p ≡ true)) (normal_path path)
unfolding normal_path
normal_path-IsSafe path (inr e) h d = rw (h, Holds) tt
normal_path-IsSafe path (inl p) h d =
    let (safe, same) = (normalize_iff path p).0 h in
    rw (h, Holds) (subst (λ q. IsSafe q × (encodable q ≡ true)) (sym same) (safe, d))

abbrev AreEdits : List (Text × Text) → Type 0
AreEdits pairs = (is_empty pairs ≡ false) × ArePairs pairs

pair_of-ArePairs :
    (payload : Value.Fields)
    → Holds
        (λ p. ArePairs (p ∷ []))
        (do
          old_text ← required_string payload (txt "old_text") false
          new_text ← required_string payload (txt "new_text") true
          parsed (old_text, new_text))
pair_of-ArePairs payload =
    Holds-bind (IsString false) _ _ _
      (required_string-IsString payload (txt "old_text") false _ refl)
      (λ old_text o.
        Holds-bind (IsString true) _ _ _
          (required_string-IsString payload (txt "new_text") true _ refl)
          (λ new_text n. ((o.0, o.1, n.1), tt)))

Holds-any : {A : Type 0} (m : Parsed A) → Holds (λ _. Unit {0}) m
Holds-any (parsed a) = tt
Holds-any (protocol_error m) = tt
Holds-any crashed = tt

module _ (reader : Reader) where
  required_edit_pair-ArePairs :
      (v : Value) (index : ℕ) → Holds (λ p. ArePairs (p ∷ [])) (required_edit_pair reader v index)
  unfolding required_edit_pair
  required_edit_pair-ArePairs (dict payload) index = pair_of-ArePairs payload
  required_edit_pair-ArePairs null index = tt
  required_edit_pair-ArePairs (boolean b) index = tt
  required_edit_pair-ArePairs (int n) index = tt
  required_edit_pair-ArePairs (float n) index = tt
  required_edit_pair-ArePairs (str n) index = tt
  required_edit_pair-ArePairs (list n) index = tt
  required_edit_pair-ArePairs (other n) index = tt

  edit_pairs-ArePairs : (items : Items) (index : ℕ) → Holds ArePairs (edit_pairs reader items index)
  unfolding edit_pairs
  edit_pairs-ArePairs nil index = tt
  edit_pairs-ArePairs (cons item items) index =
      Holds-bind (λ p. ArePairs (p ∷ [])) _ _ _ (required_edit_pair-ArePairs item index)
        (λ pair a.
          Holds-bind ArePairs _ _ _ (edit_pairs-ArePairs items (suc index)) (λ pairs b. (a.0, b)))

  edit_pairs-AreEdits :
      (item : Value) (items : Items) (index : ℕ)
      → Holds AreEdits (edit_pairs reader (cons item items) index)
  unfolding edit_pairs
  edit_pairs-AreEdits item items index =
      Holds-bind (λ p. ArePairs (p ∷ [])) _ _ _ (required_edit_pair-ArePairs item index)
        (λ pair a.
          Holds-bind ArePairs _ _ _ (edit_pairs-ArePairs items (suc index))
            (λ pairs b. (refl, (a.0, b))))

  edits_of-AreEdits : (v : Option Value) → Holds AreEdits (edits_of reader v)
  unfolding edits_of
  edits_of-AreEdits (some (list (cons item items))) = edit_pairs-AreEdits item items 0
  edits_of-AreEdits (some (list nil)) = tt
  edits_of-AreEdits none = tt
  edits_of-AreEdits (some null) = tt
  edits_of-AreEdits (some (boolean b)) = tt
  edits_of-AreEdits (some (int n)) = tt
  edits_of-AreEdits (some (float n)) = tt
  edits_of-AreEdits (some (str n)) = tt
  edits_of-AreEdits (some (dict n)) = tt
  edits_of-AreEdits (some (other n)) = tt

  parse_replacements-AreEdits :
      (payload : Value.Fields) → Holds AreEdits (parse_replacements reader payload)
  unfolding parse_replacements
  parse_replacements-AreEdits payload = elim (Bool-cases (is_some (get payload (txt "edits")))) [
    | inl e ↦
        elim (Bool-cases
          (is_some (get payload (txt "old_text")) || is_some (get payload (txt "new_text")))) [
            | inl b ↦ rw (e, b, Holds) tt
            | inr b ↦ rw (e, b, Holds) (edits_of-AreEdits (get payload (txt "edits")))
          ]
    | inr e ↦
        rw (e, Holds)
          (Holds-bind (IsString false) AreEdits _ _
            (required_string-IsString payload (txt "old_text") false _ refl)
            (λ old_text o.
              Holds-bind (IsString true) AreEdits _ _
                (required_string-IsString payload (txt "new_text") true _ refl)
                (λ new_text n. (refl, ((o.0, o.1, n.1), tt)))))
  ]

  -- Of a request that replaces: that it is well formed
  abbrev pub WhereReplaces : ProtocolRequest → Type 0
  WhereReplaces (check_request repo contract) = Unit {0}
  WhereReplaces (replace_request r) = IsWellFormed reader r
  WhereReplaces (run_tests_request r) = Unit {0}

  parse_replace-WhereReplaces :
      (payload : Value.Fields) (repo contract : Text)
      → Holds WhereReplaces (parse_replace reader payload repo contract)
  unfolding parse_replace
  parse_replace-WhereReplaces payload repo contract = elim (Bool-cases (reader.is_absolute repo)) [
    | inr a ↦ rw (a, Holds) tt
    | inl a ↦ elim (Bool-cases (reader.is_absolute contract)) [
      | inr b ↦ rw (a, b, Holds) tt
      | inl b ↦
          rw (a, b, Holds)
            (Holds-bind (IsString false) WhereReplaces _ _
              (required_string-IsString payload (txt "path") false _ refl)
              (λ raw s.
                Holds-bind (λ p. IsSafe p × (encodable p ≡ true)) WhereReplaces _ _
                  (normal_path-IsSafe raw _ refl s.1)
                  (λ path p.
                    Holds-bind AreEdits WhereReplaces _ _ (parse_replacements-AreEdits payload)
                      (λ replacements e.
                        Holds-bind IsRevision WhereReplaces _ _
                          (required_revision-IsRevision payload _ refl)
                          (λ revision r. record {
                            absolute_repo = a;
                            absolute_contract = b;
                            safe_path = p.0;
                            encodable_path = p.1;
                            revision = r;
                            some_replacement = e.0;
                            pairs = e.1;
                          })))))
    ]
  ]

  parse_test-WhereReplaces :
      (payload : Value.Fields) (repo contract : Text)
      → Holds WhereReplaces (parse_test reader payload repo contract)
  unfolding parse_test
  parse_test-WhereReplaces payload repo contract =
      Holds-bind (λ _. Unit {0}) WhereReplaces _ _ (Holds-any (optional_command payload))
        (λ command u.
          Holds-bind (λ _. Unit {0}) WhereReplaces _ _ (Holds-any (optional_base payload))
            (λ base_commit u'. tt))

  select-WhereReplaces :
      (payload : Value.Fields) (operation repo contract : Text)
      → Holds WhereReplaces (select reader payload operation repo contract)
  unfolding select
  select-WhereReplaces payload operation repo contract =
      elim (Bool-cases (eq_text operation (txt "check"))) [
        | inl c ↦ rw (c, Holds) tt
        | inr c ↦ elim (Bool-cases (eq_text operation (txt "test"))) [
          | inl d ↦ rw (c, d) (parse_test-WhereReplaces payload repo contract)
          | inr d ↦ rw (c, d) (parse_replace-WhereReplaces payload repo contract)
        ]
      ]

  operation_of-WhereReplaces :
      (payload : Value.Fields) (v : Option Value)
      → Holds WhereReplaces (operation_of reader payload v)
  unfolding operation_of parse_operation unsupported
  operation_of-WhereReplaces payload (some (str operation)) =
      elim (Bool-cases (contains operation (txt "check" ∷ txt "replace" ∷ txt "test" ∷ []))) [
        | inr c ↦ rw (c, Holds) tt
        | inl c ↦
            rw (c, Holds)
              (Holds-bind (λ _. Unit {0}) WhereReplaces _ _
                (Holds-any (required_string payload (txt "repo") false))
                (λ repo u.
                  Holds-bind (λ _. Unit {0}) WhereReplaces _ _
                    (Holds-any (required_string payload (txt "contract") false))
                    (λ contract u'. select-WhereReplaces payload operation _ _)))
      ]
  operation_of-WhereReplaces payload none = tt
  operation_of-WhereReplaces payload (some null) = tt
  operation_of-WhereReplaces payload (some (boolean b)) = tt
  operation_of-WhereReplaces payload (some (int n)) = tt
  operation_of-WhereReplaces payload (some (float n)) = tt
  operation_of-WhereReplaces payload (some (list n)) = tt
  operation_of-WhereReplaces payload (some (dict n)) = tt
  operation_of-WhereReplaces payload (some (other n)) = tt

  parse_payload-WhereReplaces : (v : Value) → Holds WhereReplaces (parse_payload reader v)
  unfolding parse_payload
  parse_payload-WhereReplaces (dict payload) =
      elim (Bool-cases (is_version reader (get payload (txt "version")))) [
        | inl v ↦ rw (v, Holds) (operation_of-WhereReplaces payload _)
        | inr v ↦ rw (v, Holds) tt
      ]
  parse_payload-WhereReplaces null = tt
  parse_payload-WhereReplaces (boolean b) = tt
  parse_payload-WhereReplaces (int n) = tt
  parse_payload-WhereReplaces (float n) = tt
  parse_payload-WhereReplaces (str n) = tt
  parse_payload-WhereReplaces (list n) = tt
  parse_payload-WhereReplaces (other n) = tt

  parse_document-WhereReplaces : (d : Decoded) → Holds WhereReplaces (parse_document reader d)
  unfolding parse_document
  parse_document-WhereReplaces (document v) = parse_payload-WhereReplaces v
  parse_document-WhereReplaces (decode_error e) = tt
  parse_document-WhereReplaces other_error = tt

  parse_text-WhereReplaces : (r : Text ⊎ Text) → Holds WhereReplaces (parse_text reader r)
  unfolding parse_text
  parse_text-WhereReplaces (inr e) = tt
  parse_text-WhereReplaces (inl text) = parse_document-WhereReplaces (reader.json_loads text)

  -- A replacement request that `parse_request` returns names absolute paths and a safe relative one, has a
  -- revision of 64 lowercase hexadecimal digits or none, and has a replacement at least, each of an old
  -- text that is not empty, and all of them text that UTF-8 encodes.
  pub parse_request-IsWellFormed :
      (data' : Bytes) (r : ReplaceRequest)
      → parse_request reader data' ≡ parsed (replace_request r)
      → IsWellFormed reader r
  unfolding parse_request
  parse_request-IsWellFormed data' r h =
      subst (Holds WhereReplaces) h (parse_text-WhereReplaces (reader.decode_utf8 data'))
