-- ===== src/Contract/Fields.antt =====
-- The `Contract` dataclass and `_field_problems` of src/satyrn_engine/contract.py.
pub mod Valid
use satyrn_engine.Prelude.{
  ℕ, zero, suc, ◌+◌, ◌*◌, ◌/◌, ◌%◌, ◌^◌, Bool, true, false, not, ◌&&◌, ◌||◌, Option, none, some,
  String, List, [], ◌∷◌, ◌++◌, ltb, leb, ◌==◌, if◌then◌else◌,
}
use satyrn_engine.Prelude.Int.{ℤ, pos, negsuc, is_positive}
use satyrn_engine.Prelude.Text.{Text, txt, is_blank}
use satyrn_engine.Prelude.Value.{
  Value, Items, null, boolean, int, float, str, list, dict, other, nil, cons, Float, finite,
  infinite, neg_infinite, nan, get, all_str, strings,
}
use satyrn_engine.Prelude.Value

-- Seconds are a finite positive double, in units of 2 ^ -1074.
pub record Contract : Type 0 where
  pub id : Text
  pub task : Text
  pub writable_paths : List Text
  pub test_command : List Text
  pub turn_budget : Option ℕ
  pub deadline_seconds : Option ℕ
  pub preserve : List Text
  pub checks : List Text
  pub token_budget : Option ℕ

-- `isinstance(path, str) and path.strip()`
abbrev pub nonblank : Text → Bool
nonblank t = not (is_blank t)

abbrev one : Bool → String → List Text
one true message = []
one false message = txt message ∷ []

-- A required field: `missing` and `malformed` are its two messages.
required_problems : String → String → Option Value → List Text
required_problems missing malformed none = txt missing ∷ []
required_problems missing malformed (some null) = txt missing ∷ []
required_problems missing malformed (some (str t)) = one (nonblank t) malformed
required_problems missing malformed (some _) = txt malformed ∷ []

-- `writable_paths`, `preserve`, `checks`
paths_problems : String → String → Option Value → List Text
paths_problems blank not_list none = []
paths_problems blank not_list (some (list items)) = one (all_str nonblank items) blank
paths_problems blank not_list (some _) = txt not_list ∷ []

abbrev is_cons : Items → Bool
is_cons nil = false
is_cons (cons _ _) = true

command_problems : Option Value → List Text
command_problems none = []
command_problems (some (list items)) =
    one (is_cons items && all_str nonblank items)
      "optional field 'test_command' must be a non-empty list of non-empty strings"
command_problems (some _) = txt "optional field 'test_command' must be a list" ∷ []

-- `turn_budget`, `token_budget`; a `bool` is an `int` to Python, and is excluded by name.
limit_problems : String → Option Value → List Text
limit_problems message none = []
limit_problems message (some (int n)) = one (is_positive n) message
limit_problems message (some _) = txt message ∷ []

-- How many bits `n` has above 53.
excess_bits : ℕ → ℕ → ℕ
excess_bits zero n = zero
excess_bits (suc k) n =
    let rest = suc (excess_bits k (n / 2)) in if ltb n (2 ^ 53) then zero else rest

-- A natural number rounded to a double, half to even.
round_at : ℕ → ℕ → ℕ
round_at n e =
    let q = n / 2 ^ e in
    let r = 2 * (n % 2 ^ e) in
    if ltb (2 ^ e) r || r == 2 ^ e && q % 2 == 1 then (q + 1) * 2 ^ e else q * 2 ^ e

-- `float(n)` for an int: `none` is an `OverflowError`, which `math.isfinite(n)` raises too.
unfoldable pub float_of_int : ℕ → Option ℕ
unfolding excess_bits round_at
float_of_int n =
    let rounded = round_at n (excess_bits 1024 n) in
    if ltb rounded (2 ^ 1024) then some (rounded * 2 ^ 1074) else none

-- `none` where `math.isfinite` raises.
deadline_problems : Option Value → Option (List Text)
deadline_problems none = some []
deadline_problems (some (int (pos n))) =
    if ltb 0 n
    then elim (float_of_int n) [ none ↦ none | some _ ↦ some [] ]
    else some (txt "optional field 'deadline_seconds' must be a positive finite number" ∷ [])
deadline_problems (some (float (finite n))) =
    some (one (is_positive n) "optional field 'deadline_seconds' must be a positive finite number")
deadline_problems (some _) =
    some (txt "optional field 'deadline_seconds' must be a positive finite number" ∷ [])

early_problems : Value.Fields → List Text
unfolding required_problems paths_problems command_problems limit_problems
early_problems data' =
    required_problems "missing required field 'id'" "required field 'id' must be a non-empty string"
      (get data' (txt "id"))
    ++ (required_problems "missing required field 'task'"
          "required field 'task' must be a non-empty string" (get data' (txt "task"))
        ++ (paths_problems "optional field 'writable_paths' must contain only non-empty strings"
              "optional field 'writable_paths' must be a list" (get data' (txt "writable_paths"))
            ++ (command_problems (get data' (txt "test_command"))
                ++ (paths_problems "optional field 'preserve' must contain only non-empty strings"
                      "optional field 'preserve' must be a list" (get data' (txt "preserve"))
                    ++ (paths_problems "optional field 'checks' must contain only non-empty strings"
                          "optional field 'checks' must be a list" (get data' (txt "checks"))
                        ++ (limit_problems "optional field 'turn_budget' must be a positive integer"
                              (get data' (txt "turn_budget"))
                            ++ limit_problems
                                "optional field 'token_budget' must be a positive integer"
                                (get data' (txt "token_budget"))))))))

-- `none` is an exception that escapes the function.
with_late : List Text → Option (List Text) → Option (List Text)
with_late early none = none
with_late early (some late) = some (early ++ late)

unfoldable pub field_problems : Value.Fields → Option (List Text)
unfolding early_problems deadline_problems with_late
field_problems data' =
    with_late (early_problems data') (deadline_problems (get data' (txt "deadline_seconds")))

-- The reads of `load_contract`, at values that passed.
unfoldable pub text_of : Option Value → Text
text_of (some (str t)) = t
text_of _ = []

unfoldable pub texts_of : Option Value → List Text
texts_of (some (list items)) = strings items
texts_of _ = []

unfoldable pub limit_of : Option Value → Option ℕ
limit_of (some (int (pos n))) = some n
limit_of _ = none

-- `None if raw_deadline is None else float(raw_deadline)`
unfoldable pub seconds_of : Option Value → Option ℕ
seconds_of (some (int (pos n))) = float_of_int n
seconds_of (some (float (finite (pos n)))) = some n
seconds_of _ = none

-- The fields of a mapping in which `_field_problems` found nothing.
unfoldable pub build : Value.Fields → Contract
build data' = record {
  id = text_of (get data' (txt "id"));
  task = text_of (get data' (txt "task"));
  writable_paths = texts_of (get data' (txt "writable_paths"));
  test_command = texts_of (get data' (txt "test_command"));
  preserve = texts_of (get data' (txt "preserve"));
  checks = texts_of (get data' (txt "checks"));
  turn_budget = limit_of (get data' (txt "turn_budget"));
  token_budget = limit_of (get data' (txt "token_budget"));
  deadline_seconds = seconds_of (get data' (txt "deadline_seconds"));
}
