-- ===== src/Budget/Counter.antt =====
-- `TurnCounter` of src/satyrn_engine/budget.py.
use satyrn_engine.Prelude.{
  ℕ, ◌+◌, Bool, false, Option, none, some, List, [], ◌∷◌, map, if◌then◌else◌,
}
use satyrn_engine.Prelude.Int.{pos}
use satyrn_engine.Prelude.Text.{Text, txt, eq_text}
use satyrn_engine.Prelude.Value.{
  Value, null, boolean, int, float, str, list, dict, other, Decoded, document, decode_error,
  other_error, get,
}
use satyrn_engine.Prelude.Value

unfoldable pub guard_kinds : List Text
unfolding txt
guard_kinds =
    txt "loop_broken"
    ∷ txt "scope_refused"
    ∷ txt "symbol_preserved"
    ∷ txt "command_bounded"
    ∷ txt "command_timed_out"
    ∷ txt "self_test_detected"
    ∷ txt "self_test_enforced"
    ∷ txt "self_test_red_stop"
    ∷ txt "finish_nudged"
    ∷ txt "runaway_resumed"
    ∷ []

pub record TurnCounter : Type 0 where
  pub turns : ℕ
  pub tokens_in : ℕ
  pub tokens_out : ℕ
  pub tool_calls : ℕ
  pub guard_firings : List (Text × ℕ)

unfoldable pub fresh : TurnCounter
unfolding guard_kinds
fresh = record {
  turns = 0;
  tokens_in = 0;
  tokens_out = 0;
  tool_calls = 0;
  guard_firings = map (λ kind. (kind, 0)) guard_kinds;
}

-- `_count`; a `bool` is an `int` to Python, and is excluded by name.
unfoldable pub count : Option Value → ℕ
count (some (int (pos n))) = n
count _ = 0

-- `d[key] += 1` where the key is there
bump : Text → List (Text × ℕ) → List (Text × ℕ)
bump key [] = []
bump key ((k, n) ∷ rest) = if eq_text k key then (k, n + 1) ∷ rest else (k, n) ∷ bump key rest

-- `message_end`
spend_usage : Option Value → TurnCounter → TurnCounter
unfolding count
spend_usage (some (dict u)) c = record c {
  tokens_in = c.tokens_in + count (get u (txt "input"));
  tokens_out = c.tokens_out + count (get u (txt "output"));
}
spend_usage _ c = c

is_text : Option Value → Text → Bool
is_text (some (str t)) u = eq_text t u
is_text _ u = false

spend_message : Option Value → TurnCounter → TurnCounter
unfolding spend_usage is_text
spend_message (some (dict m)) c =
    if is_text (get m (txt "role")) (txt "assistant")
    then spend_usage (get m (txt "usage")) c
    else c
spend_message _ c = c

-- `kind in self.guard_firings` raises `TypeError` for a list or a dict, which have no hash.
fire : Option Value → TurnCounter → Option TurnCounter
unfolding bump
fire (some (str kind)) c = some (record c { guard_firings = bump kind c.guard_firings })
fire (some (list _)) c = none
fire (some (dict _)) c = none
fire _ c = some c

-- `entry_appended`
fire_entry : Option Value → TurnCounter → Option TurnCounter
unfolding fire is_text
fire_entry (some (dict e)) c =
    if is_text (get e (txt "type")) (txt "custom")
    then fire (get e (txt "customType")) c
    else some c
fire_entry _ c = some c

dispatch : Option Value → Value.Fields → TurnCounter → Option TurnCounter
unfolding spend_message fire_entry
dispatch (some (str kind)) event c =
    if eq_text kind (txt "turn_start")
    then some (record c { turns = c.turns + 1 })
    else if eq_text kind (txt "tool_execution_start")
    then some (record c { tool_calls = c.tool_calls + 1 })
    else if eq_text kind (txt "message_end")
    then some (spend_message (get event (txt "message")) c)
    else if eq_text kind (txt "entry_appended")
    then fire_entry (get event (txt "entry")) c
    else some c
dispatch _ event c = some c

feed_event : Decoded → TurnCounter → Option TurnCounter
unfolding dispatch
feed_event (document (dict event)) c = dispatch (get event (txt "type")) event c
feed_event (document _) c = some c
feed_event (decode_error _) c = some c
feed_event other_error c = none

-- `none` is an exception that escapes `feed`.
unfoldable pub feed : (Text → Decoded) → Text → TurnCounter → Option TurnCounter
unfolding feed_event
feed json_loads line c = feed_event (json_loads line) c
