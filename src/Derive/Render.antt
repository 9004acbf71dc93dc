-- ===== src/Derive/Render.antt =====
-- `render_contract` of src/satyrn_engine/derive.py, and `load_contract` on what it wrote. The YAML
-- library's `safe_dump` is a parameter.
use satyrn_engine.Prelude.{ℕ, Option, none, some}
use satyrn_engine.Prelude.Int.{pos}
use satyrn_engine.Prelude.Text.{Text, txt}
use satyrn_engine.Prelude.Value.{
  Value, int, float, str, list, dict, Items, finite, end, field, document, get, all_str, strings,
  texts,
}
use satyrn_engine.Contract.Fields.{Contract}
use satyrn_engine.Prelude.Value

-- `{k: v for k, v in body.items() if v is not None}`
optional : Text → Option Value → Value.Fields → Value.Fields
optional key none rest = rest
optional key (some v) rest = field key v rest

limit_value : Option ℕ → Option Value
limit_value none = none
limit_value (some n) = some (int (pos n))

seconds_value : Option ℕ → Option Value
seconds_value none = none
seconds_value (some n) = some (float (finite (pos n)))

unfoldable pub body : Contract → Value.Fields
unfolding optional limit_value seconds_value
body contract = field (txt "id") (str contract.id) (
    field (txt "task") (str contract.task) (
      field (txt "writable_paths") (list (texts contract.writable_paths)) (
        field (txt "test_command") (list (texts contract.test_command)) (
          field (txt "preserve") (list (texts contract.preserve)) (
            field (txt "checks") (list (texts contract.checks)) (
              optional (txt "token_budget") (limit_value contract.token_budget) (
                optional (txt "turn_budget") (limit_value contract.turn_budget) (
                  optional (txt "deadline_seconds") (seconds_value contract.deadline_seconds)
                    end))))))))

unfoldable pub render_contract : (Value → Text) → Contract → Text
unfolding body
render_contract safe_dump contract = safe_dump (dict (body contract))
