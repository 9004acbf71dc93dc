-- ===== src/Runner/Output.antt =====
-- `TAIL_BYTES` and `tail_output` of src/satyrn_engine/runner.py. The lossy decoder is a parameter.
pub mod Tail
use satyrn_engine.Prelude.{ℕ, ◌-◌, Bool, true, false, ◌++◌, if◌then◌else◌, ltb, length, drop}
use satyrn_engine.Prelude.Text.{Text, Bytes, txt}

abbrev pub tail_bytes : ℕ
tail_bytes = 8192

unfoldable pub truncation_marker : Text
truncation_marker = txt "...[output truncated; showing final 8192 bytes]...\n"

unfoldable pub tail_output : (Bytes → Text) → Bytes → Text × Bool
tail_output decode_replace b =
    if ltb tail_bytes (length b)
    then (truncation_marker ++ decode_replace (drop (length b - tail_bytes) b), true)
    else (decode_replace b, false)
