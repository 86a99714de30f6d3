-- ===== src/Failures/Diagnostic/Tests.antt =====
-- A diagnostic of a schema failure.
use inryeok_bot.Prelude.{String, ◌≡◌, refl, some, List, [], ◌∷◌, text_prefix}
use inryeok_bot.Failures.Diagnostic.{read_part, read_parts, diagnostic_parts}

abbrev items : List String
items = "output_field=findings.0.line;type=int_type" ∷ []

diagnostic_parts_read : diagnostic_parts items ≡ (some "findings.0.line", some "int_type")
unfolding diagnostic_parts read_parts read_part text_prefix
diagnostic_parts_read = refl
