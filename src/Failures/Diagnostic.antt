-- ===== src/Failures/Diagnostic.antt =====
-- Diagnostics of a schema failure: `normalize_schema_diagnostic` of app/codex/runner.py and
-- `_diagnostic_parts` of app/review/failures.py.
pub mod Tests
use Prim.Native.String.{len, slice}
use text.Mathlib.Text.{starts_with, find?}
use inryeok_bot.Prelude.{
  ℕ, zero, suc, ◌+◌, ◌≤◌, String, Bool, true, false, ◌&&◌, Option, none, some, List, [], ◌∷◌, ◌≡◌,
  refl, map, if◌then◌else◌, is_present, text_prefix, characters, characters-text_prefix,
  select_where, length, All, arith,
}

abbrev pub max_safe_diagnostic_lines : ℕ
max_safe_diagnostic_lines = 10

abbrev pub max_safe_diagnostic_line : ℕ
max_safe_diagnostic_line = 300

abbrev pub schema_diagnostic_fallback : String
schema_diagnostic_fallback = "output_field=__root__;type=schema_validation_unknown"

-- `values[:n]`
abbrev pub list_prefix {ℓ} : {A : Type ℓ} → ℕ → List A → List A
list_prefix n [] = []
list_prefix zero (x ∷ xs) = []
list_prefix (suc n) (x ∷ xs) = x ∷ list_prefix n xs

-- `text.split(mark, 1)[1]`, where the mark is there.
abbrev after_mark : String → String → Option String
after_mark mark text = elim (find? text mark) [
  | none ↦ none
  | some i ↦ some (slice text (i + len mark) (len text))
]

-- `text.split(mark, 1)[0]`
abbrev before_mark : String → String → String
before_mark mark text = elim (find? text mark) [ none ↦ text | some i ↦ slice text 0 i ]

is_schema_diagnostic : String → Bool
is_schema_diagnostic item = starts_with item "output_field=" && is_present (find? item ";type=")

-- The kept lines, and whether the fallback stands in for them.
unfoldable pub normalize_schema_diagnostic : List String → List String × Bool
unfolding is_schema_diagnostic
normalize_schema_diagnostic diagnostic =
    elim (list_prefix max_safe_diagnostic_lines
      (map (text_prefix max_safe_diagnostic_line) (select_where is_schema_diagnostic diagnostic))) [
        | [] ↦ (schema_diagnostic_fallback ∷ [], true)
        | v ∷ vs ↦ (v ∷ vs, false)
      ]

-- One round of the loop over the lines: the output field and the validation type so far.
read_part : String → Option String × Option String → Option String × Option String
read_part item (output_field, validation_type) = (
  if starts_with item "output_field="
      then elim (after_mark "=" item) [
        | none ↦ output_field
        | some rest ↦ some (text_prefix 128 (before_mark ";" rest))
      ]
      else output_field,
  elim (after_mark ";type=" item) [
    | none ↦ validation_type
    | some rest ↦ some (text_prefix 64 rest)
  ],
)

read_parts : List String → Option String × Option String → Option String × Option String
unfolding read_part
read_parts [] parts = parts
read_parts (item ∷ rest) parts = read_parts rest (read_part item parts)

unfoldable pub diagnostic_parts : List String → Option String × Option String
unfolding read_parts
diagnostic_parts diagnostic = read_parts diagnostic (none, none)

-- A text that is absent or has at most `n` characters.
abbrev pub FitsIn : ℕ → Option String → Type 0
FitsIn n none = Unit
FitsIn n (some s) = characters s ≤ n

abbrev PartsFit : Option String × Option String → Type 0
PartsFit (field, type) = FitsIn 128 field × FitsIn 64 type

after_case :
    (n : ℕ) (rest old : Option String) (f : String → String)
    → FitsIn n old
    → FitsIn n (elim rest [ none ↦ old | some r ↦ some (text_prefix n (f r)) ])
after_case n none old f h = h
after_case n (some r) old f h = characters-text_prefix n (f r)

field_case :
    (b : Bool) (rest old : Option String) (f : String → String)
    → FitsIn 128 old
    → FitsIn 128
        (if b then (elim rest [ none ↦ old | some r ↦ some (text_prefix 128 (f r)) ]) else old)
field_case true rest old f h = after_case 128 rest old f h
field_case false rest old f h = h

read_parts-PartsFit :
    (items : List String) (parts : Option String × Option String)
    → PartsFit parts
    → PartsFit (read_parts items parts)
unfolding read_parts
read_parts-PartsFit [] parts h = h
read_parts-PartsFit (item ∷ rest) (field, type) h =
    read_parts-PartsFit rest (read_part item (field, type)) (
      field_case (starts_with item "output_field=") (after_mark "=" item) field (before_mark ";")
          h.0,
      after_case 64 (after_mark ";type=" item) type (λ r. r) h.1,
    )

-- What is kept of any diagnostic is bounded: a field of 128 and a type of 64 characters at most.
pub diagnostic_parts_bounded :
    (items : List String)
    → FitsIn 128 (diagnostic_parts items).0 × FitsIn 64 (diagnostic_parts items).1
unfolding diagnostic_parts
diagnostic_parts_bounded items = read_parts-PartsFit items (none, none) (tt, tt)
