-- ===== src/Webhook/Command.antt =====
-- `parse_review_command` of app/github/schemas.py.
use Prim.Native.String.{len}
use text.Mathlib.Text.{starts_with}
use inryeok_bot.Prelude.{
  String, Bool, false, ◌&&◌, ◌||◌, not, Option, none, some, List, [], ◌∷◌, ltb, if◌then◌else◌,
  str_eq,
}

-- `strip`, `casefold`, `" ".join(text.split())`, `splitlines`, and `endswith` a backquote.
pub record LineMethods : Type 0 where
  pub strip : String → String
  pub casefold : String → String
  pub single_spaced : String → String
  pub splitlines : String → List String
  pub ends_with_quote : String → Bool

abbrev pub is_fence : String → Bool
is_fence stripped = starts_with stripped "```" || starts_with stripped "~~~"

-- The command of the first line that is text, if it is one.
pub line_command : String → Option String
line_command command =
    if str_eq command "/review"
    then some "review"
    else if str_eq command "/review summary"
    then some "summary"
    else if str_eq command "/review help"
    then some "help"
    else if str_eq command "/review resolve"
    then some "resolve"
    else if starts_with command "/review explain " && ltb (len "/review explain ") (len command)
    then some "explain"
    else none

module _ (text : LineMethods) where
  -- A line inside a fence, an empty line, a quotation, or code.
  abbrev pub is_passed_over : Bool → String → Bool
  is_passed_over in_fence raw =
      let stripped = text.strip raw in
      in_fence
      || str_eq stripped ""
      || starts_with stripped ">"
      || (starts_with raw "    " || starts_with raw "\t")
      || (starts_with stripped "`" && text.ends_with_quote stripped)

  pub parse_lines : Bool → List String → Option String
  unfolding line_command
  parse_lines in_fence [] = none
  parse_lines in_fence (raw ∷ rest) =
      let stripped = text.strip raw in
      let toggled = parse_lines (not in_fence) rest in
      let next = parse_lines in_fence rest in
      if is_fence stripped
      then toggled
      else if is_passed_over in_fence raw
      then next
      else line_command (text.single_spaced (text.casefold stripped))

  pub parse_review_command : String → Option String
  unfolding parse_lines
  parse_review_command body = parse_lines false (text.splitlines body)

  pub is_review_command : String → Bool
  unfolding parse_review_command
  is_review_command body = elim (parse_review_command body) [
    | none ↦ false
    | some c ↦ str_eq c "review"
  ]
