-- ===== src/Review/Validate/Location.antt =====
-- Where a finding is: the tests on its path and line in `validate_findings_with_diagnostics`.
use Prim.Native.String.{String}
use inryeok_bot.Prelude.{
  Bool, false, ◌&&◌, ◌||◌, not, none, some, List, [], ◌∷◌, ◌==◌, if◌then◌else◌, is_null, is_present,
  any,
}
use inryeok_bot.Review.Path.{normalize_path}
use inryeok_bot.Review.Finding.{
  Finding, FindingScope, line_scope, file_scope, pr_scope, Changes, lookup, is_line,
}
use inryeok_bot.Review.Validate.{Outside, Refusal, Guard, guard}

-- A located finding has its path normalized; a refused one is reported as it is by then.
pub data Location : Type 0 where
  located : Finding → Location
  misplaced : Refusal → Finding → Location

abbrev refuse_at : String → Finding → Location
refuse_at reason f =
    misplaced
      record {
        reason = reason;
        stage = "scope";
        expected_anchor_kind = none;
        anchor_matches = none;
      }
      f

abbrev not_changed : Finding → String
not_changed f = if is_present f.relation_to_change then "PATH_NOT_CHANGED" else "FILE_NOT_CHANGED"

-- `finding.path = normalize_path(finding.path)`, then `changed.get(finding.path)`
unfoldable pub locate_path : Outside → Changes → String → Finding → Location
locate_path o changed path f = elim (normalize_path path) [
  | none ↦ refuse_at "INVALID_PATH" f
  | some p ↦ elim (lookup p changed) [
    | none ↦ refuse_at (not_changed f) (record f { path = some p })
    | some _ ↦ located (record f { path = some p })
  ]
]

-- The scope of a finding, of which there are these three.
unfoldable pub locate : Outside → Changes → FindingScope → Finding → Location
unfolding locate_path
locate o changed line_scope f = elim f.path [
  | none ↦ refuse_at "INVALID_LOCATION" f
  | some path ↦
      if is_null f.line || not f.on_right_side
      then refuse_at "INVALID_LOCATION" f
      else locate_path o changed path f
]
locate o changed file_scope f = elim f.path [
  | none ↦ refuse_at "INVALID_LOCATION" f
  | some path ↦ locate_path o changed path f
]
locate o changed pr_scope f = elim f.path [
  | none ↦ elim changed [ [] ↦ refuse_at "NO_CHANGED_FILES" f | _ ∷ _ ↦ located f ]
  | some path ↦ locate_path o changed path f
]

-- `finding.line in file.added_lines`
abbrev pub line_added : Changes → Finding → Bool
line_added changed f = elim f.path [
  | none ↦ false
  | some p ↦ elim (lookup p changed) [
    | none ↦ false
    | some file ↦ elim f.line [ none ↦ false | some l ↦ any (λ x. x == l) file.added_lines ]
  ]
]

unfoldable pub line_guards : Changes → Finding → List Guard
line_guards changed f =
    guard (is_line f.scope && not (line_added changed f))
      (if is_present f.relation_to_change then "LINE_NOT_CHANGED" else "LINE_NOT_RIGHT_SIDE")
      "scope"
    ∷ []
