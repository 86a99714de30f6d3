-- ===== src/Review/Anchor.antt =====
-- Where a finding is anchored in the change: app/review/validator.py, `_relation` to
-- `_anchor_matches` and `_scope_relation_is_valid`. The functions take what normalizes a path,
-- `normalize_path` of app/review/diff.py in the validator.
use Prim.Native.String.{String}
use inryeok_bot.Prelude.{
  Bool, true, false, ◌&&◌, ◌||◌, not, Option, none, some, List, [], ◌∷◌, str_eq, ◌==◌,
  if◌then◌else◌, is_null, is_present, any, or_else, is_truthy,
}
use inryeok_bot.Review.Finding.{
  Finding, FindingScope, line_scope, file_scope, pr_scope, ChangeRelation, direct_change,
  changed_file_context, cross_file_impact, pr_wide, ChangedAnchorKind, added_line, changed_file,
  ChangedFileAnchor, ChangedFile, lookup, is_file, reaches_beyond, same_kind,
}

abbrev pub Normalize : Type 0
Normalize = String → Option String

unfoldable pub default_relation : FindingScope → ChangeRelation
default_relation line_scope = direct_change
default_relation file_scope = changed_file_context
default_relation pr_scope = pr_wide

-- `_relation`
unfoldable pub relation : Finding → ChangeRelation
unfolding default_relation
relation f = elim f.relation_to_change [ some r ↦ r | none ↦ default_relation f.scope ]

-- A path normalized, if there is one and it is safe.
abbrev pub normalized : Normalize → Option String → Option String
normalized n none = none
normalized n (some p) = n p

abbrev pub lookup_path : Option String → List (String × ChangedFile) → Option ChangedFile
lookup_path none changed = none
lookup_path (some p) changed = lookup p changed

pub path_is_changed : Normalize → List (String × ChangedFile) → Finding → Bool
path_is_changed n changed f = is_present (lookup_path (normalized n f.path) changed)

abbrev pub anchor_path : Option ChangedFileAnchor → Option String
anchor_path none = none
anchor_path (some a) = some a.path

abbrev kind_of : Option ChangedFile → ChangedAnchorKind
kind_of none = added_line
kind_of (some c) = elim c.added_lines [ [] ↦ changed_file | _ ∷ _ ↦ added_line ]

-- `_expected_anchor_kind`
pub expected_anchor_kind :
    Normalize → List (String × ChangedFile) → Bool → Finding → Option ChangedAnchorKind
unfolding relation
expected_anchor_kind n changed require_anchor f =
    let candidate_path =
      or_else (normalized n (anchor_path f.changed_file_anchor)) (normalized n f.path) in
    if not require_anchor && not (reaches_beyond (relation f))
    then none
    else some
        (kind_of (lookup_path (if is_truthy candidate_path then candidate_path else none) changed))

-- The test on the anchor's line, once its file is found.
abbrev line_fits : ChangedFileAnchor → ChangedFile → Bool
line_fits a file = elim a.kind [
  | changed_file ↦ is_null a.line
  | added_line ↦ elim a.line [ none ↦ false | some l ↦ any (λ x. x == l) file.added_lines ]
]

-- A FILE finding is anchored in its own file.
abbrev same_file : Normalize → Finding → String → Bool
same_file n f path = not (is_file f.scope) || elim f.path [
  | none ↦ true
  | some own ↦ elim (n own) [ none ↦ false | some q ↦ str_eq q path ]
]

-- `_anchor_matches`
pub anchor_fits :
    Normalize → List (String × ChangedFile) → Finding → ChangedFileAnchor → ChangedAnchorKind → Bool
anchor_fits n changed f a expected = elim (n a.path) [
  | none ↦ false
  | some path ↦ elim (lookup path changed) [
    | none ↦ false
    | some file ↦ same_kind a.kind expected && same_file n f path && line_fits a file
  ]
]

pub anchor_matches :
    Normalize → List (String × ChangedFile) → Finding → Option ChangedAnchorKind → Bool
unfolding anchor_fits
anchor_matches n changed f expected = elim f.changed_file_anchor [
  | none ↦ false
  | some a ↦ elim expected [ none ↦ false | some kind ↦ anchor_fits n changed f a kind ]
]

-- `_scope_relation_is_valid`
pub scope_relation_is_valid : FindingScope → ChangeRelation → Bool
scope_relation_is_valid line_scope direct_change = true
scope_relation_is_valid line_scope cross_file_impact = true
scope_relation_is_valid line_scope _ = false
scope_relation_is_valid file_scope direct_change = true
scope_relation_is_valid file_scope changed_file_context = true
scope_relation_is_valid file_scope cross_file_impact = true
scope_relation_is_valid file_scope _ = false
scope_relation_is_valid pr_scope cross_file_impact = true
scope_relation_is_valid pr_scope pr_wide = true
scope_relation_is_valid pr_scope _ = false
