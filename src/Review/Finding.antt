-- ===== src/Review/Finding.antt =====
-- The findings of a review as app/codex/schemas.py declares them, and the changed files of
-- app/review/diff.py.
use Prim.Native.String.{String}
use inryeok_bot.Prelude.{
  ℕ, Bool, true, false, Option, none, some, List, [], ◌∷◌, str_eq, if◌then◌else◌,
}

pub data Severity : Type 0 where
  critical high medium low : Severity

pub data ReviewType : Type 0 where
  must_fix should_fix suggestion question positive : ReviewType

pub data Category : Type 0 where
  bug correctness behavior regression security data_integrity transaction concurrency : Category
  null_safety error_handling api_contract performance resource_leak testing simplification :
      Category

pub data FindingScope : Type 0 where
  line_scope file_scope pr_scope : FindingScope

pub data ChangeRelation : Type 0 where
  direct_change changed_file_context cross_file_impact pr_wide pre_existing_unrelated :
      ChangeRelation

pub data ChangedAnchorKind : Type 0 where
  added_line changed_file : ChangedAnchorKind

pub record ChangedFileAnchor : Type 0 where
  pub kind : ChangedAnchorKind
  pub path : String
  pub line : Option ℕ

-- `side` can only be "RIGHT". The confidence is counted in thousandths.
pub record Finding : Type 0 where
  pub scope : FindingScope
  pub path : Option String
  pub line : Option ℕ
  pub on_right_side : Bool
  pub review_type : ReviewType
  pub category : Category
  pub severity : Severity
  pub confidence : ℕ
  pub title : String
  pub body : String
  pub condition : Option String
  pub impact : Option String
  pub evidence : Option String
  pub suggested_fix : Option String
  pub relation_to_change : Option ChangeRelation
  pub introduced_by_pr : Option Bool
  pub changed_symbol : Option String
  pub causal_evidence : Option String
  pub changed_file_anchor : Option ChangedFileAnchor
  pub defect_identity : Option String
  pub causal_chain : Option (List String)
  pub why_it_matters : Option String
  pub suggested_action : Option String
  pub suggested_patch : Option String

pub record ChangedFile : Type 0 where
  pub path : String
  pub added_lines : List ℕ

-- `dict[str, ChangedFile]`
abbrev pub Changes : Type 0
Changes = List (String × ChangedFile)

-- `changed.get(path)`
pub lookup : String → List (String × ChangedFile) → Option ChangedFile
lookup p [] = none
lookup p ((q, f) ∷ rest) = let found = lookup p rest in if str_eq q p then some f else found

-- `ORDER`
abbrev pub severity_order : Severity → ℕ
severity_order critical = 4
severity_order high = 3
severity_order medium = 2
severity_order low = 1

-- `TYPE_ORDER`
abbrev pub type_order : ReviewType → ℕ
type_order must_fix = 5
type_order should_fix = 4
type_order suggestion = 3
type_order question = 2
type_order positive = 1

abbrev pub is_line : FindingScope → Bool
is_line line_scope = true
is_line _ = false

abbrev pub is_file : FindingScope → Bool
is_file file_scope = true
is_file _ = false

abbrev pub is_positive : ReviewType → Bool
is_positive positive = true
is_positive _ = false

abbrev pub is_question : ReviewType → Bool
is_question question = true
is_question _ = false

abbrev pub is_suggestion : ReviewType → Bool
is_suggestion suggestion = true
is_suggestion _ = false

-- `review_type in {MUST_FIX, SHOULD_FIX}`
abbrev pub is_defect : ReviewType → Bool
is_defect must_fix = true
is_defect should_fix = true
is_defect _ = false

-- `relation in {CROSS_FILE_IMPACT, PR_WIDE}`
abbrev pub reaches_beyond : ChangeRelation → Bool
reaches_beyond cross_file_impact = true
reaches_beyond pr_wide = true
reaches_beyond _ = false

abbrev pub is_unrelated : ChangeRelation → Bool
is_unrelated pre_existing_unrelated = true
is_unrelated _ = false

abbrev pub same_kind : ChangedAnchorKind → ChangedAnchorKind → Bool
same_kind added_line added_line = true
same_kind changed_file changed_file = true
same_kind _ _ = false
