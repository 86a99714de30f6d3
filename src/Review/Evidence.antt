-- ===== src/Review/Evidence.antt =====
-- The tests on the texts of a finding: app/review/validator.py, from `_has_policy_evidence` to
-- `_suggested_patch_is_valid`. The Unicode functions of Python's `str` and `re` are arguments.
use Prim.Native.String.{String, ◌++◌ as text_append}
use text.Mathlib.Text.{find?, starts_with}
use inryeok_bot.Prelude.{
  ℕ, Bool, true, false, ◌&&◌, ◌||◌, not, Option, none, some, List, [], ◌∷◌, map, str_eq, ltb, leb,
  if◌then◌else◌, is_null, is_present, is_truthy, any,
}
use inryeok_bot.Review.Finding.{
  Finding, simplification, performance, must_fix, should_fix, suggestion, question, positive,
  ChangedFile, is_line, is_defect,
}

-- `casefold`, `strip`, `lstrip`, `replace(value, " ")` with the value first, the number of matches
-- of the word pattern of `_causal_evidence_is_specific`, `len(split())` and `len(splitlines())`.
pub record TextFunctions : Type 0 where
  pub casefold : String → String
  pub strip : String → String
  pub lstrip : String → String
  pub blank_out : String → String → String
  pub causal_words : String → ℕ
  pub split_words : String → ℕ
  pub split_lines : String → ℕ

-- `value in text`
abbrev pub contains : String → String → Bool
contains text value = is_present (find? text value)

abbrev contains_any : String → List String → Bool
contains_any text values = any (contains text) values

abbrev simplification_risks : List String
simplification_risks =
    "bug" ∷ "defect" ∷ "diverge" ∷ "inconsistent" ∷ "duplicate" ∷ "missed update" ∷ "query" ∷ "i/o"
    ∷ "standard library" ∷ "결함" ∷ "불일치" ∷ "중복" ∷ "수정 누락" ∷ "공통 기능" ∷ "표준 라이브러리" ∷ []

abbrev simplification_actions : List String
simplification_actions =
    "replace" ∷ "reuse" ∷ "remove" ∷ "consolidate" ∷ "대체" ∷ "재사용" ∷ "제거" ∷ "통합" ∷ []

abbrev performance_causes : List String
performance_causes =
    "n+1" ∷ "query" ∷ "database" ∷ "network" ∷ "file i/o" ∷ "disk" ∷ "unbounded" ∷ "memory" ∷ "쿼리"
    ∷ "데이터베이스" ∷ "네트워크" ∷ "파일 i/o" ∷ "무제한" ∷ "메모리" ∷ []

abbrev performance_conditions : List String
performance_conditions =
    "each" ∷ "every" ∷ "loop" ∷ "when" ∷ "per " ∷ "grows" ∷ "마다" ∷ "반복" ∷ "경우" ∷ "증가" ∷ []

abbrev causal_markers : List String
causal_markers =
    "because" ∷ "causes" ∷ "caused" ∷ "caller" ∷ "callee" ∷ "contract" ∷ "depends" ∷ "expects"
    ∷ "returns" ∷ "fails" ∷ "failure" ∷ "breaks" ∷ "incompatible" ∷ "when" ∷ "due" ∷ "remove"
    ∷ "bypass" ∷ "호출" ∷ "호출자" ∷ "계약" ∷ "반환" ∷ "기대" ∷ "실패" ∷ "영향" ∷ "제거" ∷ "우회" ∷ "때문" ∷ "의존" ∷ []

-- `f"{finding.title} {finding.body}"`
abbrev title_and_body : Finding → String
title_and_body f = text_append f.title (text_append " " f.body)

pub has_policy_evidence : TextFunctions → Finding → Bool
has_policy_evidence t f =
    let text = t.casefold (title_and_body f) in
    elim f.category [
      | simplification ↦
          contains_any text simplification_risks && contains_any text simplification_actions
      | performance ↦
          contains_any text performance_causes && contains_any text performance_conditions
      | _ ↦ true
    ]

pub structured_evidence_is_complete : Finding → Bool
structured_evidence_is_complete f =
    is_line f.scope || (is_truthy f.condition && is_truthy f.impact && is_truthy f.evidence)

abbrev blank_out_all : TextFunctions → List (Option String) → String → String
blank_out_all t [] text = text
blank_out_all t (value ∷ rest) text =
    let text' : String = elim value [
      | none ↦ text
      | some v ↦ if str_eq v "" then text else t.blank_out (t.casefold v) text
    ] in
    blank_out_all t rest text'

pub causal_evidence_is_specific : TextFunctions → Finding → Bool
causal_evidence_is_specific t f = elim f.causal_evidence [
  | none ↦ false
  | some evidence ↦
      let anchor_path : Option String = elim f.changed_file_anchor [
        | none ↦ none
        | some a ↦ some a.path
      ] in
      let text = blank_out_all t (anchor_path ∷ f.changed_symbol ∷ []) (t.casefold evidence) in
      not (str_eq evidence "") && leb 3 (t.causal_words text) && contains_any text causal_markers
]

abbrev broad_words : List String
broad_words =
    "repository-wide" ∷ "entire repository" ∷ "all files" ∷ "other files" ∷ "unrelated" ∷ "refactor"
    ∷ []

pub suggested_fix_is_in_scope : TextFunctions → List (String × ChangedFile) → Finding → Bool
suggested_fix_is_in_scope t changed f = elim f.suggested_fix [
  | none ↦ true
  | some suggested ↦
      let fix = t.casefold suggested in
      let paths = map (λ c. t.casefold c.0) changed in
      let symbol : Bool = elim f.changed_symbol [
        | none ↦ false
        | some name ↦ not (str_eq name "") && contains fix (t.casefold name)
      ] in
      is_null f.relation_to_change
      || str_eq suggested ""
      || not (contains_any fix broad_words)
      || any (contains fix) paths
      || symbol
]

abbrev pub missing_type_evidence : String
missing_type_evidence = "REVIEW_TYPE_EVIDENCE_MISSING"

-- `_type_evidence_reason` for the defect types.
pub defect_reason : Finding → Option String
defect_reason f =
    let modern =
      is_present f.why_it_matters
      || is_present f.suggested_action
      || is_present f.suggested_patch in
    let complete = is_truthy f.condition && is_truthy f.impact && is_truthy f.suggested_action in
    if modern && not complete then some missing_type_evidence else none

-- `_type_evidence_reason` for the observations.
pub observation_reason : TextFunctions → Finding → Option String
observation_reason t f = elim f.review_type [
  | must_fix ↦ none
  | should_fix ↦ none
  | suggestion ↦
      if not (is_truthy f.suggested_action)
        || not (is_truthy f.why_it_matters || not (str_eq f.body ""))
      then some "SUGGESTION_NOT_ACTIONABLE"
      else none
  | question ↦
      if not (is_truthy f.why_it_matters)
        || not (contains_any (t.strip (title_and_body f)) ("?" ∷ "무엇" ∷ "어떤" ∷ "확인" ∷ []))
      then some "QUESTION_NOT_ACTIONABLE"
      else none
  | positive ↦ elim f.why_it_matters [
    | none ↦ some "POSITIVE_NOT_SPECIFIC"
    | some why ↦
        if str_eq why "" || ltb (t.split_words why) 3 then some "POSITIVE_NOT_SPECIFIC" else none
  ]
]

pub type_evidence_reason : TextFunctions → Finding → Option String
unfolding defect_reason observation_reason
type_evidence_reason t f =
    if is_defect f.review_type
    then defect_reason f
    else if not (is_line f.scope)
    then some missing_type_evidence
    else observation_reason t f

pub suggested_patch_is_valid : TextFunctions → Finding → Bool
suggested_patch_is_valid t f = elim f.suggested_patch [
  | none ↦ true
  | some patch ↦
      let start = t.lstrip patch in
      not (str_eq (t.strip patch) "")
      && not (contains patch "```")
      && not (starts_with start "+++" || starts_with start "---" || starts_with start "@@")
      && leb (t.split_lines patch) 20
]
