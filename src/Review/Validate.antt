-- ===== src/Review/Validate.antt =====
-- `validate_findings_with_diagnostics` of app/review/validator.py: the guards that a finding
-- passes, in order. A guard holds when the finding is refused for its reason.
pub mod Tests
pub mod Location
pub mod Loop
pub mod Limit
use Prim.Native.String.{String}
use inryeok_bot.Prelude.{
  ℕ, Bool, true, false, ◌&&◌, ◌||◌, not, Option, none, some, List, [], ◌∷◌, str_eq, ltb, ◌==◌,
  if◌then◌else◌, is_null, is_present, is_truthy, any,
}
use inryeok_bot.Review.Path.{normalize_path}
use inryeok_bot.Review.Finding.{
  Finding, FindingScope, line_scope, file_scope, pr_scope, Category, bug, correctness, behavior,
  regression, security, data_integrity, transaction, concurrency, null_safety, error_handling,
  api_contract, performance, resource_leak, testing, simplification, Severity, low, ReviewType,
  suggestion, ChangedAnchorKind, ChangedFile, Changes, lookup, severity_order, type_order, is_line,
  is_positive, is_question, is_suggestion, is_defect, reaches_beyond, is_unrelated,
}
use inryeok_bot.Review.Evidence.{
  TextFunctions, has_policy_evidence, structured_evidence_is_complete, causal_evidence_is_specific,
  suggested_fix_is_in_scope, type_evidence_reason, suggested_patch_is_valid,
}
use inryeok_bot.Review.Fingerprint.{Marking, category_value}
use inryeok_bot.Review.Anchor.{
  relation, path_is_changed, expected_anchor_kind, anchor_matches, scope_relation_is_valid,
}

-- What the validator takes from outside: the functions on texts, and what the fingerprint of a
-- finding is made with.
pub record Outside : Type 0 where
  pub text : TextFunctions
  pub marking : Marking

-- The arguments of the call, with the two names read as a severity and as a type.
pub record Policy : Type 0 where
  pub min_confidence : ℕ
  pub include_low : Bool
  pub max_findings : ℕ
  pub existing_fingerprints : List String
  pub minimum_severity : Severity
  pub enabled_categories : List String
  pub review_profile : String
  pub max_inline_comments : Option ℕ
  pub minimum_review_type : ReviewType
  pub allow_suggestions : Bool
  pub allow_questions : Bool
  pub allow_positive_fallback : Bool

-- What `reject` is told: the reason, the stage, and the anchor's kind and match.
pub record Refusal : Type 0 where
  pub reason : String
  pub stage : String
  pub expected_anchor_kind : Option ChangedAnchorKind
  pub anchor_matches : Option Bool

pub record Guard : Type 0 where
  pub holds : Bool
  pub refusal : Refusal

abbrev pub guard : Bool → String → String → Guard
guard b reason stage = record {
  holds = b;
  refusal = record {
    reason = reason;
    stage = stage;
    expected_anchor_kind = none;
    anchor_matches = none;
  };
}

-- The first guard that holds refuses the finding.
pub first_refusal : List Guard → Option Refusal
first_refusal [] = none
first_refusal (g ∷ rest) =
    let later = first_refusal rest in if g.holds then some g.refusal else later

-- The four guards on a finding that reaches beyond its file.
pub causal_guards : Outside → Changes → Finding → List Guard
causal_guards o changed f =
    let applies = is_present f.relation_to_change && reaches_beyond (relation f) in
    let expected = expected_anchor_kind normalize_path changed false f in
    let ground_guard : Bool → String → Bool → Guard = λ b reason fits. record {
      holds = applies && b;
      refusal = record {
        reason = reason;
        stage = "grounding";
        expected_anchor_kind = expected;
        anchor_matches = some fits;
      };
    } in
    ground_guard (is_null f.changed_file_anchor) "CAUSAL_ANCHOR_MISSING" false
    ∷ ground_guard (not (anchor_matches normalize_path changed f expected))
        "INVALID_CROSS_FILE_IMPACT" false
    ∷ ground_guard (not (is_truthy f.causal_evidence)) "CAUSAL_EVIDENCE_MISSING" true
    ∷ ground_guard (not (causal_evidence_is_specific o.text f)) "CAUSAL_EVIDENCE_NOT_SPECIFIC" true
    ∷ []

-- `introduced_by_pr is False`, and `is True`
abbrev pub is_some_false : Option Bool → Bool
is_some_false none = false
is_some_false (some b) = not b

abbrev pub is_some_true : Option Bool → Bool
is_some_true none = false
is_some_true (some b) = b

-- The guards on the relation to the change.
pub relation_guards : Outside → Changes → Finding → List Guard
relation_guards o changed f =
    guard
      (is_present f.defect_identity
        && not (
            anchor_matches normalize_path changed f
              (expected_anchor_kind normalize_path changed true f)))
      "INVALID_CHANGED_FILE_ANCHOR" "grounding"
    ∷ guard (is_null f.relation_to_change && is_present f.causal_evidence) "CHANGE_RELATION_MISSING"
        "relation"
    ∷ guard (is_unrelated (relation f) || is_some_false f.introduced_by_pr) "PRE_EXISTING_UNRELATED"
        "relation"
    ∷ guard (is_present f.relation_to_change && not (is_some_true f.introduced_by_pr))
        "CHANGE_RELATION_MISSING" "relation"
    ∷ guard (not (scope_relation_is_valid f.scope (relation f))) "INVALID_SCOPE_RELATION" "relation"
    ∷ []

pub scope_guards : Outside → Changes → Finding → List Guard
scope_guards o changed f =
    guard (not (suggested_fix_is_in_scope o.text changed f)) "OUT_OF_SCOPE_SUGGESTED_FIX" "scope"
    ∷ guard (not (structured_evidence_is_complete f)) "MISSING_STRUCTURED_EVIDENCE" "evidence"
    ∷ []

pub confidence_guards : Policy → Finding → List Guard
confidence_guards p f =
    guard (ltb f.confidence p.min_confidence) "BELOW_CONFIDENCE" "confidence" ∷ []

abbrev is_minor : Category → Bool
is_minor performance = true
is_minor simplification = true
is_minor testing = true
is_minor _ = false

abbrev category_enabled : List String → Category → Bool
category_enabled [] c = true
category_enabled (e ∷ rest) c = any (str_eq (category_value c)) (e ∷ rest)

-- The guards on severity, category, type and profile.
pub policy_guards : Policy → Finding → List Guard
policy_guards p f =
    guard (severity_order f.severity == 1 && not p.include_low && is_defect f.review_type)
      "LOW_DISABLED" "severity"
    ∷ guard (ltb (severity_order f.severity) (severity_order p.minimum_severity)) "BELOW_SEVERITY"
        "severity"
    ∷ guard (not (category_enabled p.enabled_categories f.category)) "UNKNOWN_CATEGORY" "policy"
    ∷ guard (is_suggestion f.review_type && not p.allow_suggestions) "REVIEW_TYPE_DISABLED" "policy"
    ∷ guard (is_question f.review_type && not p.allow_questions) "REVIEW_TYPE_DISABLED" "policy"
    ∷ guard (is_positive f.review_type && not p.allow_positive_fallback) "REVIEW_TYPE_DISABLED"
        "policy"
    ∷ guard
        ((is_defect f.review_type || is_suggestion f.review_type)
          && ltb (type_order f.review_type) (type_order p.minimum_review_type))
        "BELOW_REVIEW_TYPE" "policy"
    ∷ guard (str_eq p.review_profile "CONSERVATIVE" && is_minor f.category) "PROFILE_EXCLUDED"
        "policy"
    ∷ []

-- The guards on the evidence; the reason on the type is a text, that counts if not empty.
pub evidence_guards : Outside → Finding → List Guard
evidence_guards o f =
    guard (not (has_policy_evidence o.text f)) "EVIDENCE_NOT_SUPPORTED" "evidence"
    ∷ (elim (type_evidence_reason o.text f) [
      | none ↦ guard false "" "evidence"
      | some reason ↦ guard (not (str_eq reason "")) reason "evidence"
    ])
    ∷ guard (not (suggested_patch_is_valid o.text f)) "SUGGESTED_PATCH_INVALID" "evidence"
    ∷ []

-- `mark in existing or mark in seen`
pub duplicate_guards : Policy → List String → String → List Guard
duplicate_guards p seen mark =
    guard (any (str_eq mark) p.existing_fingerprints || any (str_eq mark) seen) "DUPLICATE"
      "deduplication"
    ∷ []
