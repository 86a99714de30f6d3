-- ===== src/Review/Validate/Limit.antt =====
-- The end of `validate_findings_with_diagnostics`: the accepted findings by score, within the
-- budget of inline comments and with one positive observation, and the result.
pub mod Budget
pub mod Published
pub mod Conserved
use Prim.Native.String.{String}
use inryeok_bot.Prelude.{
  ℕ, ◌+◌, ◌*◌, min, Bool, true, false, ◌&&◌, ◌||◌, not, Option, none, some, List, [], ◌∷◌, ◌++◌,
  map, ltb, leb, ◌==◌, if◌then◌else◌, is_truthy, is_null, any, length, count_where,
}
use inryeok_bot.Review.Path.{normalize_path}
use inryeok_bot.Review.Finding.{
  Finding, Severity, critical, high, medium, low, Changes, severity_order, type_order, is_line,
  is_positive, is_defect,
}
use inryeok_bot.Review.Anchor.{expected_anchor_kind, anchor_matches}
use inryeok_bot.Review.Validate.{Outside, Policy, Refusal}
use inryeok_bot.Review.Validate.Loop.{
  FindingRejectionDiagnostic, diagnose, Progress, sort_by, examined,
}

abbrev number : Bool → ℕ
number b = if b then 1 else 0

abbrev line_number : Finding → ℕ
line_number f = elim f.line [ none ↦ 0 | some l ↦ l ]

-- The first component of `_selection_score`.
pub base_score : Finding → ℕ
base_score f =
    severity_order f.severity * 100
    + type_order f.review_type * 10
    + number (is_truthy f.suggested_action || is_truthy f.suggested_patch) * 4
    + number (is_truthy f.causal_evidence || is_truthy f.why_it_matters)

-- A greater `_selection_score` comes first; the last component is the negated line.
pub selected_before : ℕ × Finding → ℕ × Finding → Bool
unfolding base_score
selected_before (_, a) (_, b) =
    ltb (base_score b) (base_score a)
    || (base_score a == base_score b
        && (ltb b.confidence a.confidence
            || (a.confidence == b.confidence
                && (ltb (type_order b.review_type) (type_order a.review_type)
                    || (type_order a.review_type == type_order b.review_type
                        && ltb (line_number a) (line_number b))))))

abbrev is_important : Finding → Bool
is_important f = is_defect f.review_type && leb 3 (severity_order f.severity)

pub inline_budget : Policy → List (ℕ × Finding) → ℕ
inline_budget p accepted =
    let ordinary : ℕ = elim p.max_inline_comments [ none ↦ p.max_findings | some n ↦ n ] in
    min (if any (λ x. is_important x.1) accepted then 5 else ordinary) p.max_findings

-- The findings that are published, those that are not, and a reason for each of these. No two
-- accepted findings are equal, since their fingerprints differ.
pub record Limited : Type 0 where
  pub limited : List (ℕ × Finding)
  pub overflow : List (ℕ × Finding)
  pub reasons : List String

-- Why a finding is held back, if it is.
pub over_budget : ℕ → Bool → ℕ → Finding → Option String
over_budget budget positive_seen inline_used item =
    if is_positive item.review_type && positive_seen
    then some "POSITIVE_LIMIT_EXCEEDED"
    else if is_line item.scope && leb budget inline_used
    then some "COMMENT_BUDGET_EXCEEDED"
    else none

pub place : Option String → ℕ × Finding → Limited → Limited
place none x rest = record rest { limited = x ∷ rest.limited }
place (some reason) x rest = record rest {
  overflow = x ∷ rest.overflow;
  reasons = reason ∷ rest.reasons;
}

-- The last loop, with the budget and its two variables.
pub limit : ℕ → Bool → ℕ → List (ℕ × Finding) → Limited
unfolding place
limit budget positive_seen inline_used [] = record { limited = []; overflow = []; reasons = [] }
limit budget positive_seen inline_used (x ∷ rest) =
    let reason = over_budget budget positive_seen inline_used x.1 in
    let next =
      limit budget (positive_seen || (is_null reason && is_positive x.1.review_type))
        (if is_null reason && is_line x.1.scope then inline_used + 1 else inline_used) rest in
    place reason x next

-- `FindingValidationResult`, with the examined findings' counters.
pub record FindingValidationResult : Type 0 where
  pub findings : List Finding
  pub examination : Progress
  pub rejection_counts : List String
  pub rejection_diagnostics : List FindingRejectionDiagnostic
  pub no_reviewable_reason : Option String

abbrev pub over_limit : Outside → Changes → ℕ × Finding → FindingRejectionDiagnostic
over_limit o changed (i, f) =
    let kind = expected_anchor_kind normalize_path changed false f in
    diagnose o changed
      record {
        reason = "MAX_FINDINGS_EXCEEDED";
        stage = "limit";
        expected_anchor_kind = kind;
        anchor_matches = elim kind [
          | none ↦ none
          | some k ↦ some (anchor_matches normalize_path changed f (some k))
        ];
      }
      i f

abbrev pub reported_before : FindingRejectionDiagnostic → FindingRejectionDiagnostic → Bool
reported_before a b = ltb a.finding_index b.finding_index

-- `"NO_VALID_INLINE_OBSERVATION" if changed and not limited else None`
pub nothing_reviewable : Changes → List (ℕ × Finding) → Option String
nothing_reviewable [] limited = none
nothing_reviewable (_ ∷ _) [] = some "NO_VALID_INLINE_OBSERVATION"
nothing_reviewable (_ ∷ _) (_ ∷ _) = none

abbrev pub findings_of : List (ℕ × Finding) → List Finding
findings_of xs = map (λ x. x.1) xs

pub selected : Policy → Progress → Limited
unfolding limit inline_budget selected_before
selected p s =
    let accepted = sort_by selected_before s.accepted in
    limit (inline_budget p accepted) false 0 accepted

pub validate_findings_with_diagnostics :
    Outside → Changes → Policy → List Finding → FindingValidationResult
unfolding selected nothing_reviewable
validate_findings_with_diagnostics o changed p findings =
    let s = examined o changed p findings in
    let l = selected p s in
    record {
      findings = findings_of l.limited;
      examination = s;
      rejection_counts = s.rejected ++ l.reasons ++ map (λ _. "MAX_FINDINGS_EXCEEDED") l.overflow;
      rejection_diagnostics =
          sort_by reported_before
            (s.rejection_diagnostics ++ map (over_limit o changed) l.overflow);
      no_reviewable_reason = nothing_reviewable changed l.limited;
    }
