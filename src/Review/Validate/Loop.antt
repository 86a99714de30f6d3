-- ===== src/Review/Validate/Loop.antt =====
-- The loop of `validate_findings_with_diagnostics`: the findings in order of weight, each examined
-- against the guards, with the counters of what was passed.
pub mod Sort
pub mod Room
pub mod Counts
pub mod Numbered
pub mod Accepted
pub mod Located
use Prim.Native.String.{String}
use inryeok_bot.Prelude.{
  ℕ, ◌+◌, Bool, true, false, ◌&&◌, ◌||◌, not, Option, none, some, List, [], ◌∷◌, ◌++◌, ltb, ◌==◌,
  if◌then◌else◌, is_present, is_truthy,
}
use inryeok_bot.Review.Path.{normalize_path}
use inryeok_bot.Review.Finding.{
  Finding, FindingScope, Category, Severity, ReviewType, ChangeRelation, ChangedAnchorKind, Changes,
  severity_order, is_line,
}
use inryeok_bot.Review.Fingerprint.{fingerprint}
use inryeok_bot.Review.Anchor.{path_is_changed}
use inryeok_bot.Review.Validate.{
  Outside, Policy, Refusal, Guard, first_refusal, causal_guards, relation_guards, scope_guards,
  confidence_guards, policy_guards, evidence_guards, duplicate_guards,
}
use inryeok_bot.Review.Validate.Location.{Location, located, misplaced, locate, line_guards}

-- `FindingRejectionDiagnostic`
pub record FindingRejectionDiagnostic : Type 0 where
  pub finding_index : ℕ
  pub scope : FindingScope
  pub category : Category
  pub relation_to_change : Option ChangeRelation
  pub introduced_by_pr : Option Bool
  pub severity : Severity
  pub confidence : ℕ
  pub review_type : ReviewType
  pub rejection_stage : String
  pub rejection_reason : String
  pub path_is_changed : Bool
  pub changed_symbol_present : Bool
  pub causal_evidence_present : Bool
  pub expected_anchor_kind : Option ChangedAnchorKind
  pub anchor_matches : Option Bool

pub diagnose : Outside → Changes → Refusal → ℕ → Finding → FindingRejectionDiagnostic
diagnose o changed r i f = record {
  finding_index = i;
  scope = f.scope;
  category = f.category;
  relation_to_change = f.relation_to_change;
  introduced_by_pr = f.introduced_by_pr;
  severity = f.severity;
  confidence = f.confidence;
  review_type = f.review_type;
  rejection_stage = r.stage;
  rejection_reason = r.reason;
  path_is_changed = path_is_changed normalize_path changed f;
  changed_symbol_present = is_truthy f.changed_symbol;
  causal_evidence_present = is_truthy f.causal_evidence;
  expected_anchor_kind = r.expected_anchor_kind;
  anchor_matches = r.anchor_matches;
}

-- The variables of the loop. `rejected` lists a reason for each count of its counter.
pub record Progress : Type 0 where
  pub accepted : List (ℕ × Finding)
  pub seen : List String
  pub changed_file_count : ℕ
  pub changed_line_count : ℕ
  pub confidence_count : ℕ
  pub severity_count : ℕ
  pub evidence_count : ℕ
  pub deduplicated_count : ℕ
  pub rejected : List String
  pub rejection_diagnostics : List FindingRejectionDiagnostic

abbrev pub nothing_yet : Progress
nothing_yet = record {
  accepted = [];
  seen = [];
  changed_file_count = 0;
  changed_line_count = 0;
  confidence_count = 0;
  severity_count = 0;
  evidence_count = 0;
  deduplicated_count = 0;
  rejected = [];
  rejection_diagnostics = [];
}

-- `reject`
pub reject : Outside → Changes → Refusal → ℕ → Finding → Progress → Progress
unfolding diagnose
reject o changed r i f s = record s {
  rejected = s.rejected ++ r.reason ∷ [];
  rejection_diagnostics = s.rejection_diagnostics ++ diagnose o changed r i f ∷ [];
}

pub accept : String → ℕ → Finding → Progress → Progress
accept mark i f s = record s {
  seen = mark ∷ s.seen;
  accepted = s.accepted ++ (i, f) ∷ [];
  deduplicated_count = s.deduplicated_count + 1;
}

abbrev pub count_file : Progress → Progress
count_file s = record s { changed_file_count = s.changed_file_count + 1 }

abbrev pub count_line : Finding → Progress → Progress
count_line f s =
    if is_line f.scope then record s { changed_line_count = s.changed_line_count + 1 } else s

abbrev pub count_confidence : Progress → Progress
count_confidence s = record s { confidence_count = s.confidence_count + 1 }

abbrev pub count_severity : Progress → Progress
count_severity s = record s { severity_count = s.severity_count + 1 }

abbrev pub count_evidence : Progress → Progress
count_evidence s = record s { evidence_count = s.evidence_count + 1 }

-- What follows a group of guards, unless one refuses the finding.
module _ (o : Outside) (changed : Changes) (p : Policy) (i : ℕ) (f : Finding) where
  pub after_duplicates : Option Refusal → Progress → Progress
  unfolding reject accept
  after_duplicates (some r) s = reject o changed r i f s
  after_duplicates none s = accept (fingerprint o.marking f) i f s

  pub after_evidence : Option Refusal → Progress → Progress
  unfolding reject after_duplicates
  after_evidence (some r) s = reject o changed r i f s
  after_evidence none s =
      after_duplicates (first_refusal (duplicate_guards p s.seen (fingerprint o.marking f)))
        (count_evidence s)

  pub after_policy : Option Refusal → Progress → Progress
  unfolding reject after_evidence
  after_policy (some r) s = reject o changed r i f s
  after_policy none s = after_evidence (first_refusal (evidence_guards o f)) (count_severity s)

  pub after_confidence : Option Refusal → Progress → Progress
  unfolding reject after_policy
  after_confidence (some r) s = reject o changed r i f s
  after_confidence none s = after_policy (first_refusal (policy_guards p f)) (count_confidence s)

  pub after_line : Option Refusal → Progress → Progress
  unfolding reject after_confidence
  after_line (some r) s = reject o changed r i f s
  after_line none s = after_confidence (first_refusal (confidence_guards p f)) (count_line f s)

pub after_location : Outside → Changes → Policy → ℕ → Location → Progress → Progress
unfolding reject after_line
after_location o changed p i (misplaced r f) s = reject o changed r i f s
after_location o changed p i (located f) s =
    after_line o changed p i f (first_refusal (line_guards changed f)) (count_file s)

pub after_grounding :
    Outside → Changes → Policy → ℕ → Finding → Option Refusal → Progress → Progress
unfolding reject after_location
after_grounding o changed p i f (some r) s = reject o changed r i f s
after_grounding o changed p i f none s = after_location o changed p i (locate o changed f.scope f) s

-- The guards before the location is looked at.
abbrev pub grounding_guards : Outside → Changes → Finding → List Guard
grounding_guards o changed f =
    relation_guards o changed f ++ causal_guards o changed f ++ scope_guards o changed f

-- A turn of the loop.
pub examine : Outside → Changes → Policy → ℕ → Finding → Progress → Progress
unfolding after_grounding
examine o changed p i f s =
    after_grounding o changed p i f (first_refusal (grounding_guards o changed f)) s

pub examine_all : Outside → Changes → Policy → List (ℕ × Finding) → Progress → Progress
unfolding examine
examine_all o changed p [] s = s
examine_all o changed p ((i, f) ∷ rest) s = examine_all o changed p rest (examine o changed p i f s)

-- `sort` is stable: an element goes before the first one that is not strictly before it.
pub insert_by {ℓ} : {A : Type ℓ} → (A → A → Bool) → A → List A → List A
insert_by before x [] = x ∷ []
insert_by before x (y ∷ rest) =
    let later = insert_by before x rest in if before y x then y ∷ later else x ∷ y ∷ rest

pub sort_by {ℓ} : {A : Type ℓ} → (A → A → Bool) → List A → List A
unfolding insert_by
sort_by before [] = []
sort_by before (x ∷ rest) = insert_by before x (sort_by before rest)

abbrev grounded_weight : Finding → ℕ
grounded_weight f = if is_truthy f.causal_evidence && is_present f.changed_file_anchor then 1 else 0

-- The key of the first sort: severity, confidence and grounding, each from high to low.
pub examined_before : ℕ × Finding → ℕ × Finding → Bool
examined_before (_, a) (_, b) =
    ltb (severity_order b.severity) (severity_order a.severity)
    || (severity_order a.severity == severity_order b.severity
        && (ltb b.confidence a.confidence
            || (a.confidence == b.confidence && ltb (grounded_weight b) (grounded_weight a))))

-- `enumerate(findings, 1)`
pub enumerate : ℕ → List Finding → List (ℕ × Finding)
enumerate i [] = []
enumerate i (f ∷ rest) = (i, f) ∷ enumerate (i + 1) rest

pub examined : Outside → Changes → Policy → List Finding → Progress
unfolding examine_all sort_by enumerate examined_before
examined o changed p findings =
    examine_all o changed p (sort_by examined_before (enumerate 1 findings)) nothing_yet
