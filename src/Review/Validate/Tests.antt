-- ===== src/Review/Validate/Tests.antt =====
-- A finding on an added line, and one beside it.
use inryeok_bot.Prelude.{ℕ, ◌≤◌, String, true, false, none, some, List, [], ◌∷◌, count_where, All}
use inryeok_bot.Review.Finding.{
  Finding, line_scope, bug, high, low, must_fix, Changes, is_line, is_positive,
}
use inryeok_bot.Review.Validate.{Outside, Policy}
use inryeok_bot.Review.Validate.Loop.{examined}
use inryeok_bot.Review.Validate.Loop.Accepted.{Sound, marks, Distinct}
use inryeok_bot.Review.Validate.Loop.Located.{accepted-Distinct}
use inryeok_bot.Review.Validate.Limit.{validate_findings_with_diagnostics}
use inryeok_bot.Review.Validate.Limit.Budget.{published_bounds}
use inryeok_bot.Review.Validate.Limit.Published.{published-Sound}

abbrev outside : Outside
outside = record {
  text = record {
    casefold = λ s. s;
    strip = λ s. s;
    lstrip = λ s. s;
    blank_out = λ value s. s;
    causal_words = λ _. 4;
    split_words = λ _. 4;
    split_lines = λ _. 1;
  };
  marking = record {
    sha256 = λ s. s;
    lower = λ s. s;
    strip = λ s. s;
    collapse_spaces = λ s. s;
    decimal = λ _. "1";
  };
}

abbrev policy : Policy
policy = record {
  min_confidence = 700;
  include_low = false;
  max_findings = 5;
  existing_fingerprints = [];
  minimum_severity = low;
  enabled_categories = [];
  review_profile = "BALANCED";
  max_inline_comments = none;
  minimum_review_type = must_fix;
  allow_suggestions = true;
  allow_questions = true;
  allow_positive_fallback = true;
}

abbrev changes : Changes
changes = ("app/a.py", record { path = "app/a.py"; added_lines = 3 ∷ 4 ∷ [] }) ∷ []

abbrev on_line : ℕ → String → Finding
on_line n title = record {
  scope = line_scope;
  path = some "app/a.py";
  line = some n;
  on_right_side = true;
  review_type = must_fix;
  category = bug;
  severity = high;
  confidence = 900;
  title = title;
  body = "an index is off by one";
  condition = none;
  impact = none;
  evidence = none;
  suggested_fix = none;
  relation_to_change = none;
  introduced_by_pr = none;
  changed_symbol = none;
  causal_evidence = none;
  changed_file_anchor = none;
  defect_identity = none;
  causal_chain = none;
  why_it_matters = none;
  suggested_action = none;
  suggested_patch = none;
}

abbrev findings : List Finding
findings = on_line 3 "added" ∷ on_line 9 "elsewhere" ∷ []

published-Sound_example :
    All
      (Sound outside changes policy)
      (validate_findings_with_diagnostics outside changes policy findings).findings
published-Sound_example = published-Sound outside changes policy findings

published_bounds_example :
    let published = (validate_findings_with_diagnostics outside changes policy findings).findings in
    (count_where (λ f. is_line f.scope) published ≤ 5)
    × (count_where (λ f. is_positive f.review_type) published ≤ 1)
published_bounds_example = published_bounds outside changes policy findings

accepted-Distinct_example :
    Distinct (marks outside (examined outside changes policy findings).accepted [])
accepted-Distinct_example = accepted-Distinct outside changes policy findings
