-- ===== src/Review/Settings/Fixtures.antt =====
-- A policy for the tests.
use inryeok_bot.Prelude.{pos, true, false, some, [], ◌∷◌}
use inryeok_bot.Review.Catalog.{TextMethods}
use inryeok_bot.Review.Settings.Columns.{EffectiveReviewSettings}

abbrev pub plain_text : TextMethods
plain_text = record { strip = λ s. s; lower = λ s. s; upper = λ s. s; splitlines = λ s. s ∷ [] }

abbrev pub a_policy : EffectiveReviewSettings
a_policy = record {
  enabled = true;
  auto_review_enabled = true;
  command_review_enabled = true;
  language = "ko";
  review_profile = "BALANCED";
  model = some "gpt-5";
  reasoning_effort = "medium";
  max_findings = pos 50;
  minimum_confidence = 800;
  include_low_severity = false;
  minimum_severity = "MEDIUM";
  enabled_categories = [];
  ignored_paths = "docs/notes.md" ∷ [];
  codex_timeout_seconds = 30;
  review_on_opened = true;
  review_on_reopened = true;
  review_on_ready_for_review = true;
  review_on_synchronize = false;
  synchronize_debounce_seconds = 60;
  command_cooldown_seconds = 60;
  review_domain_mode = "AUTO";
  manual_review_domains = "";
  minimum_review_type = "SUGGESTION";
  max_inline_comments = 3;
  allow_suggestions = true;
  allow_questions = true;
  allow_positive_fallback = true;
  allow_suggested_changes = true;
}
