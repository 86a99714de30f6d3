-- ===== src/Review/Settings/Columns.antt =====
-- The rows that the policy is resolved from, and the policy: app/jobs/models.py and
-- app/review/settings.py. Confidences are in thousandths.
use inryeok_bot.Prelude.{ℕ, ℤ, String, Bool, Option, List}

-- The columns of `GlobalReviewSettings` that the policy depends on.
pub record GlobalReviewSettings : Type 0 where
  pub enabled : Bool
  pub auto_review_enabled : Bool
  pub command_review_enabled : Bool
  pub language : Option String
  pub review_profile : Option String
  pub profile_defaults_inherited : Option Bool
  pub model : Option String
  pub reasoning_effort : Option String
  pub max_findings : Option ℤ
  pub minimum_confidence : Option ℤ
  pub include_low_severity : Option Bool
  pub minimum_severity : Option String
  pub enabled_categories : Option String
  pub ignored_paths : Option String
  pub review_on_opened : Bool
  pub review_on_reopened : Bool
  pub review_on_ready_for_review : Bool
  pub synchronize_debounce_seconds : Option ℤ
  pub command_cooldown_seconds : Option ℤ
  pub codex_timeout_seconds : Option ℤ
  pub review_domain_mode : Option String
  pub manual_review_domains : Option String
  pub minimum_review_type : Option String
  pub max_inline_comments : Option ℤ
  pub allow_suggestions : Option Bool
  pub allow_questions : Option Bool
  pub allow_positive_fallback : Option Bool
  pub allow_suggested_changes : Option Bool

-- The columns of `RepositorySettings` that the policy depends on.
pub record RepositorySettings : Type 0 where
  pub enabled : Bool
  pub installed : Bool
  pub auto_review : Bool
  pub override_enabled : Option Bool
  pub override_auto_review_enabled : Option Bool
  pub override_command_review_enabled : Option Bool
  pub override_language : Option String
  pub override_review_profile : Option String
  pub override_model : Option String
  pub override_reasoning_effort : Option String
  pub override_max_findings : Option ℤ
  pub override_minimum_confidence : Option ℤ
  pub override_include_low_severity : Option Bool
  pub override_ignored_paths : Option String
  pub override_timeout_seconds : Option ℤ
  pub override_minimum_severity : Option String
  pub override_enabled_categories : Option String
  pub override_review_on_opened : Option Bool
  pub override_review_on_reopened : Option Bool
  pub override_review_on_ready_for_review : Option Bool
  pub override_review_on_synchronize : Option Bool
  pub override_synchronize_debounce_seconds : Option ℤ
  pub override_command_cooldown_seconds : Option ℤ
  pub override_review_domain_mode : Option String
  pub override_manual_review_domains : Option String
  pub override_minimum_review_type : Option String
  pub override_max_inline_comments : Option ℤ
  pub override_allow_suggestions : Option Bool
  pub override_allow_questions : Option Bool
  pub override_allow_positive_fallback : Option Bool
  pub override_allow_suggested_changes : Option Bool

-- `Settings`: the defaults of the environment.
pub record Settings : Type 0 where
  pub default_review_language : String
  pub default_review_profile : String
  pub review_timeout_seconds : ℕ

-- `EffectiveReviewSettings`
pub record EffectiveReviewSettings : Type 0 where
  pub enabled : Bool
  pub auto_review_enabled : Bool
  pub command_review_enabled : Bool
  pub language : String
  pub review_profile : String
  pub model : Option String
  pub reasoning_effort : String
  pub max_findings : ℤ
  pub minimum_confidence : ℕ
  pub include_low_severity : Bool
  pub minimum_severity : String
  pub enabled_categories : List String
  pub ignored_paths : List String
  pub codex_timeout_seconds : ℕ
  pub review_on_opened : Bool
  pub review_on_reopened : Bool
  pub review_on_ready_for_review : Bool
  pub review_on_synchronize : Bool
  pub synchronize_debounce_seconds : ℕ
  pub command_cooldown_seconds : ℕ
  pub review_domain_mode : String
  pub manual_review_domains : String
  pub minimum_review_type : String
  pub max_inline_comments : ℕ
  pub allow_suggestions : Bool
  pub allow_questions : Bool
  pub allow_positive_fallback : Bool
  pub allow_suggested_changes : Bool
