-- ===== src/Review/Settings/Tests.antt =====
-- Witnesses of the review policy.
use inryeok_bot.Prelude.{pos, negsuc, String, true, none, some, List, [], ◌∷◌, ◌≡◌, refl, inr}
use inryeok_bot.Review.Path.{forward_slashes, split_path}
use inryeok_bot.Review.Catalog.{
  ModelSpec, selectable, is_model_id, normalize_model, check_spec, check_model,
  validate_model_effort,
}
use inryeok_bot.Review.Catalog.Laws.{Permitted}
use inryeok_bot.Review.Settings.Columns.{GlobalReviewSettings, RepositorySettings, Settings}
use inryeok_bot.Review.Settings.{
  profile_defaults, validate_paths, validate_choice, legacy_defaults, effective, with_paths,
  resolve_profile, after_choice, resolve,
}
use inryeok_bot.Review.Settings.Fixtures.{plain_text, a_policy}
use inryeok_bot.Review.Settings.Permits.{resolve-Permitted}

abbrev pub global_row : GlobalReviewSettings
global_row = record {
  enabled = true;
  auto_review_enabled = true;
  command_review_enabled = true;
  language = none;
  review_profile = none;
  profile_defaults_inherited = none;
  model = none;
  reasoning_effort = none;
  max_findings = none;
  minimum_confidence = none;
  include_low_severity = none;
  minimum_severity = none;
  enabled_categories = none;
  ignored_paths = none;
  review_on_opened = true;
  review_on_reopened = true;
  review_on_ready_for_review = true;
  synchronize_debounce_seconds = none;
  command_cooldown_seconds = none;
  codex_timeout_seconds = none;
  review_domain_mode = none;
  manual_review_domains = none;
  minimum_review_type = none;
  max_inline_comments = none;
  allow_suggestions = none;
  allow_questions = none;
  allow_positive_fallback = none;
  allow_suggested_changes = none;
}

abbrev pub repository_row : RepositorySettings
repository_row = record {
  enabled = true;
  installed = true;
  auto_review = true;
  override_enabled = none;
  override_auto_review_enabled = none;
  override_command_review_enabled = none;
  override_language = none;
  override_review_profile = none;
  override_model = none;
  override_reasoning_effort = none;
  override_max_findings = none;
  override_minimum_confidence = none;
  override_include_low_severity = none;
  override_ignored_paths = none;
  override_timeout_seconds = none;
  override_minimum_severity = none;
  override_enabled_categories = none;
  override_review_on_opened = none;
  override_review_on_reopened = none;
  override_review_on_ready_for_review = none;
  override_review_on_synchronize = none;
  override_synchronize_debounce_seconds = none;
  override_command_cooldown_seconds = none;
  override_review_domain_mode = none;
  override_manual_review_domains = none;
  override_minimum_review_type = none;
  override_max_inline_comments = none;
  override_allow_suggestions = none;
  override_allow_questions = none;
  override_allow_positive_fallback = none;
  override_allow_suggested_changes = none;
}

abbrev one_value : String → List String
one_value s = s ∷ []

abbrev environment : Settings
environment = record {
  default_review_language = "ko";
  default_review_profile = "BALANCED";
  review_timeout_seconds = 900;
}

abbrev a_repository : RepositorySettings
a_repository = record repository_row {
  override_model = some "gpt-5";
  override_timeout_seconds = some (negsuc 4);
  override_max_findings = some (pos 900);
  override_ignored_paths = some "docs/notes.md";
}

abbrev a_catalog : List ModelSpec
a_catalog =
    record {
      model_id = "gpt-5";
      supported_efforts = "low" ∷ "medium" ∷ [];
      enabled = true;
      availability_status = "VERIFIED";
      version = "1";
      verification_id = some "v1";
    }
    ∷ []

a_policy_resolved :
    resolve plain_text one_value global_row a_repository environment none a_catalog ≡ inr a_policy
unfolding resolve after_choice resolve_profile with_paths effective legacy_defaults validate_choice
    validate_paths profile_defaults validate_model_effort check_model check_spec normalize_model
    is_model_id selectable forward_slashes split_path
a_policy_resolved = refl

resolve-Permitted_example : Permitted plain_text a_catalog "gpt-5" "medium"
unfolding normalize_model
resolve-Permitted_example =
    resolve-Permitted plain_text one_value global_row a_repository environment none a_catalog
      a_policy "gpt-5" a_policy_resolved refl
