-- ===== src/Review/Settings.antt =====
-- The review policy of a repository: `resolve` of app/review/settings.py.
pub mod Numbers
pub mod Columns
pub mod Fixtures
mod Bounds
mod Permits
mod Laws
mod Tests
use inryeok_bot.Prelude.{
  ℕ, ℤ, pos, String, Bool, true, false, ◌&&◌, ◌||◌, not, Option, none, some, List, [], ◌∷◌, map,
  str_eq, if◌then◌else◌, any, select_where, text_or, or_else, ◌⊎◌, inl, inr,
}
use inryeok_bot.Review.Path.{forward_slashes, split_path}
use inryeok_bot.Review.Catalog.{TextMethods, ModelSpec, is_member, validate_model_effort}
use inryeok_bot.Review.Settings.Numbers.{at_least, at_most, clamp, number_or, int_eq}
use inryeok_bot.Review.Settings.Columns.{
  GlobalReviewSettings, RepositorySettings, Settings, EffectiveReviewSettings,
}

-- Confidences are in thousandths.
pub record ProfileDefaults : Type 0 where
  pub minimum_confidence : ℕ
  pub minimum_severity : String
  pub include_low_severity : Bool
  pub max_findings : ℕ

-- `PROFILE_DEFAULTS`, and whether the profile is one of `ReviewProfile`.
pub profile_defaults : String → Option ProfileDefaults
profile_defaults profile =
    if str_eq profile "CONSERVATIVE"
    then some (record {
      minimum_confidence = 900;
      minimum_severity = "HIGH";
      include_low_severity = false;
      max_findings = 10;
    })
    else if str_eq profile "BALANCED"
    then some (record {
      minimum_confidence = 800;
      minimum_severity = "MEDIUM";
      include_low_severity = false;
      max_findings = 20;
    })
    else if str_eq profile "THOROUGH"
    then some (record {
      minimum_confidence = 800;
      minimum_severity = "LOW";
      include_low_severity = true;
      max_findings = 30;
    })
    else none

-- `choose`
abbrev pub choose {ℓ} : {A : Type ℓ} → Option A → A → A
choose none global_value = global_value
choose (some override) global_value = override

-- `profile_value`, for whether the legacy defaults are in force
abbrev pub profile_value {ℓ} : {A : Type ℓ} → Bool → A → A → A
profile_value legacy profile_default current = if legacy then profile_default else current

-- `value is not False`
abbrev is_not_false : Option Bool → Bool
is_not_false (some false) = false
is_not_false _ = true

-- `value.split(",")` and its like, for a mark that `split` knows
abbrev filled : (String → String) → List String → List String
filled strip values = select_where (λ v. not (str_eq v "")) (map strip values)

abbrev pub languages : List String
languages = "ko" ∷ "en" ∷ []

abbrev pub severities : List String
severities = "CRITICAL" ∷ "HIGH" ∷ "MEDIUM" ∷ "LOW" ∷ []

abbrev pub domain_modes : List String
domain_modes = "AUTO" ∷ "MANUAL" ∷ []

-- `value.startswith(("/", "\\")) or ".." in value.replace("\\", "/").split("/")`: after the
-- replacement, a value that starts with either mark is one whose first part is empty, unless it is
-- empty itself.
abbrev starts_empty : List String → Bool
starts_empty (first ∷ second ∷ rest) = str_eq first ""
starts_empty _ = false

abbrev pub leaves_repository : String → Bool
leaves_repository value =
    let parts = split_path (forward_slashes value) in starts_empty parts || is_member ".." parts

module _ (text : TextMethods) (split_commas : String → List String) where
  -- The message of the error, or the patterns.
  pub validate_paths : String → String ⊎ List String
  validate_paths patterns =
      let values = filled text.strip (text.splitlines patterns) in
      if any leaves_repository values
      then inl "ignore path must stay within the repository"
      else inr values

  pub validate_choice : String → String → Option String → String → List ModelSpec → Option String
  unfolding profile_defaults
  validate_choice language profile model effort catalog =
      if not (is_member language languages)
      then some "unsupported language"
      else if not (is_member profile ("CONSERVATIVE" ∷ "BALANCED" ∷ "THOROUGH" ∷ []))
      then some "unsupported review profile"
      else validate_model_effort text model effort catalog

  -- Whether the thresholds of the global row count as inherited from the profile.
  pub legacy_defaults : Option Bool → GlobalReviewSettings → Bool
  legacy_defaults inherited g = choose inherited (
      choose g.profile_defaults_inherited (
        (elim g.minimum_confidence [ none ↦ true | some c ↦ int_eq c (pos 900) ])
        && str_eq (text.upper (text_or g.minimum_severity "MEDIUM")) "MEDIUM"
        && int_eq (number_or g.max_findings 10) (pos 10)
        && not (choose g.include_low_severity false)))

  -- The policy, once the checks before it have passed.
  pub effective :
      GlobalReviewSettings
      → RepositorySettings
      → Settings
      → Bool
      → ProfileDefaults
      → String
      → List String
      → EffectiveReviewSettings
  effective g r s legacy p minimum_severity paths = record {
    enabled = choose r.override_enabled g.enabled && r.enabled && r.installed;
    auto_review_enabled =
        choose r.override_auto_review_enabled g.auto_review_enabled && r.auto_review;
    command_review_enabled = choose r.override_command_review_enabled g.command_review_enabled;
    language = choose r.override_language (text_or g.language s.default_review_language);
    review_profile =
        choose r.override_review_profile (text_or g.review_profile s.default_review_profile);
    model = or_else r.override_model g.model;
    reasoning_effort = choose r.override_reasoning_effort (text_or g.reasoning_effort "medium");
    max_findings = at_most 50 (
        choose r.override_max_findings
          (profile_value legacy (pos p.max_findings) (number_or g.max_findings 10)));
    minimum_confidence = at_least 800 (
        choose r.override_minimum_confidence
          (profile_value legacy (pos p.minimum_confidence) (number_or g.minimum_confidence 900)));
    include_low_severity =
        choose r.override_include_low_severity
          (profile_value legacy p.include_low_severity (choose g.include_low_severity false));
    minimum_severity = minimum_severity;
    enabled_categories = map text.upper (
        filled text.strip
          (split_commas (choose r.override_enabled_categories (text_or g.enabled_categories ""))));
    ignored_paths = paths;
    codex_timeout_seconds = clamp 30 3600 (
        choose r.override_timeout_seconds
          (number_or g.codex_timeout_seconds s.review_timeout_seconds));
    review_on_opened = choose r.override_review_on_opened g.review_on_opened;
    review_on_reopened = choose r.override_review_on_reopened g.review_on_reopened;
    review_on_ready_for_review =
        choose r.override_review_on_ready_for_review g.review_on_ready_for_review;
    review_on_synchronize = false;
    synchronize_debounce_seconds = clamp 0 3600 (
        choose r.override_synchronize_debounce_seconds
          (number_or g.synchronize_debounce_seconds 60));
    command_cooldown_seconds =
        clamp 0 3600
          (choose r.override_command_cooldown_seconds (number_or g.command_cooldown_seconds 60));
    review_domain_mode = choose r.override_review_domain_mode (text_or g.review_domain_mode "AUTO");
    manual_review_domains =
        choose r.override_manual_review_domains (text_or g.manual_review_domains "");
    minimum_review_type =
        text.upper
          (choose r.override_minimum_review_type (text_or g.minimum_review_type "SUGGESTION"));
    max_inline_comments =
        clamp 1 3 (choose r.override_max_inline_comments (number_or g.max_inline_comments 3));
    allow_suggestions = choose r.override_allow_suggestions (is_not_false g.allow_suggestions);
    allow_questions = choose r.override_allow_questions (is_not_false g.allow_questions);
    allow_positive_fallback =
        choose r.override_allow_positive_fallback (is_not_false g.allow_positive_fallback);
    allow_suggested_changes =
        choose r.override_allow_suggested_changes (is_not_false g.allow_suggested_changes);
  }

  -- The end of `resolve`, with what `validate_paths` gives.
  pub with_paths :
      GlobalReviewSettings
      → RepositorySettings
      → Settings
      → Bool
      → ProfileDefaults
      → String
      → String ⊎ List String
      → String ⊎ EffectiveReviewSettings
  with_paths g r s legacy p severity (inl message) = inl message
  with_paths g r s legacy p severity (inr paths) = inr (effective g r s legacy p severity paths)

  abbrev pub chosen_severity :
      GlobalReviewSettings → RepositorySettings → Bool → ProfileDefaults → String
  chosen_severity g r legacy p = text.upper (
      choose r.override_minimum_severity
        (profile_value legacy p.minimum_severity (text_or g.minimum_severity "MEDIUM")))

  -- The tests from the severity on. A profile that passed `validate_choice` has its defaults.
  pub resolve_profile :
      GlobalReviewSettings
      → RepositorySettings
      → Settings
      → Option Bool
      → Option ProfileDefaults
      → String ⊎ EffectiveReviewSettings
  unfolding legacy_defaults with_paths
  resolve_profile g r s inherited none = inl "unsupported review profile"
  resolve_profile g r s inherited (some p) =
      let legacy = legacy_defaults inherited g in
      let severity = chosen_severity g r legacy p in
      let mode = choose r.override_review_domain_mode (text_or g.review_domain_mode "AUTO") in
      let patterns = choose r.override_ignored_paths (text_or g.ignored_paths "") in
      if not (is_member severity severities)
      then inl "unsupported minimum severity"
      else if not (is_member mode domain_modes)
      then inl "unsupported review domain mode"
      else with_paths g r s legacy p severity (validate_paths patterns)

  pub after_choice :
      Option String
      → GlobalReviewSettings
      → RepositorySettings
      → Settings
      → Option Bool
      → String ⊎ EffectiveReviewSettings
  unfolding resolve_profile
  after_choice (some message) g r s inherited = inl message
  after_choice none g r s inherited = resolve_profile g r s inherited (
      profile_defaults
        (choose r.override_review_profile (text_or g.review_profile s.default_review_profile)))

  -- `resolve`: the message of the error, or the policy.
  pub resolve :
      GlobalReviewSettings
      → RepositorySettings
      → Settings
      → Option Bool
      → List ModelSpec
      → String ⊎ EffectiveReviewSettings
  unfolding after_choice
  resolve g r s inherited catalog =
      let language = choose r.override_language (text_or g.language s.default_review_language) in
      let profile =
        choose r.override_review_profile (text_or g.review_profile s.default_review_profile) in
      let model = or_else r.override_model g.model in
      let effort = choose r.override_reasoning_effort (text_or g.reasoning_effort "medium") in
      after_choice (validate_choice language profile model effort catalog) g r s inherited
