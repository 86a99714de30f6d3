-- ===== src/Review/Settings/Bounds.antt =====
-- The bounds of a policy, and what a repository must allow for it.
use inryeok_bot.Prelude.{ℕ, ◌≤◌, ℤ, pos, negsuc, true, false, ◌&&◌, not, ◌≡◌, All}
use inryeok_bot.Review.Catalog.{is_member}
use inryeok_bot.Review.Settings.Columns.{RepositorySettings, Settings, EffectiveReviewSettings}
use inryeok_bot.Review.Settings.{severities, domain_modes, leaves_repository}

abbrev pub AtMost : ℕ → ℤ → Type 0
AtMost high (pos n) = n ≤ high
AtMost high (negsuc n) = Unit

-- The limits of a policy, and the switches of the repository that it needs.
pub record Bounded (r : RepositorySettings) (e : EffectiveReviewSettings) : Type 0 where
  pub findings : AtMost 50 e.max_findings
  pub confidence : 800 ≤ e.minimum_confidence
  pub timeout : (30 ≤ e.codex_timeout_seconds) × (e.codex_timeout_seconds ≤ 3600)
  pub debounce : e.synchronize_debounce_seconds ≤ 3600
  pub cooldown : e.command_cooldown_seconds ≤ 3600
  pub inline : (1 ≤ e.max_inline_comments) × (e.max_inline_comments ≤ 3)
  pub severity : is_member e.minimum_severity severities ≡ true
  pub mode : is_member e.review_domain_mode domain_modes ≡ true
  pub paths : All (λ v. leaves_repository v ≡ false) e.ignored_paths
  pub switched_on : (e.enabled && not (r.enabled && r.installed)) ≡ false
  pub automatic : (e.auto_review_enabled && not r.auto_review) ≡ false
  pub no_push_review : e.review_on_synchronize ≡ false
