-- ===== src/Failures/Convert/Tests.antt =====
-- A login failure of Codex, a rate limit of GitHub, and a timeout.
use inryeok_bot.Prelude.{
  ◌||◌, ◌&&◌, ℕ, String, Option, ◌≤◌, pos, ◌≡◌, refl, false, not, none, some, [], characters,
}
use inryeok_bot.Jobs.Fixtures.{executing_job}
use inryeok_bot.Failures.Diagnostic.{FitsIn}
use inryeok_bot.Failures.Convert.{
  CodexError, GitHubError, codex_error, github_error, http_timeout, is_never,
  failure_from_exception,
}
use inryeok_bot.Failures.Classify.{failure_kind, kind_error, classify_codex_failure}
use inryeok_bot.Failures.Convert.Classified.{
  speaks_of_limit, speaks_of_service, speaks_of_lasting, classified_failure_retryable,
}
use inryeok_bot.Failures.Convert.Laws.{
  failure_retry_consistent, github_may_recover, github_failure_retryable, failure_bounded,
}

abbrev login_error : CodexError
login_error = record {
  code = "CODEX_AUTH";
  retryable = false;
  retry_at = none;
  signature = "auth-401";
  exit_code = some (pos 1);
  safe_diagnostic = [];
  diagnostic_extraction_failed = false;
  stderr_byte_length = 12;
  correlation_id = some "c1";
  stage = "codex_exec";
}

abbrev rate_limit : GitHubError
rate_limit = record { status_code = 429; category = "GITHUB_RATE_LIMIT" }

failure_retry_consistent_example :
    let f = failure_from_exception http_timeout executing_job in
    f.retryable ≡ not (is_never f.retry_policy)
failure_retry_consistent_example = failure_retry_consistent http_timeout executing_job

github_failure_retryable_example :
    let f = failure_from_exception (github_error rate_limit) executing_job in
    (f.retryable ≡ github_may_recover rate_limit) × (f.http_status ≡ some 429)
github_failure_retryable_example = github_failure_retryable rate_limit executing_job

failure_bounded_example :
    let f = failure_from_exception (codex_error login_error) executing_job in
    (characters f.safe_signature ≤ 64) × FitsIn 128 f.output_field × FitsIn 64 f.validation_type
failure_bounded_example = failure_bounded (codex_error login_error) executing_job

abbrev quota_error : CodexError
quota_error = record login_error { code = "CODEX_QUOTA"; signature = "quota" }

no_time : String → Option ℕ
no_time _ = none

classified_failure_retryable_example :
    (failure_from_exception (codex_error quota_error) executing_job).retryable ≡ (
      speaks_of_limit "usage limit reached"
      || (speaks_of_service "usage limit reached" && not (speaks_of_lasting "usage limit reached")))
unfolding classify_codex_failure failure_kind kind_error
classified_failure_retryable_example =
    classified_failure_retryable no_time "usage limit reached" quota_error executing_job refl refl
