-- ===== src/Executor/Run.antt =====
-- `_run_review` of app/codex/executor.py: the answer to one execution, and the process count.
use inryeok_bot.Prelude.{ℕ, String, Bool, false, ◌||◌, Option, none, some, if◌then◌else◌, str_eq}
use inryeok_bot.Failures.Convert.{CodexError}
use inryeok_bot.Failures.Diagnostic.{normalize_schema_diagnostic}
use inryeok_bot.Executor.{Content, Answer, answered, refused, raised}

-- What happens to the archive and the process, with `last_process_count` of the runner.
pub data Attempt : Type 0 where
  unsafe_archive broken_archive : Attempt
  produced : String → Option ℕ → Attempt
  codex_failed : CodexError → Option ℕ → Attempt
  crashed : Option ℕ → Attempt

-- The statuses by code.
unfoldable pub error_status : String → ℕ
error_status code =
    if str_eq code "CODEX_AUTH"
    then 401
    else if str_eq code "CODEX_QUOTA"
    then 429
    else if str_eq code "CODEX_RATE_LIMIT"
    then 429
    else if str_eq code "CODEX_TIMEOUT"
    then 504
    else if str_eq code "CODEX_SERVICE_UNAVAILABLE"
    then 503
    else 500

abbrev pub is_schema_error : String → Bool
is_schema_error code = str_eq code "CODEX_OUTPUT_SCHEMA_MISMATCH" || str_eq code "SCHEMA_ERROR"

-- The body of the answer to a `CodexError`.
unfoldable pub error_content : String → CodexError → Content
error_content correlation e =
    let schema = is_schema_error e.code in
    let normal = normalize_schema_diagnostic e.safe_diagnostic in
    record {
      error_code = some e.code;
      retryable = some e.retryable;
      matched_safe_signature = some e.signature;
      exit_code = e.exit_code;
      stderr_byte_length = some e.stderr_byte_length;
      safe_diagnostic = some (if schema then normal.0 else e.safe_diagnostic);
      diagnostic_extraction_failed = some (
          if schema
          then e.diagnostic_extraction_failed || normal.1
          else e.diagnostic_extraction_failed);
      correlation_id = some correlation;
      stage = some "codex_exec";
    }

abbrev internal_content : String → Content
internal_content correlation = record {
  error_code = some "EXECUTOR_INTERNAL";
  retryable = some false;
  matched_safe_signature = some "internal";
  exit_code = none;
  stderr_byte_length = none;
  safe_diagnostic = none;
  diagnostic_extraction_failed = none;
  correlation_id = some correlation;
  stage = some "internal";
}

-- An archive that cannot be opened raises an exception that nothing here catches.
unfoldable pub run_review : String → Attempt → Answer × Option ℕ
unfolding error_status
run_review correlation unsafe_archive = (raised 413, none)
run_review correlation broken_archive = (raised 500, none)
run_review correlation (produced result count) = (answered result, count)
run_review correlation (codex_failed e count) =
    (refused (error_status e.code) (error_content correlation e), count)
run_review correlation (crashed count) = (refused 500 (internal_content correlation), count)
