-- ===== src/Failures/Classify.antt =====
-- `classify_codex_failure` of app/codex/runner.py: which failure the output of the process is.
use text.Mathlib.Text.{find?}
use inryeok_bot.Prelude.{
  ℕ, String, Bool, true, false, Option, none, List, [], ◌∷◌, any, is_present, if◌then◌else◌,
}
use inryeok_bot.Failures.Convert.{CodexError}

-- The branches of the function, in their order.
pub data Kind : Type 0 where
  rate_limit quota authentication permission_denied configuration repository schema sandbox
        service_unavailable unknown_nonzero :
      Kind

abbrev pub mentions : String → List String → Bool
mentions text values = any (λ value. is_present (find? text value)) values

-- `text` is what `_error_text` makes of the output.
unfoldable pub failure_kind : String → Kind
failure_kind text =
    if mentions text ("rate limit" ∷ "too many requests" ∷ "http 429" ∷ "status 429" ∷ [])
    then rate_limit
    else if mentions text (
        "usage limit" ∷ "usage quota" ∷ "quota exceeded" ∷ "plan limit" ∷ "monthly limit"
        ∷ "credit balance" ∷ [])
    then quota
    else if mentions text (
        "not logged in" ∷ "login required" ∷ "authentication" ∷ "unauthorized" ∷ "session expired"
        ∷ "invalid api key" ∷ [])
    then authentication
    else if mentions text ("permission denied" ∷ "operation not permitted" ∷ [])
    then permission_denied
    else if mentions text
        ("unsupported option" ∷ "unknown option" ∷ "unexpected argument" ∷ "invalid config" ∷ [])
    then configuration
    else if mentions text ("not a git repository" ∷ "repository check" ∷ "fatal: not a git" ∷ [])
    then repository
    else if mentions text ("schema" ∷ "invalid json" ∷ "json parse" ∷ "structured output" ∷ [])
    then schema
    else if mentions text
        ("bwrap" ∷ "bubblewrap" ∷ "user namespace" ∷ "pivot_root" ∷ "sandbox" ∷ [])
    then sandbox
    else if mentions text (
        "service unavailable" ∷ "temporarily unavailable" ∷ "internal server error" ∷ "http 502"
        ∷ "http 503" ∷ "http 504" ∷ "connection reset" ∷ [])
    then service_unavailable
    else unknown_nonzero

abbrev coded : String → Bool → Option ℕ → String → CodexError
coded code retryable retry_at signature = record {
  code = code;
  retryable = retryable;
  retry_at = retry_at;
  signature = signature;
  exit_code = none;
  safe_diagnostic = [];
  diagnostic_extraction_failed = false;
  stderr_byte_length = 0;
  correlation_id = none;
  stage = "codex_exec";
}

-- The error of a branch. `retry_at` is what `_retry_at` reads from the text.
unfoldable pub kind_error : Option ℕ → Kind → CodexError
kind_error retry_at rate_limit = coded "CODEX_RATE_LIMIT" true retry_at "rate_limit"
kind_error retry_at quota = coded "CODEX_QUOTA" false retry_at "quota"
kind_error retry_at authentication = coded "CODEX_AUTH" false none "authentication"
kind_error retry_at permission_denied = coded "FILE_PERMISSION_ERROR" false none "permission_denied"
kind_error retry_at configuration = coded "CLI_ARGUMENT_ERROR" false none "configuration"
kind_error retry_at repository = coded "GIT_REPOSITORY_ERROR" false none "repository"
kind_error retry_at schema = coded "SCHEMA_ERROR" false none "schema"
kind_error retry_at sandbox = coded "SANDBOX_START_ERROR" false none "sandbox"
kind_error retry_at service_unavailable =
    coded "CODEX_SERVICE_UNAVAILABLE" true none "service_unavailable"
kind_error retry_at unknown_nonzero = coded "CODEX_EXIT_NONZERO" false none "unknown_nonzero"

unfoldable pub classify_codex_failure : (String → Option ℕ) → String → CodexError
unfolding failure_kind kind_error
classify_codex_failure retry_time text = kind_error (retry_time text) (failure_kind text)
