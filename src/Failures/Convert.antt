-- ===== src/Failures/Convert.antt =====
-- `failure_from_exception` of app/review/failures.py, on the exceptions that the worker catches.
pub mod Tests
pub mod Laws
mod Classified
use Prim.Native.String.{◌++◌ as text_append}
use inryeok_bot.Prelude.{
  ◌≡◌, not, ℕ, ℤ, String, Bool, true, false, ◌&&◌, ◌||◌, Option, none, some, List, ltb, leb, ◌==◌,
  str_eq, if◌then◌else◌, or_else, is_present, text_prefix, text_or, is_truthy,
}
use inryeok_bot.Jobs.Model.{ReviewJob}
use inryeok_bot.Failures.{
  FailureCategory, RetryPolicy, never, delayed, Defaults, schema_code, messages, unexpected_message,
  defaults,
}
use inryeok_bot.Failures.Diagnostic.{normalize_schema_diagnostic, diagnostic_parts}

-- `CodexError` of app/codex/runner.py.
pub record CodexError : Type 0 where
  pub code : String
  pub retryable : Bool
  pub retry_at : Option ℕ
  pub signature : String
  pub exit_code : Option ℤ
  pub safe_diagnostic : List String
  pub diagnostic_extraction_failed : Bool
  pub stderr_byte_length : ℕ
  pub correlation_id : Option String
  pub stage : String

-- `GitHubAPIError` of app/github/client.py.
pub record GitHubError : Type 0 where
  pub status_code : ℕ
  pub category : String

-- The codes for which the last `else` of `failure_from_exception`, which sets the details anew, is
-- not reached.
abbrev pub keeps_details : String → Bool
keeps_details code =
    str_eq code "CODEX_OUTPUT_SCHEMA_MISMATCH"
    || str_eq code "SCHEMA_ERROR"
    || str_eq code "OUTPUT_MODEL_VALIDATION_FAILED"
    || str_eq code "CODEX_OUTPUT_INVALID_JSON"

abbrev pub binds_details : Option String → Bool
binds_details none = true
binds_details (some code) = not (keeps_details code)

-- The exceptions, by the class that the code asks for. Any other may carry a `code` or a `category`.
-- With one of the four codes above it would leave the details unbound, and the function would raise
-- UnboundLocalError: no class of the program but `CodexError` has a `code`, and the constructor
-- takes the other codes only.
pub data Failing : Type 0 where
  codex_error : CodexError → Failing
  github_error : GitHubError → Failing
  http_timeout http_network diff_error : Failing
  other_error : (code category : Option String) → binds_details code ≡ true → Failing

-- `ReviewFailure`, without `repository_id`, `occurred_at` and `safe_metadata`, which nothing reads.
pub record ReviewFailure : Type 0 where
  pub error_code : String
  pub category : FailureCategory
  pub stage : String
  pub retryable : Bool
  pub retry_policy : RetryPolicy
  pub user_action_required : Bool
  pub user_message_ko : String
  pub operator_message_ko : String
  pub safe_signature : String
  pub correlation_id : Option String
  pub execution_id : Option String
  pub job_id : Option ℕ
  pub installation_id : Option ℕ
  pub pr_number : Option ℕ
  pub attempt : Option ℕ
  pub http_status : Option ℕ
  pub process_exit_code : Option ℤ
  pub output_field : Option String
  pub validation_type : Option String
  pub diagnostic_extraction_failed : Bool

-- The code of a failed GitHub request.
pub github_code : GitHubError → String
github_code e =
    if e.status_code == 401
    then "GITHUB_AUTH_FAILED"
    else if e.status_code == 403
    then (if str_eq e.category "GITHUB_RATE_LIMIT"
        then "GITHUB_RATE_LIMITED"
        else "GITHUB_PERMISSION_DENIED")
    else if e.status_code == 404
    then "GITHUB_RESOURCE_NOT_FOUND"
    else if e.status_code == 422
    then "GITHUB_VALIDATION_FAILED"
    else if (e.status_code == 429) || str_eq e.category "GITHUB_RATE_LIMIT"
    then "GITHUB_RATE_LIMITED"
    else if leb 500 e.status_code
    then "GITHUB_SERVICE_UNAVAILABLE"
    else "GITHUB_UNKNOWN_RESPONSE"

-- `code` after the chain of tests on the class.
pub exception_code : Failing → String
unfolding github_code
exception_code (codex_error e) = text_or (some e.code) "UNEXPECTED_INTERNAL_ERROR"
exception_code (github_error e) = github_code e
exception_code http_timeout = "EXECUTOR_TIMEOUT"
exception_code http_network = "EXECUTOR_UNAVAILABLE"
exception_code diff_error = "UNEXPECTED_INTERNAL_ERROR"
exception_code (other_error code category bound) = text_or code "UNEXPECTED_INTERNAL_ERROR"

abbrev exception_status : Failing → Option ℕ
exception_status (github_error e) = some e.status_code
exception_status _ = none

-- `getattr(exc, "category", code)`
abbrev pub exception_category : Failing → String → String
exception_category (github_error e) code = e.category
exception_category (other_error _ (some category) _) code = category
exception_category _ code = code

-- The local variables that the two chains of assignments fill.
pub record Details : Type 0 where
  pub stage : String
  pub retryable : Bool
  pub retry_policy : RetryPolicy
  pub diagnostic_failed : Bool
  pub output_field : Option String
  pub validation_type : Option String
  pub signature : String
  pub exit_code : Option ℤ
  pub correlation : Option String

abbrev pub is_never : RetryPolicy → Bool
is_never never = true
is_never _ = false

-- The `isinstance(exc, CodexError)` block.
pub codex_details : CodexError → String → Defaults → Details
codex_details e code d =
    let schema = is_present (schema_code code) in
    let normal = normalize_schema_diagnostic e.safe_diagnostic in
    let parts = diagnostic_parts (if schema then normal.0 else e.safe_diagnostic) in
    let raised = e.retryable && is_never d.retry_policy in
    record {
      stage = e.stage;
      retryable = if raised then true else d.retryable;
      retry_policy = if raised then delayed else d.retry_policy;
      diagnostic_failed = e.diagnostic_extraction_failed || schema && normal.1;
      output_field = parts.0;
      validation_type = parts.1;
      signature = text_prefix 64 e.signature;
      exit_code = e.exit_code;
      correlation = e.correlation_id;
    }

-- The final `else`: it belongs to the chain on the code, so it overwrites what the block above set.
abbrev pub without_details : Failing → String → Details → Details
without_details exc code d = record d {
  output_field = none;
  validation_type = none;
  signature = text_prefix 64 (exception_category exc code);
  exit_code = none;
  correlation = none;
}

-- The chain on the code.
pub final_details : Failing → String → Details → Details
final_details exc code d =
    if str_eq code "CODEX_OUTPUT_SCHEMA_MISMATCH" || str_eq code "SCHEMA_ERROR"
    then record d { stage = "output_schema" }
    else if str_eq code "OUTPUT_MODEL_VALIDATION_FAILED"
    then record d { stage = "output_model_validation" }
    else if str_eq code "CODEX_OUTPUT_INVALID_JSON"
    then record d { stage = "output_extract" }
    else without_details exc code d

-- Without the block nothing is set. The fields that Python leaves unbound are empty here: the last
-- `else` sets them for every exception but a `CodexError`.
abbrev plain_details : Defaults → Details
plain_details d = record {
  stage = d.stage;
  retryable = d.retryable;
  retry_policy = d.retry_policy;
  diagnostic_failed = false;
  output_field = none;
  validation_type = none;
  signature = "";
  exit_code = none;
  correlation = none;
}

pub exception_details : Failing → String → Defaults → Details
unfolding codex_details
exception_details (codex_error e) code d = codex_details e code d
exception_details _ code d = plain_details d

abbrev operator_message : String → String
operator_message code = text_append code " 단계에서 처리에 실패했습니다. 원본 예외는 보안 정책에 따라 저장하지 않았습니다."

abbrev get_or {ℓ} : {A : Type ℓ} → Option A → A → A
get_or none d = d
get_or (some a) d = a

-- The failure of an exception, for a job.
pub failure_from_exception : Failing → ReviewJob → ReviewFailure
failure_from_exception exc job =
    let code = exception_code exc in
    let d = defaults code in
    let details = final_details exc code (exception_details exc code d) in
    let public_code = get_or (schema_code code) code in
    record {
      error_code = public_code;
      category = d.category;
      stage = details.stage;
      retryable = details.retryable;
      retry_policy = details.retry_policy;
      user_action_required = d.action;
      user_message_ko = get_or (messages public_code) (get_or (messages code) unexpected_message);
      operator_message_ko = operator_message public_code;
      safe_signature = details.signature;
      correlation_id =
          if is_truthy details.correlation then details.correlation else job.failure.correlation_id;
      execution_id = job.execution_id;
      job_id = some job.id;
      installation_id = some job.key.installation_id;
      pr_number = some job.key.pull_request_number;
      attempt = some job.attempts;
      http_status = exception_status exc;
      process_exit_code = details.exit_code;
      output_field = details.output_field;
      validation_type = details.validation_type;
      diagnostic_extraction_failed = details.diagnostic_failed;
    }
