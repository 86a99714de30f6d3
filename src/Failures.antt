-- ===== src/Failures.antt =====
-- The failure contracts of app/review/failures.py: categories, the table of defaults by code, and
-- the texts that a user reads.
pub mod Diagnostic
pub mod Convert
pub mod Classify
use text.Mathlib.Text.{starts_with}
use inryeok_bot.Prelude.{
  is_present, ℕ, ℤ, String, Bool, true, false, ◌||◌, Option, none, some, ◌==◌, str_eq,
  if◌then◌else◌, or_else,
}

pub data FailureCategory : Type 0 where
  webhook command policy pr queue github workspace executor codex output finding review database
        internal :
      FailureCategory

pub data RetryPolicy : Type 0 where
  never safe_same_execution delayed : RetryPolicy

-- `_SCHEMA_CODES`
pub schema_code : String → Option String
schema_code code =
    if str_eq code "CODEX_OUTPUT_SCHEMA_MISMATCH"
    then some "OUTPUT_SCHEMA_MISMATCH"
    else if str_eq code "SCHEMA_ERROR"
    then some "JSON_SCHEMA_VALIDATION_FAILED"
    else if str_eq code "CODEX_OUTPUT_INVALID_JSON"
    then some "OUTPUT_JSON_INVALID"
    else if str_eq code "CODEX_OUTPUT_MISSING"
    then some "OUTPUT_EMPTY"
    else if str_eq code "OUTPUT_MODEL_VALIDATION_FAILED"
    then some "OUTPUT_MODEL_VALIDATION_FAILED"
    else none

-- `_MESSAGES`
pub messages : String → Option String
messages code =
    if str_eq code "JOB_PERSISTENCE_FAILURE"
    then some "리뷰 시작 정보를 저장하지 못했습니다. 리뷰 실행은 시작되지 않았습니다."
    else if str_eq code "OUTPUT_SCHEMA_MISMATCH"
    then some "리뷰 결과 형식을 검증하는 과정에서 오류가 발생했습니다. 동일 요청을 반복하지 말고 관리자 확인 후 다시 시도해 주세요."
    else if str_eq code "OUTPUT_JSON_INVALID"
    then some "리뷰 결과를 읽는 과정에서 오류가 발생했습니다. 동일 요청을 반복하지 말고 관리자 확인 후 다시 시도해 주세요."
    else if str_eq code "CODEX_QUOTA_EXCEEDED"
    then some "현재 Codex 사용 한도에 도달해 리뷰를 실행하지 못했습니다. 사용량이 갱신된 뒤 다시 요청해 주세요."
    else if str_eq code "CODEX_QUOTA"
    then some "현재 Codex 사용 한도에 도달해 리뷰를 실행하지 못했습니다. 사용량이 갱신된 뒤 다시 요청해 주세요."
    else if str_eq code "CODEX_RATE_LIMIT"
    then some "현재 Codex 요청이 제한되어 리뷰를 완료하지 못했습니다. 잠시 후 다시 안내하겠습니다."
    else if str_eq code "GITHUB_PERMISSION_DENIED"
    then some "이 저장소에서 리뷰를 게시할 권한을 확인할 수 없습니다. GitHub App 설치 권한을 관리자에게 확인해 주세요."
    else if str_eq code "GITHUB_RATE_LIMITED"
    then some "GitHub 요청 한도에 도달해 리뷰를 완료하지 못했습니다. 잠시 후 다시 안내하겠습니다."
    else if str_eq code "EXECUTOR_TIMEOUT"
    then some "리뷰 처리 시간이 초과되었습니다. 관리자 확인 후 다시 시도해 주세요."
    else if str_eq code "EXECUTOR_UNKNOWN_OUTCOME"
    then some "리뷰 처리 결과를 확인하지 못했습니다. 중복 실행을 막기 위해 관리자 확인이 필요합니다."
    else if str_eq code "REPOSITORY_DISABLED"
    then some "이 저장소의 자동 리뷰가 비활성화되어 요청을 처리하지 않았습니다."
    else if str_eq code "PULL_REQUEST_HEAD_CHANGED"
    then some "리뷰 요청 이후 PR의 변경 내용이 갱신되어 현재 요청을 중단했습니다. 최신 변경사항에서 다시 요청해 주세요."
    else if str_eq code "INTERNAL_INVARIANT_VIOLATION"
    then some "리뷰 처리 중 내부 상태 오류가 발생했습니다. 관리자 확인 후 다시 시도해 주세요."
    else if str_eq code "UNEXPECTED_INTERNAL_ERROR"
    then some "리뷰를 완료하지 못했습니다. 관리자 확인 후 다시 시도해 주세요."
    else none

abbrev pub unexpected_message : String
unexpected_message = "리뷰를 완료하지 못했습니다. 관리자 확인 후 다시 시도해 주세요."

-- What `_defaults` returns.
pub record Defaults : Type 0 where
  pub category : FailureCategory
  pub stage : String
  pub retryable : Bool
  pub retry_policy : RetryPolicy
  pub action : Bool

abbrev never_at : FailureCategory → String → Bool → Defaults
never_at category stage action = record {
  category = category;
  stage = stage;
  retryable = false;
  retry_policy = never;
  action = action;
}

abbrev delayed_at : FailureCategory → String → Defaults
delayed_at category stage = record {
  category = category;
  stage = stage;
  retryable = true;
  retry_policy = delayed;
  action = false;
}

-- `code.startswith("CODEX")`
abbrev pub from_codex : String → Bool
from_codex code = starts_with code "CODEX"

pub is_limit_code : String → Bool
is_limit_code code =
    str_eq code "CODEX_QUOTA_EXCEEDED"
    || str_eq code "CODEX_QUOTA"
    || str_eq code "CODEX_RATE_LIMITED"
    || str_eq code "CODEX_RATE_LIMIT"
    || str_eq code "GITHUB_RATE_LIMITED"

-- The last five tests of `_defaults`.
pub later_defaults : String → Defaults
later_defaults code =
    if str_eq code "GITHUB_SERVICE_UNAVAILABLE"
    then delayed_at github "review_publish"
    else if str_eq code "EXECUTOR_UNAVAILABLE"
    then delayed_at executor "executor_transport"
    else if str_eq code "REPOSITORY_DISABLED"
    then never_at policy "policy_resolve" false
    else if str_eq code "PULL_REQUEST_HEAD_CHANGED"
    then never_at pr "pull_request_fetch" true
    else if str_eq code "EXECUTOR_UNKNOWN_OUTCOME"
    then never_at executor "executor_transport" true
    else never_at internal "result_finalize" true

pub defaults : String → Defaults
defaults code =
    if is_present (schema_code code)
    then never_at output "output_schema" true
    else if is_limit_code code
    then delayed_at (if from_codex code then codex else github)
        (if from_codex code then "codex_exec" else "review_publish")
    else if str_eq code "CODEX_TIMEOUT" || str_eq code "EXECUTOR_TIMEOUT"
    then delayed_at executor "executor_transport"
    else if str_eq code "GITHUB_PERMISSION_DENIED"
    then never_at github "review_publish" true
    else if str_eq code "GITHUB_AUTH_FAILED"
        || str_eq code "GITHUB_RESOURCE_NOT_FOUND"
        || str_eq code "GITHUB_VALIDATION_FAILED"
    then never_at github "review_publish" true
    else later_defaults code
