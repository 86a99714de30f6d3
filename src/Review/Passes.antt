-- ===== src/Review/Passes.antt =====
-- The review passes of a job: app/review/passes.py.
pub mod Plan
pub mod Execute
use inryeok_bot.Prelude.{
  ℕ, ◌+◌, ◌-◌, ◌*◌, String, Bool, true, false, ◌&&◌, ◌||◌, not, Option, none, some, List, [], ◌∷◌,
  ◌++◌, map, min, max, ltb, leb, ◌==◌, str_eq, if◌then◌else◌, any, first_where, count_where,
  update_where, text_or, length, is_null, or_else, is_present,
}
use inryeok_bot.Review.Path.{append_text}
use inryeok_bot.Review.Finding.{Finding}

abbrev pub general : String
general = "GENERAL"

-- `PASS_FOCUS`
unfoldable pub pass_focus : String → String
pass_focus t =
    if str_eq t "GENERAL"
    then "correctness, state transitions, changed contracts and concrete test gaps"
    else if str_eq t "SECURITY_PRIVACY"
    then "authorization, credentials, personal data, logging and masking"
    else if str_eq t "EXTERNAL_CONTRACT"
    then "external API contracts, bytes, batching and pagination"
    else if str_eq t "FAILURE_RELIABILITY"
    then "exception chains, retries, timeout outcomes, partial failure and loss"
    else if str_eq t "DATA_CONCURRENCY"
    then "database, transactions, cache, locking, ordering and idempotency"
    else "concrete CPU, regex, memory, I/O and unbounded resource costs"

abbrev is_one_of : String → List String → Bool
is_one_of s items = any (str_eq s) items

-- `PARTIAL_SAFE_FAILURES`
unfoldable pub is_partial_safe : String → Bool
is_partial_safe code = is_one_of code (
    "CODEX_OUTPUT_SCHEMA_MISMATCH" ∷ "SCHEMA_ERROR" ∷ "OUTPUT_MODEL_VALIDATION_FAILED"
    ∷ "CODEX_OUTPUT_INVALID_JSON" ∷ "OUTPUT_JSON_INVALID" ∷ "CODEX_OUTPUT_MISSING" ∷ "CODEX_QUOTA"
    ∷ "CODEX_RATE_LIMIT" ∷ [])

-- `UNKNOWN_FAILURES`
unfoldable pub is_unknown_failure : String → Bool
is_unknown_failure code = is_one_of code (
    "EXECUTOR_UNKNOWN_OUTCOME" ∷ "EXECUTION_IN_PROGRESS" ∷ "EXECUTION_RESULT_UNAVAILABLE"
    ∷ "EXECUTOR_RESULT_NOT_DURABLE" ∷ "CODEX_TIMEOUT" ∷ "EXECUTOR_INTERNAL" ∷ [])

-- `KNOWN_HARD_FAILURES`
unfoldable pub is_hard_failure : String → Bool
is_hard_failure code = is_one_of code (
    "CODEX_AUTH" ∷ "FILE_PERMISSION_ERROR" ∷ "CODEX_NOT_FOUND" ∷ "CODEX_MODEL_NOT_ALLOWED"
    ∷ "SCHEMA_DEFINITION_ERROR" ∷ "EXECUTION_ID_CONFLICT" ∷ "CODEX_OUTPUT_LIMIT" ∷ [])

pub data PassState : Type 0 where
  reserved skipped succeeded failed unknown : PassState

abbrev pub is_succeeded : PassState → Bool
is_succeeded succeeded = true
is_succeeded _ = false

abbrev pub is_skipped : PassState → Bool
is_skipped skipped = true
is_skipped _ = false

-- A row of `ReviewPass`, without the model, the effort and the later counts.
pub record ReviewPass : Type 0 where
  pub job_id : ℕ
  pub pass_type : String
  pub execution_id : String
  pub fingerprint : String
  pub state : PassState
  pub reason : Option String
  pub started_at : ℕ
  pub timeout_seconds : ℕ
  pub process_count : Option ℕ
  pub duration_ms : Option ℕ
  pub raw_count : Option ℕ

abbrev pub is_pass_of : ℕ → String → ReviewPass → Bool
is_pass_of job t p = (p.job_id == job) && str_eq p.pass_type t

-- What the pass depends on: the job, the policy, the limits and the prompt.
pub record Review : Type 0 where
  pub job_id : ℕ
  pub schema_hash : Option String
  pub model : Option String
  pub reasoning_effort : String
  pub codex_timeout_seconds : ℕ
  pub review_processes_per_day : ℕ
  pub review_processes_per_hour : ℕ
  pub review_pass_timeout_seconds : ℕ
  pub prompt : String
  pub prompt_version : String
  pub execution_id : String

-- What `runner.run` does: a review, a `CodexError` with its code and process count, or another
-- exception.
pub data PassOutcome : Type 0 where
  reviewed : String → List Finding → PassOutcome
  codex_failed : String → Option ℕ → PassOutcome
  other_failed : PassOutcome

-- What a pass meets: the time, the seconds that remain, and how the run ends.
pub record Turn : Type 0 where
  pub now : ℕ
  pub remaining : ℕ
  pub outcome : PassOutcome
  pub last_process_count : Option ℕ
  pub duration_ms : ℕ

-- How a pass ends: an error with this code, another exception, a pass left out, or findings.
pub data PassEnd : Type 0 where
  stopped : String → PassEnd
  crashed left_out : PassEnd
  found : String → List Finding → PassEnd

abbrev pub texts : List String → String
texts [] = ""
texts (x ∷ xs) = append_text x (texts xs)

unfoldable pub pass_prompt : Review → String → String
unfolding pass_focus
pass_prompt v t = texts (
    v.prompt
    ∷ "\nReview pass: "
    ∷ t
    ∷ ". Focus: "
    ∷ pass_focus t
    ∷ ". Keep the same grounding and output contract; zero findings is valid."
    ∷ [])

-- `UPDATE` of the row of the pass.
abbrev pub set_pass : ℕ → String → (ReviewPass → ReviewPass) → List ReviewPass → List ReviewPass
set_pass job t f rows = update_where (is_pass_of job t) f rows

-- The rows of the last `window` seconds that used the budget.
abbrev pub used : ℕ → ℕ → List ReviewPass → ℕ
used now window rows =
    count_where (λ p. leb (now - window) p.started_at && not (is_skipped p.state)) rows

abbrev pub a_day : ℕ
a_day = 86400

abbrev pub an_hour : ℕ
an_hour = 3600

-- The reason for which a new pass is skipped.
unfoldable pub skip_reason : Review → Turn → List ReviewPass → Option String
skip_reason v e rows =
    if leb v.review_processes_per_day (used e.now a_day rows)
      || leb v.review_processes_per_hour (used e.now an_hour rows)
    then some "PROCESS_BUDGET"
    else if ltb e.remaining 30
    then some "JOB_TIMEOUT_BUDGET"
    else none

abbrev pub failed_state : String → PassState
failed_state code = if is_partial_safe code || is_hard_failure code then failed else unknown

abbrev pub failed_reason : String → String
failed_reason code =
    if is_partial_safe code || is_hard_failure code || is_unknown_failure code
    then code
    else "OPERATOR_REVIEW_REQUIRED"
