-- ===== src/Jobs/Model.antt =====
-- The tables of app/jobs/models.py that the queue reads and writes, and one database value that
-- holds them. A timestamp is a number; a nullable column is an option.
use inryeok_bot.Prelude.{
  ℕ, ℤ, String, Bool, true, false, ◌&&◌, ◌||◌, not, Option, some, List, ◌==◌, str_eq,
}

pub data JobStatus : Type 0 where
  pending running succeeded failed skipped : JobStatus

pub data TriggerType : Type 0 where
  auto command retry : TriggerType

abbrev pub is_pending : JobStatus → Bool
is_pending pending = true
is_pending _ = false

abbrev pub is_running : JobStatus → Bool
is_running running = true
is_running _ = false

abbrev pub is_succeeded : JobStatus → Bool
is_succeeded succeeded = true
is_succeeded _ = false

-- `status in {PENDING, RUNNING}`
abbrev pub is_active : JobStatus → Bool
is_active s = is_pending s || is_running s

-- `status in {SUCCEEDED, SKIPPED, FAILED}`
abbrev pub is_terminal : JobStatus → Bool
is_terminal s = not (is_active s)

abbrev pub is_auto : TriggerType → Bool
is_auto auto = true
is_auto _ = false

abbrev pub is_command : TriggerType → Bool
is_command command = true
is_command _ = false

abbrev pub same_trigger : TriggerType → TriggerType → Bool
same_trigger auto t = is_auto t
same_trigger command t = is_command t
same_trigger retry t = not (is_auto t) && not (is_command t)

-- The columns by which a job names its pull request head, and what triggered it.
pub record JobKey : Type 0 where
  pub installation_id : ℕ
  pub repository_owner : String
  pub repository_name : String
  pub pull_request_number : ℕ
  pub base_sha : String
  pub head_sha : String
  pub trigger_type : TriggerType

-- The model columns that a retry copies.
pub record ModelSnapshot : Type 0 where
  pub model : Option String
  pub reasoning_effort : Option String
  pub model_source : Option String
  pub reasoning_source : Option String
  pub model_catalog_version : Option String
  pub model_catalog_entry_id : Option String
  pub model_verification_id : Option String
  pub schema_hash : Option String
  pub codex_cli_version : Option String
  pub executor_runtime_version : Option String

-- The columns that describe a failure.
pub record FailureColumns : Type 0 where
  pub error_category : Option String
  pub error_stage : Option String
  pub error_signature : Option String
  pub retry_policy : Option String
  pub user_action_required : Option Bool
  pub user_error_message : Option String
  pub operator_error_message : Option String
  pub output_field : Option String
  pub validation_type : Option String
  pub diagnostic_extraction_failed : Option Bool
  pub http_status : Option ℕ
  pub codex_exit_code : Option ℤ
  pub correlation_id : Option String
  pub stderr_byte_length : Option ℕ
  pub redacted_diagnostic : Option String

pub record ReviewJob : Type 0 where
  pub id : ℕ
  pub delivery_id : String
  pub source_comment_id : Option ℕ
  pub key : JobKey
  pub status : JobStatus
  pub attempts : ℕ
  pub error_code : Option String
  pub error_message : Option String
  pub failure : FailureColumns
  pub execution_id : Option String
  pub created_at : ℕ
  pub started_at : Option ℕ
  pub finished_at : Option ℕ
  pub not_before : Option ℕ
  pub retry_of_job_id : Option ℕ
  pub superseded_by_head_sha : Option String
  pub snapshot : ModelSnapshot
  pub terminal_outcome : Option String
  pub reaction_cleanup_status : Option String

-- The columns of `repository_settings` that decide whether a job may be claimed.
pub record RepositorySettings : Type 0 where
  pub installation_id : ℕ
  pub repository_owner : String
  pub repository_name : String
  pub installed : Bool
  pub override_enabled : Option Bool
  pub override_auto_review_enabled : Option Bool
  pub override_command_review_enabled : Option Bool

-- The row with id 1 of `global_review_settings`, as far as the queue reads it.
pub record GlobalReviewSettings : Type 0 where
  pub enabled : Bool
  pub auto_review_enabled : Bool
  pub command_review_enabled : Bool
  pub processing_paused : Bool

pub record AdminAuditLog : Type 0 where
  pub actor_login : String
  pub action : String
  pub target_type : String
  pub target_id : ℕ
  pub summary : String

pub record ReviewFailureNotice : Type 0 where
  pub repository_owner : String
  pub repository_name : String
  pub pull_request_number : ℕ
  pub head_sha : String
  pub error_category : String
  pub github_comment_id : Option ℕ

pub record Database : Type 0 where
  pub jobs : List ReviewJob
  pub next_job_id : ℕ
  pub repositories : List RepositorySettings
  pub global_settings : Option GlobalReviewSettings
  pub audit_logs : List AdminAuditLog
  pub failure_notices : List ReviewFailureNotice

-- The same repository by its two stored names.
abbrev pub same_repository_name : JobKey → JobKey → Bool
same_repository_name a b =
    str_eq a.repository_owner b.repository_owner && str_eq a.repository_name b.repository_name

-- The same pull request, within one installation.
abbrev pub same_pull_request : JobKey → JobKey → Bool
same_pull_request a b =
    (a.installation_id == b.installation_id)
    && same_repository_name a b
    && (a.pull_request_number == b.pull_request_number)

-- `Index("uq_review_policy_non_command")`
abbrev pub same_policy_head : JobKey → JobKey → Bool
same_policy_head a b =
    same_repository_name a b
    && (a.pull_request_number == b.pull_request_number)
    && str_eq a.head_sha b.head_sha
    && same_trigger a.trigger_type b.trigger_type

-- A value that is present on both sides and equal.
abbrev pub same_text : Option String → Option String → Bool
same_text (some a) (some b) = str_eq a b
same_text _ _ = false

abbrev pub same_number : Option ℕ → Option ℕ → Bool
same_number (some a) (some b) = a == b
same_number _ _ = false

-- Two rows that a unique constraint of `review_jobs` keeps apart: by delivery, by source comment,
-- by the partial index on jobs that no command triggered, and by execution.
unfoldable pub conflicts : ReviewJob → ReviewJob → Bool
conflicts a b =
    str_eq a.delivery_id b.delivery_id
    || same_number a.source_comment_id b.source_comment_id
    || (not (is_command a.key.trigger_type) && same_policy_head a.key b.key)
    || same_text a.execution_id b.execution_id
