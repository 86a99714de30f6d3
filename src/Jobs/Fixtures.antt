-- ===== src/Jobs/Fixtures.antt =====
-- A queue for the tests: one repository, open settings and a pending automatic job.
use inryeok_bot.Prelude.{true, false, none, some, List, [], ◌∷◌}
use inryeok_bot.Jobs.Model.{
  JobKey, ModelSnapshot, FailureColumns, ReviewJob, Database, pending, running, failed, succeeded,
  auto, retry,
}

abbrev pub a_key : JobKey
a_key = record {
  installation_id = 7;
  repository_owner = "owner";
  repository_name = "repo";
  pull_request_number = 3;
  base_sha = "base";
  head_sha = "head";
  trigger_type = auto;
}

abbrev pub no_snapshot : ModelSnapshot
no_snapshot = record {
  model = none;
  reasoning_effort = none;
  model_source = none;
  reasoning_source = none;
  model_catalog_version = none;
  model_catalog_entry_id = none;
  model_verification_id = none;
  schema_hash = none;
  codex_cli_version = none;
  executor_runtime_version = none;
}

abbrev pub no_columns : FailureColumns
no_columns = record {
  error_category = none;
  error_stage = none;
  error_signature = none;
  retry_policy = none;
  user_action_required = none;
  user_error_message = none;
  operator_error_message = none;
  output_field = none;
  validation_type = none;
  diagnostic_extraction_failed = none;
  http_status = none;
  codex_exit_code = none;
  correlation_id = none;
  stderr_byte_length = none;
  redacted_diagnostic = none;
}

abbrev pub pending_job : ReviewJob
pending_job = record {
  id = 1;
  delivery_id = "d1";
  source_comment_id = none;
  key = a_key;
  status = pending;
  attempts = 0;
  error_code = none;
  error_message = none;
  failure = no_columns;
  execution_id = none;
  created_at = 10;
  started_at = none;
  finished_at = none;
  not_before = none;
  retry_of_job_id = none;
  superseded_by_head_sha = none;
  snapshot = no_snapshot;
  terminal_outcome = none;
  reaction_cleanup_status = none;
}

-- The job once it was claimed at time 100.
abbrev pub running_job : ReviewJob
running_job = record pending_job { status = running; attempts = 1; started_at = some 100 }

-- A claimed job whose execution is recorded.
abbrev pub executing_job : ReviewJob
executing_job = record running_job { execution_id = some "e1" }

abbrev pub failed_job : ReviewJob
failed_job = record pending_job { status = failed; attempts = 1; finished_at = some 200 }

-- A failed retry of another job.
abbrev pub failed_retry : ReviewJob
failed_retry = record failed_job {
  id = 2;
  delivery_id = "d2";
  key = record a_key { trigger_type = retry };
}

abbrev pub succeeded_job : ReviewJob
succeeded_job = record pending_job { id = 2; delivery_id = "d2"; status = succeeded }

abbrev pub a_queue : List ReviewJob → Database
a_queue jobs = record {
  jobs = jobs;
  next_job_id = 5;
  repositories =
      record {
        installation_id = 7;
        repository_owner = "owner";
        repository_name = "repo";
        installed = true;
        override_enabled = none;
        override_auto_review_enabled = none;
        override_command_review_enabled = none;
      }
      ∷ [];
  global_settings = some (record {
    enabled = true;
    auto_review_enabled = true;
    command_review_enabled = true;
    processing_paused = false;
  });
  audit_logs = [];
  failure_notices = [];
}
