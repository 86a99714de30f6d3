-- ===== src/Worker/Report.antt =====
-- How the worker writes a failure onto a job: `_apply_failure` and the columns of a Codex error.
use Prim.Native.String.{◌++◌ as text_append}
use inryeok_bot.Prelude.{
  String, false, none, some, List, [], ◌∷◌, str_eq, if◌then◌else◌, is_truthy, text_prefix,
}
use inryeok_bot.Jobs.Model.{ReviewJob}
use inryeok_bot.Failures.{
  FailureCategory, webhook, command, policy, pr, queue, github, workspace, executor, codex, output,
  finding, review, database, internal, RetryPolicy, never, safe_same_execution, delayed, messages,
  unexpected_message,
}
use inryeok_bot.Failures.Convert.{CodexError, ReviewFailure}

-- The values of the two string enumerations.
pub category_name : FailureCategory → String
category_name webhook = "WEBHOOK"
category_name command = "COMMAND"
category_name policy = "POLICY"
category_name pr = "PR"
category_name queue = "QUEUE"
category_name github = "GITHUB"
category_name workspace = "WORKSPACE"
category_name executor = "EXECUTOR"
category_name codex = "CODEX"
category_name output = "OUTPUT"
category_name finding = "FINDING"
category_name review = "REVIEW"
category_name database = "DATABASE"
category_name internal = "INTERNAL"

pub policy_name : RetryPolicy → String
policy_name never = "NEVER"
policy_name safe_same_execution = "SAFE_SAME_EXECUTION"
policy_name delayed = "DELAYED"

-- `job_snapshot_persistence_failure` of app/review/failures.py.
pub job_snapshot_persistence_failure : ReviewFailure
job_snapshot_persistence_failure = record {
  error_code = "JOB_PERSISTENCE_FAILURE";
  category = database;
  stage = "job_snapshot_persist";
  retryable = false;
  retry_policy = never;
  user_action_required = false;
  user_message_ko = elim (messages "JOB_PERSISTENCE_FAILURE") [
    | none ↦ unexpected_message
    | some m ↦ m
  ];
  operator_message_ko = "JOB_PERSISTENCE_FAILURE: snapshot flush failed before executor request.";
  safe_signature = "job_snapshot_persist";
  correlation_id = none;
  execution_id = none;
  job_id = none;
  installation_id = none;
  pr_number = none;
  attempt = none;
  http_status = none;
  process_exit_code = none;
  output_field = none;
  validation_type = none;
  diagnostic_extraction_failed = false;
}

-- `_apply_failure`
unfoldable pub apply_failure : ReviewFailure → ReviewJob → ReviewJob
unfolding category_name policy_name
apply_failure f j = record j {
  error_code = some f.error_code;
  failure = record j.failure {
    error_category = some (category_name f.category);
    error_stage = some f.stage;
    error_signature = some f.safe_signature;
    retry_policy = some (policy_name f.retry_policy);
    user_action_required = some f.user_action_required;
    user_error_message = some f.user_message_ko;
    operator_error_message = some f.operator_message_ko;
    output_field = f.output_field;
    validation_type = f.validation_type;
    diagnostic_extraction_failed = some f.diagnostic_extraction_failed;
    http_status = f.http_status;
    codex_exit_code = f.process_exit_code;
    correlation_id =
        if is_truthy f.correlation_id then f.correlation_id else j.failure.correlation_id;
  };
}

-- `"\n".join(lines)`
pub join_lines : List String → String
join_lines [] = ""
join_lines (x ∷ []) = x
join_lines (x ∷ y ∷ rest) = text_append x (text_append "\n" (join_lines (y ∷ rest)))

-- The five assignments of the `CodexError` branch after `_apply_failure`.
unfoldable pub apply_codex_columns : CodexError → ReviewJob → ReviewJob
unfolding join_lines
apply_codex_columns e j =
    let diagnostic = text_prefix 2048 (join_lines e.safe_diagnostic) in
    record j {
      failure = record j.failure {
        codex_exit_code = e.exit_code;
        error_signature = some e.signature;
        correlation_id = e.correlation_id;
        stderr_byte_length = some e.stderr_byte_length;
        redacted_diagnostic = if str_eq diagnostic "" then none else some diagnostic;
      };
    }
