-- ===== src/Jobs/Enqueue.antt =====
-- `JobRepository.enqueue` of app/jobs/repository.py. The transaction holds the lock on the settings
-- row, so admission is one step on the database.
pub mod Tests
pub mod Steps
pub mod Capacity
use inryeok_bot.Prelude.{
  ℕ, ◌+◌, String, Bool, true, false, ◌&&◌, ◌||◌, not, Option, none, some, List, [], ◌∷◌, ◌++◌, map,
  leb, ◌==◌, str_eq, if◌then◌else◌, first_where, select_where, count_where, update_where, any,
}
use inryeok_bot.Jobs.Model.{
  JobStatus, JobKey, ModelSnapshot, FailureColumns, ReviewJob, AdminAuditLog, Database, pending,
  skipped, is_pending, is_active, is_auto, is_command, same_pull_request, same_repository_name,
  same_policy_head, same_number, conflicts,
}

-- The keyword arguments that describe the new job.
pub record JobValues : Type 0 where
  pub delivery_id : String
  pub source_comment_id : Option ℕ
  pub key : JobKey
  pub not_before : Option ℕ
  pub snapshot : ModelSnapshot

pub data CapacityError : Type 0 where
  queue_capacity repository_queue_capacity : CapacityError

-- The job and `True`, what was found and `False`, or `QueueCapacityError`.
pub data Admission : Type 0 where
  created : ReviewJob → Admission
  existing : Option ReviewJob → Admission
  refused : CapacityError → Admission

abbrev pub no_failure : FailureColumns
no_failure = record {
  error_category = none;
  error_stage = none;
  error_signature = none;
  retry_policy = none;
  user_action_required = none;
  user_error_message = none;
  operator_error_message = none;
  output_field = none;
  validation_type = none;
  diagnostic_extraction_failed = none;
  http_status = none;
  codex_exit_code = none;
  correlation_id = none;
  stderr_byte_length = none;
  redacted_diagnostic = none;
}

-- `ReviewJob(**values)` with the column defaults.
pub new_job : ℕ → ℕ → JobValues → ReviewJob
new_job id now v = record {
  id = id;
  delivery_id = v.delivery_id;
  source_comment_id = v.source_comment_id;
  key = v.key;
  status = pending;
  attempts = 0;
  error_code = none;
  error_message = none;
  failure = no_failure;
  execution_id = none;
  created_at = now;
  started_at = none;
  finished_at = none;
  not_before = v.not_before;
  retry_of_job_id = none;
  superseded_by_head_sha = none;
  snapshot = v.snapshot;
  terminal_outcome = none;
  reaction_cleanup_status = none;
}

-- The active job of the same head that a second command finds.
pub active_same_head : JobKey → ReviewJob → Bool
active_same_head k j =
    same_pull_request j.key k && str_eq j.key.head_sha k.head_sha && is_active j.status

-- The automatic job of the same head, in whatever state.
pub auto_same_head : JobKey → ReviewJob → Bool
auto_same_head k j =
    same_pull_request j.key k && str_eq j.key.head_sha k.head_sha && is_auto j.key.trigger_type

-- The pending automatic job of an older head, which a new automatic job replaces.
pub superseded : JobKey → ReviewJob → Bool
superseded k j =
    is_auto k.trigger_type
    && is_pending j.status
    && is_auto j.key.trigger_type
    && same_pull_request j.key k
    && not (str_eq j.key.head_sha k.head_sha)

pub supersede : ℕ → JobKey → ReviewJob → ReviewJob
supersede now k j = record j {
  status = skipped;
  error_code = some "SUPERSEDED";
  error_message = some "Superseded by a newer pull request head";
  superseded_by_head_sha = some k.head_sha;
  finished_at = some now;
}

-- The log keeps the job's id and the new head.
abbrev pub supersede_log : JobKey → ReviewJob → AdminAuditLog
supersede_log k j = record {
  actor_login = "system:webhook";
  action = "SUPERSEDE_PENDING_HEAD";
  target_type = "review_job";
  target_id = j.id;
  summary = k.head_sha;
}

-- `count >= limit`, where a limit is given.
abbrev pub at_capacity : ℕ → Option ℕ → Bool
at_capacity n none = false
at_capacity n (some limit) = leb limit n

-- Pending jobs that the new one does not replace.
pub counts_against : JobKey → ReviewJob → Bool
counts_against k j = is_pending j.status && not (superseded k j)

pub counts_against_repository : JobKey → ReviewJob → Bool
counts_against_repository k j = counts_against k j && same_repository_name j.key k

-- The rows that the handler of `IntegrityError` looks for.
pub stands_for : JobValues → ReviewJob → Bool
stands_for v j =
    str_eq j.delivery_id v.delivery_id
    || same_number j.source_comment_id v.source_comment_id
    || same_policy_head j.key v.key

-- The insert, the replacement of older heads and the commit, or the rollback.
pub admit : ℕ → JobValues → Database → Admission × Database
unfolding new_job superseded supersede stands_for conflicts
admit now v db =
    let job = new_job db.next_job_id now v in
    if any (conflicts job) db.jobs then (existing (first_where (stands_for v) db.jobs), db) else (
      created job,
      record db {
        jobs = update_where (superseded v.key) (supersede now v.key) db.jobs ++ job ∷ [];
        next_job_id = db.next_job_id + 1;
        audit_logs =
            db.audit_logs ++ map (supersede_log v.key) (select_where (superseded v.key) db.jobs);
      },
    )

-- The job that already stands for a request, if any.
pub found_before : JobValues → Database → Option ReviewJob
unfolding active_same_head auto_same_head
found_before v db =
    if is_command v.key.trigger_type
    then first_where (active_same_head v.key) db.jobs
    else if is_auto v.key.trigger_type
    then first_where (auto_same_head v.key) db.jobs
    else none

pub enqueue : ℕ → Option ℕ → Option ℕ → JobValues → Database → Admission × Database
unfolding found_before counts_against counts_against_repository admit
enqueue now max_pending_jobs max_repository_pending_jobs v db = elim (found_before v db) [
  | some j ↦ (existing (some j), db)
  | none ↦
      if at_capacity (count_where (counts_against v.key) db.jobs) max_pending_jobs
      then (refused queue_capacity, db)
      else if at_capacity (count_where (counts_against_repository v.key) db.jobs)
          max_repository_pending_jobs
      then (refused repository_queue_capacity, db)
      else admit now v db
]
