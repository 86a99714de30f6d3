-- ===== src/Jobs/Recover.antt =====
-- `JobRepository.recover_stale` of app/jobs/repository.py: what a starting worker does with jobs
-- that an earlier one left RUNNING.
pub mod Tests
pub mod Safety
pub mod Steps
pub mod Single
use inryeok_bot.Prelude.{
  if◌then◌else◌, ℕ, ◌-◌, Bool, true, false, ◌&&◌, Option, none, some, List, ltb, leb, is_null,
  is_present, count_where, update_where,
}
use inryeok_bot.Jobs.Model.{ReviewJob, Database, pending, failed, is_running, is_pending}

-- `status == RUNNING, started_at < cutoff`; a NULL start passes no comparison.
pub is_stale : ℕ → ReviewJob → Bool
is_stale cutoff j =
    is_running j.status && elim j.started_at [ none ↦ false | some t ↦ ltb t cutoff ]

-- The first UPDATE: no execution was ever recorded, and attempts are left.
pub is_recoverable : ℕ → ℕ → ReviewJob → Bool
is_recoverable cutoff max_attempts j =
    is_stale cutoff j && ltb j.attempts max_attempts && is_null j.execution_id

pub requeue : ReviewJob → ReviewJob
requeue j = record j {
  status = pending;
  started_at = none;
  error_code = some "STALE_RECOVERED";
  error_message = some "Recovered after worker interruption";
}

-- The second UPDATE.
pub is_exhausted : ℕ → ℕ → ReviewJob → Bool
is_exhausted cutoff max_attempts j = is_stale cutoff j && leb max_attempts j.attempts

pub exhaust : ℕ → ReviewJob → ReviewJob
exhaust now j = record j {
  status = failed;
  finished_at = some now;
  error_code = some "MAX_ATTEMPTS";
  error_message = some "Stale job exceeded maximum attempts";
}

-- The third UPDATE: an execution may have run, and its outcome is unknown.
pub is_unknown : ℕ → ℕ → ReviewJob → Bool
is_unknown cutoff max_attempts j =
    is_stale cutoff j && is_present j.execution_id && ltb j.attempts max_attempts

pub fail_unknown : ℕ → ReviewJob → ReviewJob
fail_unknown now j = record j {
  status = failed;
  finished_at = some now;
  error_code = some "UNKNOWN_OUTCOME";
  error_message = some "Execution identity exists; operator confirmation required";
  failure = record j.failure {
    error_category = some "INTERNAL";
    retry_policy = some "NEVER";
    user_action_required = some true;
  };
  terminal_outcome = some "UNKNOWN_OUTCOME";
}

-- The three statements in their order. The result is the row count of the first.
pub recover_stale : ℕ → ℕ → ℕ → Database → ℕ × Database
unfolding is_stale is_recoverable requeue is_exhausted exhaust is_unknown fail_unknown
recover_stale now seconds max_attempts db =
    let cutoff = now - seconds in
    let requeued = update_where (is_recoverable cutoff max_attempts) requeue db.jobs in
    let exhausted = update_where (is_exhausted cutoff max_attempts) (exhaust now) requeued in
    let classified = update_where (is_unknown cutoff max_attempts) (fail_unknown now) exhausted in
    (count_where (is_recoverable cutoff max_attempts) db.jobs, record db { jobs = classified })

-- What recovery does to one job: out of attempts comes first, then whether an execution exists.
pub recover_job : ℕ → ℕ → ℕ → ReviewJob → ReviewJob
recover_job now cutoff max_attempts j =
    if is_stale cutoff j
    then (if leb max_attempts j.attempts
        then exhaust now j
        else if is_null j.execution_id
        then requeue j
        else fail_unknown now j)
    else j

-- app/ops/watchdog.py: a pending job older than the threshold ends as a failure, not as a retry.
pub is_stale_pending : ℕ → ReviewJob → Bool
is_stale_pending pending_cutoff j = is_pending j.status && ltb j.created_at pending_cutoff

pub fail_pending : ℕ → ReviewJob → ReviewJob
fail_pending now j = record j {
  status = failed;
  error_code = some "STALE_PENDING";
  error_message = some "Pending beyond watchdog threshold";
  failure = record j.failure { retry_policy = some "NEVER" };
  terminal_outcome = some "FAILED_FINAL";
  finished_at = some now;
}

pub fail_stale_pending : ℕ → ℕ → Database → Database
unfolding is_stale_pending fail_pending
fail_stale_pending now pending_cutoff db = record db {
  jobs = update_where (is_stale_pending pending_cutoff) (fail_pending now) db.jobs;
}
