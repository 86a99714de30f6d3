-- ===== src/Jobs/Retry.antt =====
-- `JobRepository.retry` of app/jobs/repository.py, the administrator's retry of a finished job.
pub mod Tests
pub mod Steps
pub mod Guards
pub mod Once
use inryeok_bot.Prelude.{
  ℕ, ◌+◌, String, Bool, true, false, ◌&&◌, ◌||◌, not, Option, none, some, List, [], ◌∷◌, ◌++◌, ◌==◌,
  str_eq, if◌then◌else◌, first_where, any, is_present,
}
use inryeok_bot.Jobs.Model.{
  JobStatus, ReviewJob, Database, pending, running, succeeded, failed, skipped, retry, is_succeeded,
  same_repository_name, same_number, conflicts,
}
use inryeok_bot.Jobs.Enqueue.{no_failure}

pub data RetryResult : Type 0 where
  returned : Option ReviewJob → RetryResult
  integrity_error : RetryResult

-- `status in {FAILED, SKIPPED}`
abbrev pub may_retry : JobStatus → Bool
may_retry failed = true
may_retry skipped = true
may_retry _ = false

-- A successful job of the same head.
pub succeeded_same_head : ReviewJob → ReviewJob → Bool
succeeded_same_head j x =
    same_repository_name x.key j.key
    && (x.key.pull_request_number == j.key.pull_request_number)
    && str_eq x.key.head_sha j.key.head_sha
    && is_succeeded x.status

-- The new row: the identity and the model snapshot of the old one, under the retry trigger.
-- `delivery_id` is the text that is made from the old id and the clock.
pub retry_job : ℕ → ℕ → String → ReviewJob → ReviewJob
retry_job id now delivery_id j = record {
  id = id;
  delivery_id = delivery_id;
  source_comment_id = none;
  key = record j.key { trigger_type = retry };
  status = pending;
  attempts = 0;
  error_code = none;
  error_message = none;
  failure = no_failure;
  execution_id = none;
  created_at = now;
  started_at = none;
  finished_at = none;
  not_before = none;
  retry_of_job_id = some j.id;
  superseded_by_head_sha = none;
  snapshot = j.snapshot;
  terminal_outcome = none;
  reaction_cleanup_status = none;
}

-- Nothing handles an `IntegrityError` of this commit.
pub insert_retry : ℕ → String → ReviewJob → Database → RetryResult × Database
unfolding retry_job conflicts
insert_retry now delivery_id j db =
    let new = retry_job db.next_job_id now delivery_id j in
    if any (conflicts new) db.jobs then (integrity_error, db) else (
      returned (some new),
      record db { jobs = db.jobs ++ new ∷ []; next_job_id = db.next_job_id + 1 },
    )

pub retry_known : ℕ → String → ReviewJob → Database → RetryResult × Database
unfolding insert_retry succeeded_same_head
retry_known now delivery_id j db =
    if not (may_retry j.status)
    then (returned none, db)
    else if is_present (first_where (succeeded_same_head j) db.jobs)
    then (returned none, db)
    else elim (first_where (λ x. same_number x.retry_of_job_id (some j.id)) db.jobs) [
      | some child ↦ (returned (some child), db)
      | none ↦ insert_retry now delivery_id j db
    ]

pub retry_request : ℕ → String → ℕ → Database → RetryResult × Database
unfolding retry_known
retry_request now delivery_id job_id db = elim (first_where (λ x. x.id == job_id) db.jobs) [
  | none ↦ (returned none, db)
  | some j ↦ retry_known now delivery_id j db
]
