-- ===== src/Jobs/Finish.antt =====
-- `finish`, `skip_pending` and `get_or_create_failure_notice` of app/jobs/repository.py.
pub mod Tests
pub mod Steps
pub mod Outcome
use inryeok_bot.Prelude.{
  ℕ, String, Bool, true, false, ◌&&◌, ◌||◌, not, Option, none, some, List, [], ◌∷◌, ◌++◌, ◌==◌,
  str_eq, if◌then◌else◌, first_where, update_where, any, text_prefix, is_truthy, text_or,
}
use inryeok_bot.Jobs.Model.{
  JobStatus, ReviewJob, ReviewFailureNotice, Database, pending, running, succeeded, failed, skipped,
  is_pending,
}
use inryeok_bot.Jobs.Claim.{put_job}

-- The outcome that `finish` records.
pub finished_outcome : ReviewJob → JobStatus → Option String → Option String
finished_outcome j succeeded code =
    if is_truthy j.terminal_outcome then j.terminal_outcome else some "SUCCEEDED"
finished_outcome j skipped code =
    if is_truthy j.terminal_outcome then j.terminal_outcome else some (text_or code "SKIPPED")
finished_outcome j failed code = some "FAILED_FINAL"
finished_outcome j pending code = j.terminal_outcome
finished_outcome j running code = j.terminal_outcome

-- `error_message[:4000] if error_message else None`
pub bounded_message : Option String → Option String
bounded_message none = none
bounded_message (some s) = if str_eq s "" then none else some (text_prefix 4000 s)

unfoldable pub finish_job : ℕ → JobStatus → Option String → Option String → ReviewJob → ReviewJob
unfolding finished_outcome bounded_message
finish_job now status error_code error_message j = record j {
  status = status;
  terminal_outcome = finished_outcome j status error_code;
  error_code = error_code;
  error_message = bounded_message error_message;
  finished_at = some now;
}

-- `finish` on the row that the session holds.
pub finish : ℕ → ReviewJob → JobStatus → Option String → Option String → Database → Database
unfolding finish_job
finish now j status error_code error_message db =
    put_job (finish_job now status error_code error_message j) db

pub skip_job : ℕ → String → ReviewJob → ReviewJob
skip_job now reason j = record j {
  status = skipped;
  error_code = some (text_prefix 100 reason);
  error_message = some "Skipped by audited operations decision";
  finished_at = some now;
}

pub skip_pending : ℕ → ℕ → String → Database → Option ReviewJob × Database
unfolding skip_job
skip_pending now job_id reason db = elim (first_where (λ j. j.id == job_id) db.jobs) [
  | none ↦ (none, db)
  | some j ↦
      if not (is_pending j.status)
      then (none, db)
      else (some (skip_job now reason j), put_job (skip_job now reason j) db)
]

-- The unique constraint of `review_failure_notices`, and the WHERE clause that looks by it.
pub notices_for : ReviewJob → String → ReviewFailureNotice → Bool
notices_for j category n =
    str_eq n.repository_owner j.key.repository_owner
    && str_eq n.repository_name j.key.repository_name
    && (n.pull_request_number == j.key.pull_request_number)
    && str_eq n.head_sha j.key.head_sha
    && str_eq n.error_category category

abbrev pub new_notice : ReviewJob → String → ReviewFailureNotice
new_notice j category = record {
  repository_owner = j.key.repository_owner;
  repository_name = j.key.repository_name;
  pull_request_number = j.key.pull_request_number;
  head_sha = j.key.head_sha;
  error_category = category;
  github_comment_id = none;
}

-- `raced` are the rows that other transactions commit between the first look and this commit.
-- `none` is the failed assertion at the end.
pub get_or_create_failure_notice :
    List ReviewFailureNotice → ReviewJob → String → Database → Option ReviewFailureNotice × Database
unfolding notices_for
get_or_create_failure_notice raced j category db =
    elim (first_where (notices_for j category) db.failure_notices) [
      | some n ↦ (some n, db)
      | none ↦
          let after = record db { failure_notices = db.failure_notices ++ raced } in
          if any (notices_for j category) raced
          then (first_where (notices_for j category) after.failure_notices, after)
          else (
            some (new_notice j category),
            record db { failure_notices = after.failure_notices ++ new_notice j category ∷ [] },
          )
    ]
