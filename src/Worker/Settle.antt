-- ===== src/Worker/Settle.antt =====
-- The `try` of `run_worker`: the execution identity, the branches by exception, the failure notice
-- and the cleanup of the reaction.
pub mod Tests
pub mod Settled
pub mod Laws
pub mod Round
use Prim.Native.String.{String}
use inryeok_bot.Prelude.{
  ℕ, Bool, true, false, ◌&&◌, not, Option, none, some, List, [], ◌∷◌, ltb, if◌then◌else◌,
  is_present, is_truthy, update_where, str_eq,
}
use inryeok_bot.Jobs.Model.{
  JobStatus, ReviewJob, ReviewFailureNotice, Database, pending, succeeded, failed, skipped,
  is_terminal,
}
use inryeok_bot.Jobs.Finish.{finish_job, notices_for, get_or_create_failure_notice}
use inryeok_bot.Failures.Convert.{
  CodexError, Failing, codex_error, github_error, http_timeout, http_network, diff_error,
  other_error, ReviewFailure, failure_from_exception,
}
use inryeok_bot.Worker.Session.{Session, hold, get_job, assign, commit, rollback}
use inryeok_bot.Worker.Report.{
  category_name, job_snapshot_persistence_failure, apply_failure, apply_codex_columns,
}

-- What the outside answers in a round: the clock, the notices that other workers insert, the id of
-- a posted comment (none if posting raises), and the removal of the reaction.
pub data Reaction : Type 0 where
  unsupported removed raising : Reaction

pub record World : Type 0 where
  pub now : ℕ
  pub raced : List ReviewFailureNotice
  pub posted : Option ℕ
  pub reaction : Reaction

-- How `ReviewService.execute` ends.
pub data Outcome : Type 0 where
  completed : Outcome
  snapshot_failed : Outcome
  review_skipped : String → String → Outcome
  raised : Failing → Outcome
  cancelled : Outcome

-- How a round ends: its session, or an error that leaves `run_worker`, with what was not committed
-- dropped.
pub data Ending : Type 0 where
  settled : Session → Ending
  missing_greenlet : Session → Ending
  assertion_error : Session → Ending

-- The rest of a round that reads attributes of the job.
abbrev pub reading : (Session → Ending) → Session → Ending
reading rest s = if s.expired then missing_greenlet s else rest s

-- The rest of a round after a step that may have raised.
abbrev pub after : Ending → (Session → Ending) → Ending
after (settled s) rest = rest s
after (missing_greenlet s) rest = missing_greenlet s
after (assertion_error s) rest = assertion_error s

-- `execution_id = job.execution_id or uuid4().hex`, stored before the executor is asked
-- and followed by a refresh.
pub ensure_execution : String → Session → Session
unfolding commit
ensure_execution fresh s =
    if is_present s.held.execution_id
    then s
    else record (commit (hold (record s.held { execution_id = some fresh }) s)) { begun = true }

-- `repository.finish(job, ...)`. It reads `terminal_outcome` unless the job failed.
pub finish_held : World → JobStatus → Option String → Option String → Session → Ending
finish_held w failed code message s =
    settled (commit (assign (finish_job w.now failed code message) s))
finish_held w status code message s =
    reading (λ s. settled (commit (assign (finish_job w.now status code message) s))) s

-- `finish_after_error`
pub finish_after_error : World → JobStatus → Option String → Option String → Session → Ending
unfolding finish_held
finish_after_error w status code message s = finish_held w status code message (rollback s)

abbrev set_comment : ReviewJob → String → ℕ → Database → Database
set_comment j category comment db = record db {
  failure_notices =
      update_where (notices_for j category) (λ n. record n { github_comment_id = some comment })
        db.failure_notices;
}

-- The comment of a notice, whose id is stored with it.
pub post_notice : World → ReviewJob → String → Session → Option ReviewFailureNotice → Session
post_notice w j category s none = s
post_notice w j category s (some n) = if is_present n.github_comment_id then s else elim w.posted [
  | none ↦ s
  | some comment ↦ record s { database = set_comment j category comment s.database }
]

-- `publish_failure_notice`
pub publish_failure_notice : World → ReviewFailure → Session → Session
unfolding post_notice
publish_failure_notice w f s =
    let category = category_name f.category in
    let (notice, db) = get_or_create_failure_notice w.raced s.held category s.database in
    post_notice w s.held category (record s { database = db }) notice

-- The job waits for another attempt.
abbrev pub waiting : Option String → ReviewJob → ReviewJob
waiting message j = record j { status = pending; started_at = none; error_message = message }

-- The end of both branches that may try again.
pub retry_or_fail : World → Bool → ReviewFailure → Session → Ending
unfolding finish_held publish_failure_notice
retry_or_fail w again f s =
    if again
    then settled (commit (hold (waiting (some f.operator_message_ko) s.held) s))
    else after (finish_held w failed (some f.error_code) (some f.operator_message_ko) s)
        (λ s. settled (publish_failure_notice w f s))

-- `except CodexError`. `failure_from_exception` reads attributes of the job.
pub after_codex_error : World → ℕ → CodexError → Session → Ending
unfolding retry_or_fail
after_codex_error w max_attempts e s =
    let attempts = s.held.attempts in
    reading
      (λ s.
        let f = failure_from_exception (codex_error e) s.held in
        retry_or_fail w (e.retryable && ltb attempts max_attempts) f
          (hold (apply_codex_columns e (apply_failure f s.held)) s))
      (rollback s)

-- `except (TimeoutException, NetworkError, DiffError, GitHubAPIError)`
pub after_external_error : World → ℕ → Failing → Session → Ending
unfolding retry_or_fail
after_external_error w max_attempts exc s =
    let attempts = s.held.attempts in
    reading
      (λ s.
        let f = failure_from_exception exc s.held in
        retry_or_fail w (f.retryable && ltb attempts max_attempts) f
          (hold (apply_failure f s.held) s))
      (rollback s)

-- `except Exception`, on the row that `session.get` finds
pub unexpected_row : World → Failing → Session → Option ReviewJob → Ending
unfolding finish_after_error publish_failure_notice
unexpected_row w exc s none = settled s
unexpected_row w exc s (some job) =
    let f = failure_from_exception exc job in
    after
      (finish_after_error w failed (some f.error_code) (some f.operator_message_ko)
        (hold (apply_failure f job) s))
      (λ s. settled (publish_failure_notice w f s))

pub after_unexpected_error : World → Failing → Session → Ending
unfolding unexpected_row
after_unexpected_error w exc s = let s1 = rollback s in unexpected_row w exc s1 (get_job s1)

-- `except JobSnapshotPersistenceError`, on the row that `session.get` finds
pub snapshot_row : World → Session → Option ReviewJob → Ending
unfolding finish_held
snapshot_row w s none = settled s
snapshot_row w s (some job) =
    let f = job_snapshot_persistence_failure in
    finish_held w failed (some f.error_code) (some f.operator_message_ko)
      (hold (apply_failure f job) s)

pub after_snapshot_failure : World → Session → Ending
unfolding snapshot_row
after_snapshot_failure w s = let s1 = rollback s in snapshot_row w s1 (get_job s1)

-- `except ReviewSkipped`
pub after_skip : World → String → String → Session → Ending
unfolding finish_after_error
after_skip w code message s =
    after (finish_after_error w skipped (some code) (some message) s)
      (λ s. settled (commit (hold (record s.held { terminal_outcome = some code }) s)))

-- `except asyncio.CancelledError`, which only assigns
pub after_cancel : Session → Ending
after_cancel s =
    settled (commit (assign (λ j. record j { status = pending; started_at = none }) (rollback s)))

pub after_raise : World → ℕ → Failing → Session → Ending
unfolding after_codex_error after_external_error after_unexpected_error
after_raise w m (codex_error e) s = after_codex_error w m e s
after_raise w m (github_error e) s = after_external_error w m (github_error e) s
after_raise w m http_timeout s = after_external_error w m http_timeout s
after_raise w m http_network s = after_external_error w m http_network s
after_raise w m diff_error s = after_external_error w m diff_error s
after_raise w m (other_error code category bound) s =
    after_unexpected_error w (other_error code category bound) s

pub settle : World → ℕ → Outcome → Session → Ending
unfolding finish_held after_raise after_snapshot_failure after_skip after_cancel
settle w m completed s = finish_held w succeeded none none s
settle w m snapshot_failed s = after_snapshot_failure w s
settle w m (review_skipped code message) s = after_skip w code message s
settle w m (raised exc) s = after_raise w m exc s
settle w m cancelled s = after_cancel s

abbrev pub reaction_status : Reaction → String
reaction_status unsupported = "UNSUPPORTED"
reaction_status removed = "REMOVED_OR_ABSENT"
reaction_status raising = "FAILED"

-- The `finally` block. After MissingGreenlet it commits nothing: it reads attributes of the expired
-- job itself.
pub clean_up : World → Session → Session
clean_up w s =
    if is_terminal s.held.status
    then commit
        (hold (record s.held { reaction_cleanup_status = some (reaction_status w.reaction) }) s)
    else s

-- `CodexError("EXECUTOR_NOT_CONFIGURED", ...)`
abbrev executor_not_configured : CodexError
executor_not_configured = record {
  code = "EXECUTOR_NOT_CONFIGURED";
  retryable = false;
  retry_at = none;
  signature = "EXECUTOR_NOT_CONFIGURED";
  exit_code = none;
  safe_diagnostic = [];
  diagnostic_extraction_failed = false;
  stderr_byte_length = 0;
  correlation_id = none;
  stage = "codex_exec";
}

-- The body of the `try`: without an executor nothing is run, and with one the identity is stored
-- before `execute` is.
pub attempt : Bool → String → (Session → Outcome × Session) → Session → Outcome × Session
unfolding ensure_execution
attempt configured fresh execute s =
    if configured
    then execute (ensure_execution fresh s)
    else (raised (codex_error executor_not_configured), s)

-- A round: the client, the body of the `try`, its outcome settled, and the cleanup. Without a client
-- the assertion of the except branches raises, since then only `Exception` and `CodexError` can.
pub run_round : World → ℕ → Bool → Bool → String → (Session → Outcome × Session) → Session → Ending
unfolding attempt settle clean_up
run_round w max_attempts has_client configured fresh execute s =
    if has_client
    then (let (outcome, s') = attempt configured fresh execute s in
        after (settle w max_attempts outcome s') (λ s. settled (clean_up w s)))
    else assertion_error s
