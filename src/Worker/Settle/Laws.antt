-- ===== src/Worker/Settle/Laws.antt =====
-- How each outcome of the review settles the job, and when the settling itself fails.
use inryeok_bot.Prelude.{
  ℕ, String, ◌≡◌, refl, sym, subst, Bool, true, false, ◌&&◌, Option, none, some, ltb, if◌then◌else◌,
  first_where, first_where-Has, ◌==◌, ==_iff,
}
use inryeok_bot.Jobs.Model.{JobStatus, ReviewJob, Database, pending, succeeded, failed, skipped}
use inryeok_bot.Jobs.Finish.{finish_job}
use inryeok_bot.Failures.Convert.{
  Failing, codex_error, github_error, http_timeout, http_network, diff_error, other_error,
  failure_from_exception,
}
use inryeok_bot.Worker.Session.{Session, hold, get_job, assign, commit, rollback}
use inryeok_bot.Worker.Report.{job_snapshot_persistence_failure, apply_failure, apply_codex_columns}
use inryeok_bot.Worker.Settle.{
  World, Outcome, completed, snapshot_failed, review_skipped, raised, cancelled, Ending,
  missing_greenlet, finish_held, finish_after_error, after_codex_error, after_external_error,
  after_unexpected_error, after_snapshot_failure, after_skip, after_cancel, after_raise, settle,
  snapshot_row, unexpected_row,
}
use inryeok_bot.Worker.Settle.Settled.{
  publish-Settled, commit-Settled, finish-Settled, retry_or_fail-Settled, SettledRound,
}

-- Whether the exception itself allows another attempt.
abbrev pub may_retry : Failing → ReviewJob → Bool
may_retry (codex_error e) j = e.retryable
may_retry (other_error code category bound) j = false
may_retry exc j = (failure_from_exception exc j).retryable

-- The state that an outcome leads to, read off the table of the branches.
abbrev pub settled_status : ℕ → Outcome → ReviewJob → JobStatus
settled_status m completed j = succeeded
settled_status m snapshot_failed j = failed
settled_status m (review_skipped code message) j = skipped
settled_status m cancelled j = pending
settled_status m (raised exc) j = if may_retry exc j && ltb j.attempts m then pending else failed

-- The outcomes whose branches read the job after a rollback without loading it.
abbrev pub reads_expired : Outcome → Bool
reads_expired (review_skipped code message) = true
reads_expired (raised (other_error code category bound)) = false
reads_expired (raised exc) = true
reads_expired _ = false

-- A session whose object is loaded.
abbrev pub loaded : Database → ReviewJob → Bool → Session
loaded db h b = record { database = db; held = h; begun = b; expired = false }

-- How the outcome is settled: not at all if its branch reads an expired job, and in the state that
-- it calls for otherwise.
abbrev pub Settles : Bool → JobStatus → Option String → Session → Ending → Type 0
Settles true status e s r = r ≡ missing_greenlet (rollback s)
Settles false status e s r = SettledRound status e r

stored_at :
    (db : Database) (n : ℕ) (j : ReviewJob)
    → first_where (λ x. x.id == n) db.jobs ≡ some j
    → first_where (λ x. x.id == j.id) db.jobs ≡ some j
stored_at db n j e =
    let (m, same) = first_where-Has (λ x. x.id == n) db.jobs j e in
    subst (λ n. first_where (λ x. x.id == n) db.jobs ≡ some j) (sym ((==_iff j.id n).0 same)) e

snapshot_row-Settled :
    (w : World) (s : Session) (j : ReviewJob)
    → SettledRound failed j.execution_id (snapshot_row w s (some j))
unfolding snapshot_row finish_held apply_failure
snapshot_row-Settled w s j =
    let f = job_snapshot_persistence_failure in
    finish-Settled w failed (some f.error_code) (some f.operator_message_ko) (apply_failure f j)
      (hold (apply_failure f j) s) refl

-- The second rollback drops what was written of the failure, and the row is found again.
unexpected_row-Settled :
    (w : World) (exc : Failing) (s : Session) (k j : ReviewJob)
    → first_where (λ x. x.id == k.id) s.database.jobs ≡ some j
    → SettledRound failed j.execution_id (unexpected_row w exc s (some k))
unfolding unexpected_row finish_after_error finish_held apply_failure rollback
unexpected_row-Settled w exc s k j e =
    let f = failure_from_exception exc k in
    publish-Settled w f _ (
      finish-Settled w failed (some f.error_code) (some f.operator_message_ko) j
        (rollback (hold (apply_failure f k) s)) e)

cancel-Settled :
    (s : Session) (j : ReviewJob)
    → get_job (rollback s) ≡ some j
    → SettledRound pending j.execution_id (after_cancel s)
unfolding after_cancel assign
cancel-Settled s j e =
    rw (e, assign) (commit-Settled (record j { status = pending; started_at = none }) (rollback s))

module _ (w : World) (m : ℕ) (db : Database) (h j : ReviewJob)
    (st : first_where (λ x. x.id == h.id) db.jobs ≡ some j)
    (same : j.execution_id ≡ h.execution_id) where
  snapshot-Settles :
      (b : Bool) → SettledRound failed h.execution_id (after_snapshot_failure w (loaded db h b))
  unfolding after_snapshot_failure rollback
  snapshot-Settles true =
      subst (λ e. SettledRound failed e (after_snapshot_failure w (loaded db h true))) same
        (subst
          (λ o. SettledRound failed j.execution_id (snapshot_row w (rollback (loaded db h true)) o))
          (sym st) (snapshot_row-Settled w (rollback (loaded db h true)) j))
  snapshot-Settles false = snapshot_row-Settled w (loaded db h false) h

  unexpected-Settles :
      (exc : Failing) (b : Bool)
      → SettledRound failed h.execution_id (after_unexpected_error w exc (loaded db h b))
  unfolding after_unexpected_error rollback
  unexpected-Settles exc true =
      subst (λ e. SettledRound failed e (after_unexpected_error w exc (loaded db h true))) same
        (subst
          (λ o.
            SettledRound failed j.execution_id
              (unexpected_row w exc (rollback (loaded db h true)) o))
          (sym st)
          (unexpected_row-Settled w exc (rollback (loaded db h true)) j j (stored_at db h.id j st)))
  unexpected-Settles exc false =
      subst (λ e. SettledRound failed e (after_unexpected_error w exc (loaded db h false))) same
        (unexpected_row-Settled w exc (loaded db h false) h j st)

  cancel-Settles : (b : Bool) → SettledRound pending h.execution_id (after_cancel (loaded db h b))
  unfolding rollback
  cancel-Settles true =
      subst (λ e. SettledRound pending e (after_cancel (loaded db h true))) same
        (cancel-Settled (loaded db h true) j st)
  cancel-Settles false = cancel-Settled (loaded db h false) h refl

  external-Settles :
      (exc : Failing) (b : Bool)
      → Settles b
          (if (failure_from_exception exc h).retryable && ltb h.attempts m then pending else failed)
          h.execution_id
          (loaded db h b)
          (after_external_error w m exc (loaded db h b))
  unfolding after_external_error rollback apply_failure
  external-Settles exc true = refl
  external-Settles exc false =
      let f = failure_from_exception exc h in
      retry_or_fail-Settled w (f.retryable && ltb h.attempts m) f (apply_failure f h)
        (loaded db h false)

  pub settle-Settles :
      (o : Outcome) (b : Bool)
      → Settles
          (reads_expired o && b)
          (settled_status m o h)
          h.execution_id
          (loaded db h b)
          (settle w m o (loaded db h b))
  unfolding settle after_raise finish_held after_skip finish_after_error after_codex_error rollback
      apply_failure apply_codex_columns assign finish_job commit
  settle-Settles completed b = finish-Settled w succeeded none none h (loaded db h b) refl
  settle-Settles snapshot_failed b = snapshot-Settles b
  settle-Settles (review_skipped c t) true = refl
  settle-Settles (review_skipped c t) false =
      commit-Settled
        (record (finish_job w.now skipped (some c) (some t) h) { terminal_outcome = some c })
        (commit (hold (finish_job w.now skipped (some c) (some t) h) (loaded db h false)))
  settle-Settles (raised (codex_error e)) true = refl
  settle-Settles (raised (codex_error e)) false =
      let f = failure_from_exception (codex_error e) h in
      retry_or_fail-Settled w (e.retryable && ltb h.attempts m) f
        (apply_codex_columns e (apply_failure f h)) (loaded db h false)
  settle-Settles (raised (other_error c g k)) b = unexpected-Settles (other_error c g k) b
  settle-Settles (raised (github_error g)) b = external-Settles (github_error g) b
  settle-Settles (raised http_timeout) b = external-Settles http_timeout b
  settle-Settles (raised http_network) b = external-Settles http_network b
  settle-Settles (raised diff_error) b = external-Settles diff_error b
  settle-Settles cancelled b = cancel-Settles b
