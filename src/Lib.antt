-- ===== src/Lib.antt =====
-- The webhook intake, the review queue, the worker round, the review passes, the isolated executor,
-- the settings, the failure contract and the validation of findings of the review bot, modelled
-- from its Python code.
--
-- The program keeps review jobs in a database. A webhook puts jobs into the queue if the policy
-- of the repository allows it; a worker claims them one at a time, runs the
-- review, and settles the job by how the review ended. A review has one to three passes, each an
-- execution by the executor, a separate service that keeps a durable record for each execution id;
-- the findings pass a validator before they are published; a watchdog and the start of a worker
-- recover what was interrupted. These parts interact through the rows of the database, through the
-- executor's replies and through the failures that are written onto a job.
--
-- Files:
-- - Prelude: Boolean tests, lists as tables, bounded texts. Tables are lists of rows, a WHERE clause
--   is a Boolean test, UPDATE is `update_where`, a nullable column is an Option, and NULL passes no
--   test.
-- - Jobs/Model: the rows of app/jobs/models.py and the unique constraints of `review_jobs`.
-- - Jobs/Claim, Enqueue, Recover, Finish, Retry: the functions of app/jobs/repository.py under the
--   same names, each a function from a database to a result and a database. Jobs/Recover also has
--   the update of old pending jobs of app/ops/watchdog.py. Each has modules below it named for what
--   they prove.
-- - Jobs/States: the state machine of a job, and what an operation may do to the rows.
-- - Failures: app/review/failures.py, with the exceptions of app/codex/runner.py and
--   app/github/client.py.
-- - Worker: the round of `run_worker` of app/jobs/worker.py. Worker/Session is the database session
--   with the job object that it holds: a commit stores the object, a rollback expires it, and an
--   expired object cannot be read until it is loaded.
-- - Review: app/review/validator.py with the data of app/codex/schemas.py. Review/Validate has the
--   guards, Location those on the place of a finding, Loop the examination of the findings, Limit
--   the budget and the result. Review/Path is `normalize_path` of app/review/diff.py, and
--   Review/Fingerprint is app/review/deduplicator.py. Review/Settings is `resolve` of
--   app/review/settings.py, with its columns in Settings/Columns; Review/Catalog has the choice of a
--   model of app/review/model_catalog.py; Review/Passes is app/review/passes.py, with `plan_passes`
--   in Plan and `execute_passes` in Execute.
-- - Executor: app/codex/executor.py. Run is `_run_review`, Records the files of the state directory,
--   Service the function `review`, cut where it waits for the process, as steps on the service's
--   state; Client and Archive are app/codex/executor_client.py with the other side of the archive.
-- - Failures/Classify: `classify_codex_failure` of app/codex/runner.py.
-- - Webhook: app/github/webhook.py and app/github/schemas.py. Delivery is the ledger of deliveries
--   with its reservation in steps that other requests come between,
--   Event the data of an event, Gate the tests on it and the job that follows, Command the review
--   command, Installation the access of repositories.
--
-- Conventions: a timestamp is a number of seconds, subtraction stops at 0, and a confidence is
-- counted in thousandths. A transaction is one step on the database: `enqueue` runs under the lock
-- on the settings row, and the rows that other workers have locked are an argument of the claim.
-- The claim's order is creation time, then id. The executor's record files are in the order in which
-- they were written, newest first, which is that of their times of modification; `_process_counts`
-- is the count that `_run_review` hands to its caller. All loops are structural recursions on lists,
-- so there is no fuel.
--
-- Arguments: the database's lower(), the clock, fresh identities, the answers of GitHub, how
-- `ReviewService.execute` ends and what session it leaves, the rows that other workers insert, and
-- for the validator Python's Unicode text functions and the hash of a fingerprint. The theorems
-- hold for all of them.
--
-- `finish` has no guard on the state it overwrites, as in the source.
--
-- In the executor the hash, the printing of a number, what the disk shows, how far a write comes and
-- how the process ends are arguments; in the settings and the gates, Python's text methods and the
-- answers of GitHub.
--
-- Not modelled: the parsing of the diff and the checkout, the subprocess of Codex and its prompt, the
-- review service, risks and domains, the reading of a webhook request and the notices that answer
-- it, the storing of catalogs, publication, administration, configuration, alerts, migrations and scripts.
-- `failure_message`, `failure_code` and `failure_category` of the worker only make texts.
pub mod Prelude
pub mod Jobs
pub mod Failures
pub mod Worker
pub mod Review
pub mod Executor
pub mod Webhook
