-- ===== src/Worker.antt =====
-- One round of `run_worker` of app/jobs/worker.py, from the claimed job to the committed result.
-- `ReviewService.execute` is an argument: what it did to the session, and how it ended.
pub mod Session
pub mod Report
pub mod Settle
