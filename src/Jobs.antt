-- ===== src/Jobs.antt =====
-- The review job queue (app/jobs/models.py, app/jobs/repository.py).
pub mod Model
pub mod Unique
pub mod States
pub mod Claim
pub mod Recover
pub mod Enqueue
pub mod Finish
pub mod Retry
pub mod Fixtures
