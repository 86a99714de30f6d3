-- ===== src/Jobs/Finish/Steps.antt =====
-- An audited skip moves one row from pending to skipped.
use inryeok_bot.Prelude.{ℕ, String, ◌≡◌, inl, inr}
use inryeok_bot.Jobs.Model.{ReviewJob, Database, pending}
use inryeok_bot.Jobs.States.{Advances, IsWellFormed}
use inryeok_bot.Jobs.States.Rows.{Sound, Sound-refl, Sound-put}
use inryeok_bot.Jobs.Finish.{skip_pending, skip_job}
use inryeok_bot.Jobs.Finish.Outcome.{skip_pending_outcome}
use inryeok_bot.Prelude.{arith}

skip_job-Advances :
    (now : ℕ) (reason : String) (j : ReviewJob)
    → j.status ≡ pending
    → Advances j (skip_job now reason j)
unfolding skip_job
skip_job-Advances now reason j p = ground arith

pub skip-Sound :
    (now job_id : ℕ) (reason : String) (db : Database)
    → IsWellFormed db
    → Sound db (skip_pending now job_id reason db).1
skip-Sound now job_id reason db w = elim (skip_pending_outcome now job_id reason db) [
  | inl (_, e) ↦ rw e (Sound-refl db w)
  | inr (j, m, _, p, _, e, _) ↦
      rw e (Sound-put j (skip_job now reason j) db w m (skip_job-Advances now reason j p))
]
