-- ===== src/Jobs/Recover/Steps.antt =====
-- Recovery and expiry move running and pending rows to states where they wait or end.
use inryeok_bot.Prelude.{ℕ, ◌-◌, arith}
use inryeok_bot.Jobs.Model.{ReviewJob, Database}
use inryeok_bot.Jobs.States.{Advances, IsWellFormed}
use inryeok_bot.Jobs.States.Rows.{Sound, Sound-update, Sound-map}
use inryeok_bot.Jobs.Recover.{
  recover_job, recover_stale, fail_stale_pending, is_stale_pending, fail_pending,
}
use inryeok_bot.Jobs.Recover.Single.{recover_stale-eq-map}

pub expire-Sound :
    (now pending_cutoff : ℕ) (db : Database)
    → IsWellFormed db
    → Sound db (fail_stale_pending now pending_cutoff db)
unfolding fail_stale_pending
expire-Sound now pending_cutoff db w =
    Sound-update (is_stale_pending pending_cutoff) (fail_pending now) db (λ x. ground arith) w

recover_job-Advances :
    (now cutoff max_attempts : ℕ) (j : ReviewJob)
    → Advances j (recover_job now cutoff max_attempts j)
unfolding recover_job recover_stale
recover_job-Advances now cutoff max_attempts j = ground arith

pub recover-Sound :
    (now seconds max_attempts : ℕ) (db : Database)
    → IsWellFormed db
    → Sound db (recover_stale now seconds max_attempts db).1
unfolding recover_stale
recover-Sound now seconds max_attempts db w =
    Sound-map (recover_job now (now - seconds) max_attempts) db
      (recover_stale now seconds max_attempts db).1.jobs
      (recover_stale-eq-map now seconds max_attempts db)
      (recover_job-Advances now (now - seconds) max_attempts) w
