-- ===== src/Jobs/Recover/Single.antt =====
-- The three UPDATE statements of `recover_stale` act as one pass, which puts each job in one class.
use inryeok_bot.Prelude.{ℕ, ◌-◌, ◌≡◌, refl, List, [], ◌∷◌, arith, if◌then◌else◌, map, update_where}
use inryeok_bot.Jobs.Model.{ReviewJob, Database}
use inryeok_bot.Jobs.Recover.{
  recover_job, is_recoverable, is_exhausted, is_unknown, requeue, exhaust, fail_unknown,
  recover_stale,
}

module _ (now cutoff max_attempts : ℕ) where
  recover_job-eq-updates :
      (j : ReviewJob)
      → let a = (if is_recoverable cutoff max_attempts j then requeue j else j) in
        let b = (if is_exhausted cutoff max_attempts a then exhaust now a else a) in
        (if is_unknown cutoff max_attempts b then fail_unknown now b else b)
        ≡ recover_job now cutoff max_attempts j
  unfolding recover_job recover_stale
  recover_job-eq-updates j = ground arith

  updates-eq-map :
      (xs : List ReviewJob)
      → update_where (is_unknown cutoff max_attempts) (fail_unknown now) (
          update_where
            (is_exhausted cutoff max_attempts)
            (exhaust now)
            (update_where (is_recoverable cutoff max_attempts) requeue xs))
        ≡ map (recover_job now cutoff max_attempts) xs
  updates-eq-map [] = refl
  updates-eq-map (x ∷ xs) = cc (recover_job-eq-updates x, updates-eq-map xs)

pub recover_stale-eq-map :
    (now seconds max_attempts : ℕ) (db : Database)
    → (recover_stale now seconds max_attempts db).1.jobs
      ≡ map (recover_job now (now - seconds) max_attempts) db.jobs
unfolding recover_stale
recover_stale-eq-map now seconds max_attempts db =
    updates-eq-map now (now - seconds) max_attempts db.jobs
