-- ===== src/Jobs/Recover/Safety.antt =====
-- After recovery no stale job is left running, and no job that may have executed waits to run again.
use inryeok_bot.Prelude.{
  ℕ, ◌-◌, ◌≡◌, refl, sym, subst, ◌∙◌, true, false, List, [], ◌∷◌, arith, map, inl, inr, Has,
  is_present,
}
use inryeok_bot.Jobs.Model.{ReviewJob, Database, pending}
use inryeok_bot.Jobs.Recover.{recover_job, recover_stale, is_stale}
use inryeok_bot.Jobs.Recover.Single.{recover_stale-eq-map}

Has-map :
    (f : ReviewJob → ReviewJob) (xs : List ReviewJob) (y : ReviewJob)
    → Has y (map f xs)
    → (x : ReviewJob) × Has x xs × (f x ≡ y)
Has-map f [] y h = absurd h
Has-map f (x ∷ xs) y (inl e) = (x, inl refl, e)
Has-map f (x ∷ xs) y (inr m) = let (z, mz, e) = Has-map f xs y m in (z, inr mz, e)

-- Each row after recovery is a recovered row of before.
Has-recover :
    (now seconds max_attempts : ℕ) (db : Database) (y : ReviewJob)
    → Has y (recover_stale now seconds max_attempts db).1.jobs
    → (x : ReviewJob) × Has x db.jobs × (recover_job now (now - seconds) max_attempts x ≡ y)
Has-recover now seconds max_attempts db y m =
    Has-map (recover_job now (now - seconds) max_attempts) db.jobs y
      (subst (Has y) (recover_stale-eq-map now seconds max_attempts db) m)

recover_job-settles :
    (now cutoff max_attempts : ℕ) (x : ReviewJob)
    → is_stale cutoff (recover_job now cutoff max_attempts x) ≡ false
unfolding recover_job recover_stale
recover_job-settles now cutoff max_attempts x = ground arith

recover_job-kept :
    (now cutoff max_attempts : ℕ) (x : ReviewJob)
    → (recover_job now cutoff max_attempts x).status ≡ pending
    → is_present (recover_job now cutoff max_attempts x).execution_id ≡ true
    → recover_job now cutoff max_attempts x ≡ x
unfolding recover_job recover_stale
recover_job-kept now cutoff max_attempts x p e = ground arith

-- No job that was started before the cutoff is RUNNING after recovery.
pub recover_stale_settles :
    (now seconds max_attempts : ℕ) (db : Database) (y : ReviewJob)
    → Has y (recover_stale now seconds max_attempts db).1.jobs
    → is_stale (now - seconds) y ≡ false
recover_stale_settles now seconds max_attempts db y m =
    let (x, _, e) = Has-recover now seconds max_attempts db y m in
    rw (← e) (recover_job-settles now (now - seconds) max_attempts x)

-- A job with a recorded execution that is PENDING after recovery was in the queue as it is: recovery
-- puts no such job back.
pub recover_stale_never_reruns :
    (now seconds max_attempts : ℕ) (db : Database) (y : ReviewJob)
    → Has y (recover_stale now seconds max_attempts db).1.jobs
    → y.status ≡ pending
    → is_present y.execution_id ≡ true
    → Has y db.jobs
recover_stale_never_reruns now seconds max_attempts db y m p e =
    let (x, mx, same) = Has-recover now seconds max_attempts db y m in
    subst (λ z. Has z db.jobs)
      (sym (recover_job-kept now (now - seconds) max_attempts x (rw same p) (rw same e)) ∙ same) mx
