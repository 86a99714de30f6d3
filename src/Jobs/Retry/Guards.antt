-- ===== src/Jobs/Retry/Guards.antt =====
-- When an administrator's retry is refused, and that its job never starts.
use text.Mathlib.TextPositions.{eq_refl}
use inryeok_bot.Prelude.{
  ℕ, String, ◌≡◌, refl, Bool, true, false, Option, none, some, List, [], ◌∷◌, arith, first_where,
  any-Has, is_present, Has,
}
use inryeok_bot.Jobs.Model.{ReviewJob, Database, failed, retry, same_number, conflicts}
use inryeok_bot.Jobs.Claim.{is_claimable}
use inryeok_bot.Jobs.Claim.Effect.{retry_key-not-claimable}
use inryeok_bot.Jobs.Retry.{
  returned, integrity_error, succeeded_same_head, retry_job, insert_retry, retry_known,
}

-- A job that retries another is never claimable, whatever the limits and the settings.
pub retry_job_starves :
    (lower : String → String) (locked : ℕ → Bool) (now : ℕ) (gl rl : Option ℕ) (db : Database)
    (id at : ℕ) (delivery_id : String) (j : ReviewJob)
    → is_claimable lower locked now gl rl db (retry_job id at delivery_id j) ≡ false
unfolding retry_job
retry_job_starves lower locked now gl rl db id at delivery_id j =
    retry_key-not-claimable lower locked now gl rl db (retry_job id at delivery_id j) refl

found-present :
    (p : ReviewJob → Bool) (xs : List ReviewJob) (x : ReviewJob)
    → Has x xs
    → p x ≡ true
    → is_present (first_where p xs) ≡ true
found-present p [] x m e = absurd m
found-present p (y ∷ ys) x m e = ground (arith, found-present p ys x)

-- A job whose head has a successful job is not retried, and nothing changes.
pub retry_after_success :
    (now : ℕ) (delivery_id : String) (j x : ReviewJob) (db : Database)
    → Has x db.jobs
    → succeeded_same_head j x ≡ true
    → retry_known now delivery_id j db ≡ (returned none, db)
unfolding retry_known
retry_after_success now delivery_id j x db m e =
    ground (arith, found-present (succeeded_same_head j) db.jobs x m e)

-- The new row of a retry conflicts with the row that it retries, if that is a retry too.
retry_job-conflicts :
    (id now : ℕ) (delivery_id : String) (j : ReviewJob)
    → j.key.trigger_type ≡ retry
    → conflicts (retry_job id now delivery_id j) j ≡ true
unfolding conflicts retry_job
retry_job-conflicts id now delivery_id j t =
    ground
      (arith, eq_refl j.key.repository_owner, eq_refl j.key.repository_name, eq_refl j.key.head_sha)

insert_retry_conflicts :
    (now : ℕ) (delivery_id : String) (j : ReviewJob) (db : Database)
    → Has j db.jobs
    → j.key.trigger_type ≡ retry
    → insert_retry now delivery_id j db ≡ (integrity_error, db)
unfolding insert_retry
insert_retry_conflicts now delivery_id j db m t = rw (
    any-Has (conflicts (retry_job db.next_job_id now delivery_id j)) db.jobs j m
      (retry_job-conflicts db.next_job_id now delivery_id j t))

-- The retry of a failed job that is itself a retry, whose head has no successful job and that
-- was not retried before, always violates the unique index on policy heads.
pub retry_of_retry_fails :
    (now : ℕ) (delivery_id : String) (j : ReviewJob) (db : Database)
    → Has j db.jobs
    → j.status ≡ failed
    → j.key.trigger_type ≡ retry
    → first_where (succeeded_same_head j) db.jobs ≡ none
    → first_where (λ x. same_number x.retry_of_job_id (some j.id)) db.jobs ≡ none
    → retry_known now delivery_id j db ≡ (integrity_error, db)
unfolding retry_known
retry_of_retry_fails now delivery_id j db m f t fresh single =
    rw f (rw (fresh, single) (ground (arith, insert_retry_conflicts now delivery_id j db m t)))
