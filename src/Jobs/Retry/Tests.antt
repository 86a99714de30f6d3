-- ===== src/Jobs/Retry/Tests.antt =====
-- Retries of a failed job, of a failed retry, and of a head that was reviewed since.
use inryeok_bot.Prelude.{◌≡◌, refl, true, false, none, some, [], ◌∷◌, inl, inr}
use inryeok_bot.Jobs.Model.{Database, conflicts}
use inryeok_bot.Jobs.Fixtures.{failed_job, failed_retry, succeeded_job, a_queue}
use inryeok_bot.Jobs.Claim.{is_claimable}
use inryeok_bot.Jobs.Retry.{
  returned, integrity_error, succeeded_same_head, retry_job, insert_retry, retry_known,
  retry_request,
}
use inryeok_bot.Jobs.Retry.Guards.{retry_job_starves, retry_of_retry_fails}
use inryeok_bot.Jobs.Retry.Once.{retry_once, after_requests}

abbrev before : Database
before = a_queue (failed_job ∷ [])

abbrev after : Database
after = (retry_request 300 "r1" 1 before).1

retried :
    retry_request 300 "r1" 1 before ≡ (returned (some (retry_job 5 300 "r1" failed_job)), after)
unfolding succeeded_same_head retry_job insert_retry retry_known retry_request conflicts
retried = refl

retry_once_example :
    let current = after_requests ((350, "r3", 1) ∷ (360, "r4", 9) ∷ []) after in
    retry_request 400 "r2" 1 current ≡ (returned (some (retry_job 5 300 "r1" failed_job)), current)
retry_once_example =
    retry_once 300 400 "r1" "r2" 1 before after (retry_job 5 300 "r1" failed_job)
      ((350, "r3", 1) ∷ (360, "r4", 9) ∷ []) retried

retry_job_starves_example :
    is_claimable (λ s. s) (λ _. false) 500 none none after (retry_job 5 300 "r1" failed_job) ≡ false
retry_job_starves_example =
    retry_job_starves (λ s. s) (λ _. false) 500 none none after 5 300 "r1" failed_job

same_head : succeeded_same_head failed_job succeeded_job ≡ true
unfolding succeeded_same_head
same_head = refl

retry_of_retry_fails_example :
    retry_known 300 "r3" failed_retry (a_queue (failed_job ∷ failed_retry ∷ []))
    ≡ (integrity_error, a_queue (failed_job ∷ failed_retry ∷ []))
unfolding succeeded_same_head
retry_of_retry_fails_example =
    retry_of_retry_fails 300 "r3" failed_retry (a_queue (failed_job ∷ failed_retry ∷ []))
      (inr (inl refl)) refl refl refl refl
