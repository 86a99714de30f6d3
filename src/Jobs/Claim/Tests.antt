-- ===== src/Jobs/Claim/Tests.antt =====
-- The claim on a queue with one pending job.
use inryeok_bot.Prelude.{
  str_eq, ℕ, ◌≤◌, String, ◌≡◌, refl, ◌≢◌, Bool, true, false, none, some, [], ◌∷◌, Has,
}
use inryeok_bot.Jobs.Model.{ReviewJob, RepositorySettings, GlobalReviewSettings, Database, retry}
use inryeok_bot.Jobs.Fixtures.{pending_job, running_job, a_queue}
use inryeok_bot.Jobs.Claim.{
  globally_off, override_allows, repository_match, repository_allows, repository_eligible,
  runs_beside, below_limit, global_running, repository_running, is_due, is_paused, precedes,
  earliest, is_claimable, claim_statement, start_job, put_job, claim_next,
}
use inryeok_bot.Jobs.Claim.Sound.{IsFree}
use inryeok_bot.Jobs.Claim.Effect.{
  claim_next_starts, claim_next_gates, claim_next_global_limit, claim_next_repository_limit,
}

abbrev kept_text : String → String
kept_text s = s

abbrev unlocked : ℕ → Bool
unlocked _ = false

abbrev before : Database
before = a_queue (pending_job ∷ [])

abbrev after : Database
after = a_queue (running_job ∷ [])

claimed : claim_next kept_text unlocked 100 (some 1) (some 1) before ≡ (some running_job, after)
unfolding globally_off override_allows repository_match repository_allows repository_eligible
    runs_beside below_limit global_running repository_running is_due is_paused precedes earliest
    is_claimable claim_statement start_job put_job claim_next
claimed = refl

refused : claim_next kept_text unlocked 100 (some 0) (some 1) before ≡ (none, before)
unfolding globally_off override_allows repository_match repository_allows repository_eligible
    runs_beside below_limit global_running repository_running is_due is_paused precedes earliest
    is_claimable claim_statement start_job put_job claim_next
refused = refl

claim_next_global_limit_example : global_running after ≤ 1
claim_next_global_limit_example =
    claim_next_global_limit kept_text unlocked 100 before (tt, tt) 1 (some 1) running_job after
      claimed

claim_next_repository_limit_example : repository_running after running_job ≤ 1
claim_next_repository_limit_example =
    claim_next_repository_limit kept_text unlocked 100 before (tt, tt) (some 1) 1 running_job after
      claimed

claim_next_starts_example :
    (old : ReviewJob) × Has old before.jobs
    × IsFree kept_text unlocked 100 (some 1) (some 1) before old
    × ((k : ReviewJob)
        → Has k before.jobs
        → IsFree kept_text unlocked 100 (some 1) (some 1) before k
        → precedes old k ≡ true)
    × (running_job ≡ start_job 100 old)
unfolding start_job
claim_next_starts_example =
    claim_next_starts kept_text unlocked 100 (some 1) (some 1) before running_job after claimed

claim_next_gates_example :
    ((r : RepositorySettings) × Has r before.repositories
      × (r.installed ≡ true)
      × (r.installation_id ≡ running_job.key.installation_id)
      × (str_eq (kept_text r.repository_owner) (kept_text running_job.key.repository_owner) ≡ true)
      × (str_eq (kept_text r.repository_name) (kept_text running_job.key.repository_name) ≡ true))
    × ((g : GlobalReviewSettings)
        → before.global_settings ≡ some g
        → (g.enabled ≡ true) × (g.processing_paused ≡ false))
    × (running_job.key.trigger_type ≢ retry)
claim_next_gates_example =
    claim_next_gates kept_text unlocked 100 (some 1) (some 1) before running_job after claimed
