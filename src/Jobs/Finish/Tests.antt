-- ===== src/Jobs/Finish/Tests.antt =====
-- The end of a running job, the skip of a pending one, and a notice that another worker inserts.
use inryeok_bot.Prelude.{◌≡◌, refl, ◌≢◌, ◌⊎◌, true, some, is_truthy}
use inryeok_bot.Jobs.Model.{failed}
use inryeok_bot.Jobs.Fixtures.{running_job}
use inryeok_bot.Jobs.Finish.{finish_job}
use inryeok_bot.Jobs.Finish.Outcome.{FitsIn, finish_job_terminal}

finish_job_terminal_example :
    let f = finish_job 200 failed (some "CODEX_AUTH") (some "no login") running_job in
    (is_truthy f.terminal_outcome ≡ true)
    × (f.finished_at ≡ some 200)
    × FitsIn 4000 f.error_message
    × ((failed ≢ failed) ⊎ (f.terminal_outcome ≡ some "FAILED_FINAL"))
finish_job_terminal_example =
    finish_job_terminal 200 failed (some "CODEX_AUTH") (some "no login") running_job refl
