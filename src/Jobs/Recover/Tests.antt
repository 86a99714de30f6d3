-- ===== src/Jobs/Recover/Tests.antt =====
-- Recovery of a queue with a job that crashed before and one that crashed after its execution was
-- recorded, and a pending job that keeps an execution.
use inryeok_bot.Prelude.{◌-◌, ◌≡◌, refl, false, some, [], ◌∷◌, Has, inl, inr}
use inryeok_bot.Jobs.Model.{ReviewJob, Database}
use inryeok_bot.Jobs.Fixtures.{pending_job, running_job, executing_job, a_queue}
use inryeok_bot.Jobs.Recover.{
  is_stale, is_recoverable, requeue, is_exhausted, exhaust, is_unknown, fail_unknown, recover_stale,
}
use inryeok_bot.Jobs.Recover.Safety.{recover_stale_settles, recover_stale_never_reruns}

abbrev crashed : ReviewJob
crashed = record executing_job { id = 2; delivery_id = "d2" }

abbrev waiting_again : ReviewJob
waiting_again = record pending_job { id = 3; delivery_id = "d3"; execution_id = some "e3" }

abbrev before : Database
before = a_queue (running_job ∷ crashed ∷ waiting_again ∷ [])

abbrev requeued : ReviewJob
requeued = record pending_job {
  attempts = 1;
  error_code = some "STALE_RECOVERED";
  error_message = some "Recovered after worker interruption";
}

requeued-Has : Has requeued (recover_stale 1000 60 3 before).1.jobs
unfolding is_stale is_recoverable requeue is_exhausted exhaust is_unknown fail_unknown recover_stale
requeued-Has = inl refl

waiting-Has : Has waiting_again (recover_stale 1000 60 3 before).1.jobs
unfolding is_stale is_recoverable requeue is_exhausted exhaust is_unknown fail_unknown recover_stale
waiting-Has = inr (inr (inl refl))

recover_stale_settles_example : is_stale (1000 - 60) requeued ≡ false
recover_stale_settles_example = recover_stale_settles 1000 60 3 before requeued requeued-Has

recover_stale_never_reruns_example : Has waiting_again before.jobs
recover_stale_never_reruns_example =
    recover_stale_never_reruns 1000 60 3 before waiting_again waiting-Has refl refl
