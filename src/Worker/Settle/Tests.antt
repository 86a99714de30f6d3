-- ===== src/Worker/Settle/Tests.antt =====
-- Rounds of the worker on one claimed job.
use inryeok_bot.Prelude.{◌≡◌, refl, true, false, some, [], ◌∷◌}
use inryeok_bot.Jobs.Fixtures.{executing_job, a_queue}
use inryeok_bot.Worker.Session.{Session, rollback}
use inryeok_bot.Worker.Settle.{
  World, removed, Outcome, completed, review_skipped, missing_greenlet, ensure_execution, attempt,
  finish_held, finish_after_error, after_skip, settle, run_round,
}

abbrev a_world : World
a_world = record { now = 200; raced = []; posted = some 9; reaction = removed }

abbrev a_session : Session
a_session = record {
  database = a_queue (executing_job ∷ []);
  held = executing_job;
  begun = true;
  expired = false;
}

-- A review that ends well and writes nothing.
abbrev succeed : Session → Outcome × Session
succeed s = (completed, s)

-- A review that is skipped after a query is not settled.
abbrev skip : Session → Outcome × Session
skip s = (review_skipped "HEAD_CHANGED" "The head has changed.", s)

skip_unsettled :
    run_round a_world 3 true true "e2" skip a_session ≡ missing_greenlet (rollback a_session)
unfolding run_round attempt ensure_execution settle after_skip finish_after_error finish_held
    rollback
skip_unsettled = refl
