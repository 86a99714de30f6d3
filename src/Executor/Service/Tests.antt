-- ===== src/Executor/Service/Tests.antt =====
-- Tests and witnesses of the executor's service.
use inryeok_bot.Prelude.{
  ℕ, ◌+◌, ◌≤◌, String, false, none, some, List, [], ◌∷◌, ◌≡◌, refl, if◌then◌else◌, ◌==◌,
}
use inryeok_bot.Executor.{Request, in_progress, invalid_snapshot}
use inryeok_bot.Executor.Run.{produced, unsafe_archive, run_review}
use inryeok_bot.Executor.Records.{
  readable, written, write_execution_record, recorded_answer, dedupe, read_file,
}
use inryeok_bot.Executor.Service.{
  Execution, Service, empty_service, Setting, running_record, start, try_start, after_dedupe,
  after_snapshot, answer_record, write_answer, settle, request_fingerprint, review, Event, arrives,
  ends, restarts, end_execution, step, launches,
}
use inryeok_bot.Executor.Service.Traces.{run, launch_count, loss_count}
use inryeok_bot.Executor.Service.Guards.{Started, review-Started}
use inryeok_bot.Executor.Service.Once.{launched_at_most_once}
use inryeok_bot.Executor.Service.Replay.{answer_replayed}

-- A digest that keeps the prompt.
a_digest : List String → String
a_digest (schema ∷ archive ∷ mark ∷ prompt ∷ rest) = prompt
a_digest _ = ""

a_decimal : ℕ → String
a_decimal n = if n == 900 then "900" else "n"

abbrev a_request : Request
a_request = record {
  archive = "YXJjaGl2ZQ==";
  prompt = "review";
  model = some "gpt";
  reasoning_effort = some "medium";
  model_catalog_version = some "1";
  model_verification_id = some "verified-1";
  verification_mode = false;
  timeout = some 900;
  execution_id = "execution-000001";
}

abbrev a_setting : Setting
a_setting = record { now = 100; reading = readable; schema = some "schema"; write = written }

abbrev an_execution : Execution
an_execution = record { execution_id = "execution-000001"; request_fingerprint = "review" }

abbrev busy : Service
busy = record { files = []; seen = "execution-000001" ∷ []; holder = some an_execution }

abbrev some_events : List (Event a_digest a_decimal)
some_events =
    arrives a_setting a_request
    ∷ arrives a_setting a_request
    ∷ ends written 120 "c" (produced "{}" (some 1))
    ∷ restarts
    ∷ arrives a_setting a_request
    ∷ []

launched_at_most_once_example :
    launch_count a_digest a_decimal "execution-000001" some_events empty_service
    ≤ 1 + loss_count a_digest a_decimal "execution-000001" some_events empty_service
launched_at_most_once_example =
    launched_at_most_once a_digest a_decimal "execution-000001" some_events

launched_once : launch_count a_digest a_decimal "execution-000001" some_events empty_service ≡ 1
unfolding launches step review after_snapshot after_dedupe try_start start end_execution settle
    write_answer answer_record run_review write_execution_record read_file dedupe recorded_answer
    invalid_snapshot running_record a_digest
launched_once = refl

review-Started_example :
    (invalid_snapshot a_request ≡ none)
    × Started a_setting "execution-000001" "review" empty_service
        (review a_digest a_decimal a_setting a_request empty_service).0
unfolding review after_snapshot after_dedupe try_start start invalid_snapshot dedupe read_file
    a_digest request_fingerprint
review-Started_example = review-Started a_digest a_decimal a_setting a_request empty_service refl

answer_replayed_example :
    let later =
      run a_digest a_decimal
        (restarts ∷ [])
        (settle written 120 "c" (produced "{}" (some 1)) an_execution busy).0 in
    review a_digest a_decimal a_setting a_request later
    ≡ (later, some (run_review "c" (produced "{}" (some 1))).0)
unfolding step settle write_answer answer_record run_review write_execution_record
    request_fingerprint a_digest invalid_snapshot
answer_replayed_example =
    answer_replayed a_digest a_decimal written 120 "c" (produced "{}" (some 1)) an_execution busy
      (restarts ∷ []) a_setting a_request tt (λ q. cc) refl refl refl refl refl refl refl

-- An archive that is not safe leaves the record of a running execution behind.
unsafe_archive_stays :
    let events =
      arrives a_setting a_request ∷ ends written 120 "c" unsafe_archive ∷ restarts ∷ [] in
    (review a_digest a_decimal a_setting a_request (run a_digest a_decimal events empty_service)).1
    ≡ some in_progress
unfolding launches step review after_snapshot after_dedupe try_start start end_execution settle
    write_answer answer_record run_review write_execution_record read_file dedupe recorded_answer
    invalid_snapshot running_record a_digest
unsafe_archive_stays = refl
