-- ===== src/Executor/Service.antt =====
-- `review` of app/codex/executor.py as steps of the service: a request arrives, the execution that
-- holds the lock ends, the process restarts, or a record is damaged.
mod Traces
mod Guards
mod Files
mod Once
mod Recorded
mod Replay
mod Tests
use inryeok_bot.Prelude.{
  ℕ, suc, ◌+◌, String, Bool, true, false, ◌&&◌, ◌||◌, not, Option, none, some, List, [], ◌∷◌, ltb,
  str_eq, if◌then◌else◌, is_present, any, select_where, update_where,
}
use inryeok_bot.Executor.{
  Request, Content, Answer, answered, refused, raised, refusal, in_progress, invalid_snapshot,
  fingerprint_pieces,
}
use inryeok_bot.Executor.Run.{Attempt, run_review}
use inryeok_bot.Executor.Records.{
  ExecutionState, running, succeeded, failed_final, failed_retryable, ExecutionRecord, RecordFile,
  is_file_of, find_file, has_file, WriteOutcome, is_persisted, write_execution_record, Reading,
  hidden, read_file, dedupe,
}

-- The request that holds `_execution_lock`, and its fingerprint.
pub record Execution : Type 0 where
  pub execution_id : String
  pub request_fingerprint : String

-- The state directory, `_seen_execution_ids` and the holder of `_execution_lock`.
pub record Service : Type 0 where
  pub files : List RecordFile
  pub seen : List String
  pub holder : Option Execution

abbrev pub empty_service : Service
empty_service = record { files = []; seen = []; holder = none }

-- What one request meets: the time, the reading of the state directory, the digest of the schema
-- file, and the fate of the first write.
pub record Setting : Type 0 where
  pub now : ℕ
  pub reading : Reading
  pub schema : Option String
  pub write : WriteOutcome

abbrev pub is_seen : String → List String → Bool
is_seen id seen = any (str_eq id) seen

abbrev pub running_record : String → String → ExecutionRecord
running_record id hash = record {
  execution_id = id;
  request_fingerprint = hash;
  state = running;
  result = none;
  status_code = none;
  error = none;
  process_count = none;
}

-- From `_seen_execution_ids.add` to the lock: an answer, or none where the execution starts.
pub start : Setting → String → String → Service → Service × Option Answer
start e id hash s =
    let files = write_execution_record e.write e.now (running_record id hash) s.files in
    if is_persisted e.write
    then (
      record {
        files = files;
        seen = id ∷ s.seen;
        holder = some (record { execution_id = id; request_fingerprint = hash });
      },
      none,
    )
    else (
      record s { files = files; seen = select_where (λ x. not (str_eq x id)) s.seen },
      some (refused 503 (refusal "EXECUTOR_STATE_UNAVAILABLE" "durable_state")),
    )

-- The tests on the process's own state.
pub try_start : Setting → String → String → Service → Service × Option Answer
try_start e id hash s =
    if is_seen id s.seen
    then (s, some in_progress)
    else if is_present s.holder
    then (s, some (raised 429))
    else start e id hash s

pub after_dedupe : Option Answer → Setting → String → String → Service → Service × Option Answer
after_dedupe (some a) e id hash s = (s, some a)
after_dedupe none e id hash s = try_start e id hash s

pub after_snapshot : Option Answer → Setting → String → String → Service → Service × Option Answer
after_snapshot (some a) e id hash s = (s, some a)
after_snapshot none e id hash s =
    after_dedupe (dedupe hash (read_file e.reading (find_file id s.files))) e id hash s

abbrev pub settled_record : Execution → ExecutionState → Option ℕ → ExecutionRecord
settled_record x state count = record {
  execution_id = x.execution_id;
  request_fingerprint = x.request_fingerprint;
  state = state;
  result = none;
  status_code = none;
  error = none;
  process_count = count;
}

-- The record of an answer. An exception leaves none.
pub answer_record : Execution → Answer → Option ℕ → Option ExecutionRecord
answer_record x (answered result) count =
    some (record (settled_record x succeeded count) { result = some result })
answer_record x (refused status content) count =
    some
      (record (settled_record x (if ltb status 500 then failed_final else failed_retryable) count) {
        status_code = some status;
        error = some content;
      })
answer_record x (raised status) count = none

-- The end of the execution: what is written, and what the caller gets.
pub write_answer :
    Option ExecutionRecord → WriteOutcome → ℕ → Answer → List RecordFile → List RecordFile × Answer
write_answer none w now answer files = (files, answer)
write_answer (some r) w now answer files = (
  write_execution_record w now r files,
  if is_persisted w
      then answer
      else refused 503 (refusal "EXECUTOR_RESULT_NOT_DURABLE" "durable_state"),
)

pub settle : WriteOutcome → ℕ → String → Attempt → Execution → Service → Service × Answer
unfolding write_answer answer_record
settle w now correlation attempt x s =
    let (answer, count) = run_review correlation attempt in
    let (files, reply) = write_answer (answer_record x answer count) w now answer s.files in
    (record s { files = files; holder = none }, reply)

-- `sha256` is the hexadecimal digest of the pieces in order, and `decimal` is `str` on a number.
module _ (sha256 : List String → String) (decimal : ℕ → String) where
  pub request_fingerprint : Option String → Request → String
  request_fingerprint schema r = sha256 (fingerprint_pieces decimal schema r)

  -- `review`, up to the lock.
  pub review : Setting → Request → Service → Service × Option Answer
  unfolding request_fingerprint
  review e r s =
      after_snapshot (invalid_snapshot r) e r.execution_id (request_fingerprint e.schema r) s

  pub data Event : Type 0 where
    arrives : Setting → Request → Event
    ends : WriteOutcome → ℕ → String → Attempt → Event
    restarts : Event
    damaged : String → Event

  end_execution : WriteOutcome → ℕ → String → Attempt → Option Execution → Service → Service
  end_execution w now correlation attempt none s = s
  end_execution w now correlation attempt (some x) s = (settle w now correlation attempt x s).0

  pub step : Event → Service → Service
  unfolding end_execution
  step (arrives e r) s = (review e r s).0
  step (ends w now correlation attempt) s = end_execution w now correlation attempt s.holder s
  step restarts s = record s { seen = []; holder = none }
  step (damaged id) s = record s {
    files = update_where (is_file_of id) (λ f. record f { stored = none }) s.files;
  }

  -- Whether the event starts an execution, with a process of its own, under the id.
  pub launches : String → Event → Service → Bool
  launches id (arrives e r) s = str_eq r.execution_id id && not (is_present (review e r s).1)
  launches id _ s = false
