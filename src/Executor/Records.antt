-- ===== src/Executor/Records.antt =====
-- The durable execution records of app/codex/executor.py, newest first.
pub mod Kept
use inryeok_bot.Prelude.{
  ℕ, ◌*◌, ◌-◌, String, Bool, true, false, not, Option, none, some, List, [], ◌∷◌, leb, str_eq,
  if◌then◌else◌, select_where, first_where, update_where, is_present,
}
use inryeok_bot.Failures.Diagnostic.{list_prefix}
use inryeok_bot.Executor.{Content, Answer, answered, refused, in_progress, conflict, unavailable}

abbrev pub execution_record_ttl_seconds : ℕ
execution_record_ttl_seconds = 7 * 24 * 60 * 60

abbrev pub max_execution_records : ℕ
max_execution_records = 1000

-- `state` of a record. `unknown_state` is any other value.
pub data ExecutionState : Type 0 where
  received running succeeded failed_final failed_retryable unknown_state : ExecutionState

-- The object in a record's file.
pub record ExecutionRecord : Type 0 where
  pub execution_id : String
  pub request_fingerprint : String
  pub state : ExecutionState
  pub result : Option String
  pub status_code : Option ℕ
  pub error : Option Content
  pub process_count : Option ℕ

-- A file of the state directory. A file that holds no JSON object is `none`.
pub record RecordFile : Type 0 where
  pub execution_id : String
  pub modified : ℕ
  pub stored : Option ExecutionRecord

abbrev pub is_file_of : String → RecordFile → Bool
is_file_of id f = str_eq f.execution_id id

abbrev pub find_file : String → List RecordFile → Option RecordFile
find_file id files = first_where (is_file_of id) files

abbrev pub has_file : String → List RecordFile → Bool
has_file id files = is_present (find_file id files)

-- How far `_write_execution_record` comes: through; not to `os.replace`; or to it and no further.
pub data WriteOutcome : Type 0 where
  written not_replaced not_pruned : WriteOutcome

abbrev pub is_persisted : WriteOutcome → Bool
is_persisted written = true
is_persisted _ = false

abbrev pub replace_file : ℕ → ExecutionRecord → List RecordFile → List RecordFile
replace_file now r files =
    record { execution_id = r.execution_id; modified = now; stored = some r }
    ∷ select_where (λ f. not (is_file_of r.execution_id f)) files

abbrev pub is_fresh : ℕ → RecordFile → Bool
is_fresh now f = leb (now - f.modified) execution_record_ttl_seconds

-- The expired files go, then all but the newest `max_execution_records`.
abbrev pub prune : ℕ → List RecordFile → List RecordFile
prune now files = list_prefix max_execution_records (select_where (is_fresh now) files)

unfoldable pub write_execution_record :
    WriteOutcome → ℕ → ExecutionRecord → List RecordFile → List RecordFile
write_execution_record written now r files = prune now (replace_file now r files)
write_execution_record not_replaced now r files = files
write_execution_record not_pruned now r files = replace_file now r files

-- What the disk shows of the state directory: all of it, names only, or nothing.
pub data Reading : Type 0 where
  readable unreadable hidden : Reading

-- `_read_execution_record` and `_execution_record_exists`: the file, and what it holds.
unfoldable pub read_file : Reading → Option RecordFile → Option (Option ExecutionRecord)
read_file readable (some f) = some f.stored
read_file unreadable (some f) = some none
read_file _ _ = none

-- The answer that the state of a record gives to an identical request, if it gives one.
unfoldable pub recorded_answer : ExecutionState → ExecutionRecord → Option Answer
recorded_answer succeeded r = elim r.result [ none ↦ none | some result ↦ some (answered result) ]
recorded_answer running r = some in_progress
recorded_answer received r = some in_progress
recorded_answer unknown_state r = none
recorded_answer failed_final r = elim r.error [
  | none ↦ none
  | some error ↦ some (refused (elim r.status_code [ none ↦ 500 | some n ↦ n ]) error)
]
recorded_answer failed_retryable r = elim r.error [
  | none ↦ none
  | some error ↦ some (refused (elim r.status_code [ none ↦ 500 | some n ↦ n ]) error)
]

-- The tests of `review` on what is recorded under the execution id.
unfoldable pub dedupe : String → Option (Option ExecutionRecord) → Option Answer
unfolding recorded_answer
dedupe hash none = none
dedupe hash (some none) = some unavailable
dedupe hash (some (some r)) =
    if str_eq r.request_fingerprint hash then recorded_answer r.state r else some conflict
