-- ===== src/Executor/Service/Files.antt =====
-- What a step of the service writes.
use inryeok_bot.Prelude.{
  ℕ, String, Option, none, some, List, ◌≡◌, refl, inl, inr, ◌⊎◌, Bool-cases, is_present,
}
use inryeok_bot.Executor.{Answer, Request, invalid_snapshot}
use inryeok_bot.Executor.Run.{Attempt, run_review}
use inryeok_bot.Executor.Records.{
  ExecutionRecord, RecordFile, find_file, read_file, dedupe, WriteOutcome, is_persisted,
  write_execution_record,
}
use inryeok_bot.Executor.Service.{
  Execution, Service, Setting, running_record, is_seen, start, try_start, after_dedupe,
  after_snapshot, answer_record, write_answer, settle, request_fingerprint, review,
}

-- Either nothing is written, or the running record of an id with nothing recorded.
abbrev pub RunningWritten : Setting → String → String → Service → List RecordFile → Type 0
RunningWritten e id hash s files =
    (files ≡ s.files)
    ⊎ (dedupe hash (read_file e.reading (find_file id s.files)) ≡ none)
      × (files ≡ write_execution_record e.write e.now (running_record id hash) s.files)

start-files :
    (e : Setting) (id hash : String) (s : Service)
    → (start e id hash s).0.files
      ≡ write_execution_record e.write e.now (running_record id hash) s.files
unfolding start
start-files e id hash s = elim (Bool-cases (is_persisted e.write)) [
  | inl p ↦ rw (p, start) refl
  | inr p ↦ rw (p, start) refl
]

try_start-files :
    (e : Setting) (id hash : String) (s : Service)
    → dedupe hash (read_file e.reading (find_file id s.files)) ≡ none
    → RunningWritten e id hash s (try_start e id hash s).0.files
unfolding try_start
try_start-files e id hash s d = elim (Bool-cases (is_seen id s.seen)) [
  | inl seen ↦ rw (seen, try_start) (inl refl)
  | inr unseen ↦ elim (Bool-cases (is_present s.holder)) [
    | inl held ↦ rw (unseen, held, try_start) (inl refl)
    | inr free ↦ rw (unseen, free, try_start) (inr (d, start-files e id hash s))
  ]
]

after_dedupe-files :
    (e : Setting) (id hash : String) (s : Service)
    → (o : Option Answer) → dedupe hash (read_file e.reading (find_file id s.files)) ≡ o
    → RunningWritten e id hash s (after_dedupe o e id hash s).0.files
unfolding after_dedupe
after_dedupe-files e id hash s none d = try_start-files e id hash s d
after_dedupe-files e id hash s (some a) d = inl refl

after_snapshot-files :
    (o : Option Answer) (e : Setting) (id hash : String) (s : Service)
    → RunningWritten e id hash s (after_snapshot o e id hash s).0.files
unfolding after_snapshot
after_snapshot-files none e id hash s =
    after_dedupe-files e id hash s (dedupe hash (read_file e.reading (find_file id s.files))) refl
after_snapshot-files (some a) e id hash s = inl refl

pub review-files :
    (sha256 : List String → String) (decimal : ℕ → String) (e : Setting) (r : Request) (s : Service)
    → RunningWritten e r.execution_id
        (request_fingerprint sha256 decimal e.schema r)
        s
        (review sha256 decimal e r s).0.files
unfolding review
review-files sha256 decimal e r s =
    after_snapshot-files (invalid_snapshot r) e r.execution_id
      (request_fingerprint sha256 decimal e.schema r) s

-- Either nothing is written, or the record of the answer.
abbrev pub AnswerWritten :
    WriteOutcome → ℕ → Option ExecutionRecord → List RecordFile → List RecordFile → Type 0
AnswerWritten w now o files files' =
    (files' ≡ files)
    ⊎ (r : ExecutionRecord) × (o ≡ some r) × (files' ≡ write_execution_record w now r files)

write_answer-files :
    (w : WriteOutcome) (now : ℕ) (answer : Answer) (files : List RecordFile)
    (o : Option ExecutionRecord)
    → AnswerWritten w now o files (write_answer o w now answer files).0
unfolding write_answer
write_answer-files w now answer files none = inl refl
write_answer-files w now answer files (some r) = inr (r, refl, refl)

pub settle-files :
    (w : WriteOutcome) (now : ℕ) (correlation : String) (attempt : Attempt) (x : Execution)
    (s : Service)
    → let ran = run_review correlation attempt in
      AnswerWritten w now
        (answer_record x ran.0 ran.1)
        s.files
        (settle w now correlation attempt x s).0.files
unfolding settle
settle-files w now correlation attempt x s =
    let ran = run_review correlation attempt in
    write_answer-files w now ran.0 s.files (answer_record x ran.0 ran.1)
