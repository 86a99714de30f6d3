-- ===== src/Executor/Service/Once.antt =====
-- How often an execution id is launched.
use inryeok_bot.Prelude.{
  ltb, ℕ, ◌+◌, ◌≤◌, String, Bool, true, false, ◌&&◌, ◌||◌, not, Option, none, some, List, [], ◌∷◌,
  ◌≡◌, refl, inl, inr, str_eq, eq_iff, Bool-cases, is_present, and-eq-true, All, All-update_where,
  update_where, arith,
}
use inryeok_bot.Executor.{Answer, answered, refused, raised, Request}
use inryeok_bot.Executor.Run.{Attempt, run_review}
use inryeok_bot.Executor.Records.{
  ExecutionRecord, RecordFile, find_file, has_file, recorded_answer, is_file_of, Reading, readable,
  unreadable, hidden, read_file, dedupe, WriteOutcome, write_execution_record,
}
use inryeok_bot.Executor.Records.Kept.{write-All, OfSome, OfSome-first_where}
use inryeok_bot.Executor.Service.{
  Execution, Service, empty_service, Setting, running_record, answer_record, settle,
  request_fingerprint, review, Event, arrives, ends, restarts, damaged, end_execution, step,
  launches,
}
use inryeok_bot.Executor.Service.Files.{review-files, settle-files}
use inryeok_bot.Executor.Service.Traces.{
  one_if, is_hidden, is_blind, loses, launch_count, loss_count,
}
use inryeok_bot.Executor.Service.Guards.{absent, review-Started}

-- A record that answers an identical request, and a file that holds one if it can be read.
abbrev pub IsComplete : Option ExecutionRecord → Type 0
IsComplete none = Unit
IsComplete (some r) = is_present (recorded_answer r.state r) ≡ true

abbrev pub IsCompleteFile : RecordFile → Type 0
IsCompleteFile f = IsComplete f.stored

abbrev pub AllComplete : Service → Type 0
AllComplete s = All IsCompleteFile s.files

-- A write of a complete record keeps every record complete.
write-Complete :
    (w : WriteOutcome) (now : ℕ) (r : ExecutionRecord) (files : List RecordFile)
    → is_present (recorded_answer r.state r) ≡ true
    → All IsCompleteFile files
    → All IsCompleteFile (write_execution_record w now r files)
write-Complete w now r files h all = write-All IsCompleteFile w now r files h all

answer_record-IsComplete :
    (x : Execution) (answer : Answer) (count : Option ℕ) → IsComplete (answer_record x answer count)
unfolding answer_record recorded_answer
answer_record-IsComplete x (answered result) count = refl
answer_record-IsComplete x (refused status content) count = elim (Bool-cases (ltb status 500)) [
  | inl e ↦ rw (e, answer_record, recorded_answer) refl
  | inr e ↦ rw (e, answer_record, recorded_answer) refl
]
answer_record-IsComplete x (raised status) count = tt

pub settle-AllComplete :
    (w : WriteOutcome) (now : ℕ) (correlation : String) (attempt : Attempt) (x : Execution)
    (s : Service)
    → AllComplete s
    → AllComplete (settle w now correlation attempt x s).0
settle-AllComplete w now correlation attempt x s h =
    let ran = run_review correlation attempt in
    elim (settle-files w now correlation attempt x s) [
      | inl e ↦ rw e h
      | inr (r, c, e) ↦
          rw e (write-Complete w now r s.files (rw c at (answer_record-IsComplete x ran.0 ran.1)) h)
    ]

module _ (sha256 : List String → String) (decimal : ℕ → String) where
  end_execution-AllComplete :
      (w : WriteOutcome) (now : ℕ) (correlation : String) (attempt : Attempt) (s : Service)
      (o : Option Execution)
      → AllComplete s
      → AllComplete (end_execution sha256 decimal w now correlation attempt o s)
  unfolding end_execution
  end_execution-AllComplete w now correlation attempt s none h = h
  end_execution-AllComplete w now correlation attempt s (some x) h =
      settle-AllComplete w now correlation attempt x s h

  damaged_files :
      (id : String) (files : List RecordFile)
      → All IsCompleteFile files
      → All IsCompleteFile (update_where (is_file_of id) (λ f. record f { stored = none }) files)
  damaged_files id files h =
      All-update_where IsCompleteFile IsCompleteFile (is_file_of id)
        (λ f. record f { stored = none }) files
        (λ f k. elim (Bool-cases (is_file_of id f)) [ inl e ↦ rw e tt | inr e ↦ rw e k ]) h

  -- Every step keeps every record complete.
  pub step-AllComplete :
      (e : Event sha256 decimal) (s : Service)
      → AllComplete s
      → AllComplete (step sha256 decimal e s)
  unfolding step running_record recorded_answer
  step-AllComplete (arrives e r) s h = elim (review-files sha256 decimal e r s) [
    | inl q ↦ rw q h
    | inr (d, q) ↦ rw q (
        write-Complete e.write e.now
          (running_record r.execution_id (request_fingerprint sha256 decimal e.schema r)) s.files
          refl h)
  ]
  step-AllComplete (ends w now correlation attempt) s h =
      end_execution-AllComplete w now correlation attempt s s.holder h
  step-AllComplete restarts s h = h
  step-AllComplete (damaged id) s h = damaged_files id s.files h

  not-eq-true : {b : Bool} → not b ≡ true → b ≡ false
  not-eq-true {b} h = ground arith

  answers_none : (o : Option Answer) → is_present o ≡ true → o ≡ none → ⊥
  answers_none none p d = cc
  answers_none (some a) p d = cc

  -- A complete record, or one that cannot be read, always gives an answer.
  dedupe_answers :
      (hash : String) (o : Option ExecutionRecord)
      → IsComplete o
      → is_present (dedupe hash (some o)) ≡ true
  unfolding dedupe
  dedupe_answers hash none h = refl
  dedupe_answers hash (some r) h = elim (Bool-cases (str_eq r.request_fingerprint hash)) [
    | inl e ↦ rw (e, dedupe) h
    | inr e ↦ rw (e, dedupe) refl
  ]

  -- A request that sees a file of its id gets an answer.
  pub nothing_seen :
      (hash : String) (reading : Reading) (o : Option RecordFile)
      → OfSome IsCompleteFile o
      → dedupe hash (read_file reading o) ≡ none
      → is_present o ≡ true
      → is_hidden reading ≡ true
  unfolding read_file
  nothing_seen hash reading none h d p = cc
  nothing_seen hash readable (some f) h d p =
      absurd (answers_none (dedupe hash (some f.stored)) (dedupe_answers hash f.stored h) d)
  nothing_seen hash unreadable (some f) h d p =
      absurd (answers_none (dedupe hash (some none)) (dedupe_answers hash none tt) d)
  nothing_seen hash hidden (some f) h d p = refl

  lost : (b k k' : Bool) → one_if k ≤ one_if k' + one_if (b || k && not k')
  lost b k k' = ground arith

  launched :
      (b k k' : Bool)
      → k' ≡ true
      → (k ≡ true → b ≡ true)
      → 1 + one_if k ≤ one_if k' + one_if (b || k && not k')
  launched b true true h f = rw (f refl) omega arith
  launched b false true h f = omega arith
  launched b k false h f = cc

  arrives-balance :
      (e : Setting) (r : Request) (s : Service)
      → AllComplete s
      → (review sha256 decimal e r s).1 ≡ none
      → 1 + one_if (has_file r.execution_id s.files)
        ≤ one_if (has_file r.execution_id (step sha256 decimal (arrives e r) s).files)
          + one_if (loses sha256 decimal r.execution_id (arrives e r) s)
  unfolding step
  arrives-balance e r s h n =
      let st = (review-Started sha256 decimal e r s n).1 in
      let hash = request_fingerprint sha256 decimal e.schema r in
      let file = find_file r.execution_id s.files in
      launched (is_hidden e.reading) (has_file r.execution_id s.files)
        (has_file r.execution_id (review sha256 decimal e r s).0.files) st.recorded
        (nothing_seen hash e.reading file
          (OfSome-first_where IsCompleteFile (is_file_of r.execution_id) s.files h)
          st.nothing_recorded)

  -- What a step launches is paid by the record that it leaves, or by a loss.
  step-balance :
      (id : String) (e : Event sha256 decimal) (s : Service)
      → AllComplete s
      → (b : Bool) → launches sha256 decimal id e s ≡ b
      → one_if b + one_if (has_file id s.files)
        ≤ one_if (has_file id (step sha256 decimal e s).files)
          + one_if (loses sha256 decimal id e s)
  unfolding launches
  step-balance id e s h false l = omega (
    arith,
    lost (is_blind sha256 decimal e) (has_file id s.files)
        (has_file id (step sha256 decimal e s).files),
  )
  step-balance id (arrives e r) s h true l =
      let (same, n) =
        and-eq-true (str_eq r.execution_id id) (not (is_present (review sha256 decimal e r s).1))
          l in
      let q = (eq_iff r.execution_id id).0 same in
      rw (← q) (arrives-balance e r s h (absent (review sha256 decimal e r s).1 (not-eq-true n)))
  step-balance id (ends w now correlation attempt) s h true l = cc
  step-balance id restarts s h true l = cc
  step-balance id (damaged other) s h true l = cc

  run-balance :
      (id : String) (es : List (Event sha256 decimal)) (s : Service)
      → AllComplete s
      → launch_count sha256 decimal id es s + one_if (has_file id s.files)
        ≤ 1 + loss_count sha256 decimal id es s
  run-balance id [] s h = ground arith
  run-balance id (e ∷ es) s h = omega (
    arith,
    step-balance id e s h (launches sha256 decimal id e s) refl,
    run-balance id es (step sha256 decimal e s) (step-AllComplete e s h),
  )

  -- From an empty state directory, whatever requests, completions, write failures, restarts and
  -- damage follow in whatever order, an execution id starts at most one process, and at most one
  -- more for each event that loses its record or cannot see the state directory at all.
  pub launched_at_most_once :
      (id : String) (es : List (Event sha256 decimal))
      → launch_count sha256 decimal id es empty_service
        ≤ 1 + loss_count sha256 decimal id es empty_service
  launched_at_most_once id es = omega (arith, run-balance id es empty_service tt)
