-- ===== src/Executor/Service/Recorded.antt =====
-- A record that gives its answer, from the end of the execution on.
use inryeok_bot.Prelude.{
  ℕ, String, Bool, true, false, Option, none, some, List, ◌≡◌, ◌≢◌, refl, inl, inr, ◌⊎◌, str_eq,
  eq_iff, Bool-cases, is_present, All, ltb,
}
use inryeok_bot.Executor.{Answer, answered, refused, raised, Request, invalid_snapshot}
use inryeok_bot.Executor.Run.{Attempt, run_review}
use inryeok_bot.Executor.Records.{
  ExecutionRecord, RecordFile, find_file, has_file, recorded_answer, is_file_of, read_file, dedupe,
  WriteOutcome, not_replaced, is_persisted, write_execution_record,
}
use inryeok_bot.Executor.Records.Kept.{write-All-other, has_file-write, OfSome}
use inryeok_bot.Executor.Service.{
  Execution, Service, Setting, is_seen, start, try_start, after_dedupe, after_snapshot,
  answer_record, write_answer, settle, request_fingerprint, review,
}
use inryeok_bot.Executor.Service.Once.{AllComplete, settle-AllComplete}

-- If the file is that of the id, its record gives the answer to a request with the fingerprint.
abbrev pub Gives : String → String → Answer → RecordFile → Type 0
Gives id hash a f = is_file_of id f ≡ true → dedupe hash (some f.stored) ≡ some a

abbrev pub IsOther : String → Option Execution → Type 0
IsOther id none = Unit
IsOther id (some x) = str_eq x.execution_id id ≡ false

-- The answer is on disk, and the execution that gave it is over.
pub record Recorded (id hash : String) (a : Answer) (s : Service) : Type 0 where
  pub gives : All (Gives id hash a) s.files
  pub present : has_file id s.files ≡ true
  pub over : IsOther id s.holder
  pub complete : AllComplete s

-- An answer of `review` leaves the lock as it is.
start-holder :
    (e : Setting) (id hash : String) (s : Service)
    → (start e id hash s).0.holder ≡ s.holder ⊎ ((start e id hash s).1 ≡ none)
unfolding start
start-holder e id hash s = elim (Bool-cases (is_persisted e.write)) [
  | inl p ↦ rw (p, start) (inr refl)
  | inr p ↦ rw (p, start) (inl refl)
]

try_start-holder :
    (e : Setting) (id hash : String) (s : Service)
    → (try_start e id hash s).0.holder ≡ s.holder ⊎ ((try_start e id hash s).1 ≡ none)
unfolding try_start
try_start-holder e id hash s = elim (Bool-cases (is_seen id s.seen)) [
  | inl seen ↦ rw (seen, try_start) (inl refl)
  | inr unseen ↦ elim (Bool-cases (is_present s.holder)) [
    | inl held ↦ rw (unseen, held, try_start) (inl refl)
    | inr free ↦ rw (unseen, free, try_start) (start-holder e id hash s)
  ]
]

after_dedupe-holder :
    (o : Option Answer) (e : Setting) (id hash : String) (s : Service)
    → (after_dedupe o e id hash s).0.holder ≡ s.holder ⊎ ((after_dedupe o e id hash s).1 ≡ none)
unfolding after_dedupe
after_dedupe-holder none e id hash s = try_start-holder e id hash s
after_dedupe-holder (some a) e id hash s = inl refl

after_snapshot-holder :
    (o : Option Answer) (e : Setting) (id hash : String) (s : Service)
    → (after_snapshot o e id hash s).0.holder ≡ s.holder ⊎ ((after_snapshot o e id hash s).1 ≡ none)
unfolding after_snapshot
after_snapshot-holder none e id hash s =
    after_dedupe-holder (dedupe hash (read_file e.reading (find_file id s.files))) e id hash s
after_snapshot-holder (some a) e id hash s = inl refl

pub review-holder :
    (sha256 : List String → String) (decimal : ℕ → String) (e : Setting) (r : Request) (s : Service)
    → (review sha256 decimal e r s).0.holder ≡ s.holder ⊎ ((review sha256 decimal e r s).1 ≡ none)
unfolding review
review-holder sha256 decimal e r s =
    after_snapshot-holder (invalid_snapshot r) e r.execution_id
      (request_fingerprint sha256 decimal e.schema r) s

abbrev pub RecordOf : Execution → Answer → ExecutionRecord → Type 0
RecordOf x answer r =
    (r.execution_id ≡ x.execution_id) × (dedupe x.request_fingerprint (some (some r)) ≡ some answer)

same : (s : String) → str_eq s s ≡ true
same s = (eq_iff s s).1 refl

-- The record of an answer gives that answer.
pub answer_record-RecordOf :
    (x : Execution) (answer : Answer) (count : Option ℕ)
    → OfSome (RecordOf x answer) (answer_record x answer count)
unfolding answer_record dedupe recorded_answer
answer_record-RecordOf x (answered result) count =
    rw (same x.request_fingerprint, dedupe, recorded_answer) (refl, refl)
answer_record-RecordOf x (refused status content) count = elim (Bool-cases (ltb status 500)) [
  | inl e ↦ rw (same x.request_fingerprint, e, answer_record, dedupe, recorded_answer) (refl, refl)
  | inr e ↦ rw (same x.request_fingerprint, e, answer_record, dedupe, recorded_answer) (refl, refl)
]
answer_record-RecordOf x (raised status) count = tt

pub vacuous : {A : Type 0} {b : Bool} → b ≡ false → b ≡ true → A
vacuous e h = cc

settled :
    (w : WriteOutcome) (now : ℕ) (answer : Answer) (x : Execution) (r : ExecutionRecord)
    (files : List RecordFile)
    → w ≢ not_replaced
    → RecordOf x answer r
    → All (Gives x.execution_id x.request_fingerprint answer) (write_execution_record w now r files)
      × (has_file x.execution_id (write_execution_record w now r files) ≡ true)
settled w now answer x r files n (q, d) = rw (← q) (
  write-All-other (Gives r.execution_id x.request_fingerprint answer) w now r files (λ _. d)
      (λ f. vacuous) n,
  has_file-write w now r files n,
)

write_answer_settled :
    (w : WriteOutcome) (now : ℕ) (answer : Answer) (x : Execution) (files : List RecordFile)
    (o : Option ExecutionRecord)
    → w ≢ not_replaced
    → OfSome (RecordOf x answer) o
    → is_present o ≡ true
    → let files' = (write_answer o w now answer files).0 in
      All (Gives x.execution_id x.request_fingerprint answer) files'
      × (has_file x.execution_id files' ≡ true)
unfolding write_answer
write_answer_settled w now answer x files none n f p = cc
write_answer_settled w now answer x files (some r) n f p = settled w now answer x r files n f

-- An exception that the endpoint does not catch.
abbrev pub is_raised : Answer → Bool
is_raised (raised _) = true
is_raised _ = false

recorded_unless_raised :
    (x : Execution) (answer : Answer) (count : Option ℕ)
    → is_raised answer ≡ false
    → is_present (answer_record x answer count) ≡ true
unfolding answer_record
recorded_unless_raised x (answered result) count h = refl
recorded_unless_raised x (refused status content) count h = refl
recorded_unless_raised x (raised status) count h = cc

pub settle-Recorded :
    (w : WriteOutcome) (now : ℕ) (correlation : String) (attempt : Attempt) (x : Execution)
    (s : Service)
    → AllComplete s
    → w ≢ not_replaced
    → is_raised (run_review correlation attempt).0 ≡ false
    → Recorded x.execution_id x.request_fingerprint
        (run_review correlation attempt).0
        (settle w now correlation attempt x s).0
unfolding settle
settle-Recorded w now correlation attempt x s c n h =
    let (answer, count) = run_review correlation attempt in
    let (g, p) =
      write_answer_settled w now answer x s.files (answer_record x answer count) n
        (answer_record-RecordOf x answer count) (recorded_unless_raised x answer count h) in
    record {
      gives = g;
      present = p;
      over = tt;
      complete = settle-AllComplete w now correlation attempt x s c;
    }
