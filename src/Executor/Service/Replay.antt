-- ===== src/Executor/Service/Replay.antt =====
-- What an identical request gets, once an answer is recorded.
use inryeok_bot.Prelude.{
  ℕ, ◌+◌, String, Bool, true, false, ◌&&◌, ◌||◌, not, Option, none, some, List, [], ◌∷◌, ◌≡◌, ◌≢◌,
  refl, inl, inr, str_eq, eq_iff, if◌then◌else◌, Bool-cases, is_present, All, All-update_where,
  arith,
}
use inryeok_bot.Executor.{Answer, Request, invalid_snapshot}
use inryeok_bot.Executor.Run.{Attempt, run_review}
use inryeok_bot.Executor.Records.{
  RecordFile, find_file, has_file, is_file_of, readable, read_file, dedupe, WriteOutcome,
  not_replaced,
}
use inryeok_bot.Executor.Records.Kept.{write-All, OfSome, OfSome-first_where}
use inryeok_bot.Executor.Service.{
  Execution, Service, Setting, running_record, after_dedupe, after_snapshot, settle,
  request_fingerprint, review, Event, arrives, ends, restarts, damaged, end_execution, step,
}
use inryeok_bot.Executor.Service.Traces.{
  one_if, is_hidden, loses, damages, run, loss_count, damage_count,
}
use inryeok_bot.Executor.Service.Files.{review-files, settle-files}
use inryeok_bot.Executor.Service.Recorded.{
  Gives, IsOther, Recorded, review-holder, vacuous, is_raised, settle-Recorded,
  answer_record-RecordOf,
}
use inryeok_bot.Executor.Service.Guards.{review-Started}
use inryeok_bot.Executor.Service.Once.{
  AllComplete, IsCompleteFile, settle-AllComplete, step-AllComplete, nothing_seen,
}

module _ (sha256 : List String → String) (decimal : ℕ → String) where
  -- A request that sees the state directory starts nothing under the id.
  not_started :
      {id hash : String} {a : Answer} (e : Setting) (r : Request) (s : Service)
      → Recorded id hash a s
      → is_hidden e.reading ≡ false
      → (hash' : String)
      → dedupe hash' (read_file e.reading (find_file r.execution_id s.files)) ≡ none
      → str_eq r.execution_id id ≡ false
  not_started {id} e r s k v hash' d = elim (Bool-cases (str_eq r.execution_id id)) [
    | inr q ↦ q
    | inl q ↦
        let shown = (rw (← (eq_iff r.execution_id id).0 q) at k.present) in
        vacuous v (
          nothing_seen sha256 decimal hash' e.reading (find_file r.execution_id s.files)
            (OfSome-first_where IsCompleteFile (is_file_of r.execution_id) s.files k.complete) d
            shown)
  ]

  review-Gives :
      {id hash : String} {a : Answer} (e : Setting) (r : Request) (s : Service)
      → Recorded id hash a s
      → is_hidden e.reading ≡ false
      → All (Gives id hash a) (review sha256 decimal e r s).0.files
  unfolding running_record
  review-Gives {id} {hash} {a} e r s k v = elim (review-files sha256 decimal e r s) [
    | inl q ↦ rw q k.gives
    | inr (d, q) ↦ rw q (
        write-All (Gives id hash a) e.write e.now
          (running_record r.execution_id (request_fingerprint sha256 decimal e.schema r)) s.files
          (vacuous (not_started e r s k v (request_fingerprint sha256 decimal e.schema r) d))
          k.gives)
  ]

  review-IsOther :
      {id hash : String} {a : Answer} (e : Setting) (r : Request) (s : Service)
      → Recorded id hash a s
      → is_hidden e.reading ≡ false
      → IsOther id (review sha256 decimal e r s).0.holder
  review-IsOther {id} e r s k v = elim (review-holder sha256 decimal e r s) [
    | inl q ↦ rw q k.over
    | inr n ↦
        let st = (review-Started sha256 decimal e r s n).1 in
        rw (st.locked) (
          not_started e r s k v (request_fingerprint sha256 decimal e.schema r) st.nothing_recorded)
  ]

  end_execution-Recorded :
      {id hash : String} {a : Answer} (w : WriteOutcome) (now : ℕ) (correlation : String)
      (attempt : Attempt) (s : Service) (o : Option Execution)
      → Recorded id hash a s
      → IsOther id o
      → has_file id (end_execution sha256 decimal w now correlation attempt o s).files ≡ true
      → Recorded id hash a (end_execution sha256 decimal w now correlation attempt o s)
  unfolding end_execution settle
  end_execution-Recorded w now correlation attempt s none k o p = k
  end_execution-Recorded {id} {hash} {a} w now correlation attempt s (some x) k o p =
      let ran = run_review correlation attempt in
      record {
        gives = elim (settle-files w now correlation attempt x s) [
          | inl q ↦ rw q k.gives
          | inr (r, c, q) ↦
              let same = (rw c at (answer_record-RecordOf x ran.0 ran.1)).0 in
              rw q (write-All (Gives id hash a) w now r s.files (vacuous (rw same o)) k.gives)
        ];
        present = p;
        over = tt;
        complete = settle-AllComplete w now correlation attempt x s k.complete;
      }

  none_counted : (b : Bool) (n : ℕ) → one_if b + n ≡ 0 → (b ≡ false) × (n ≡ 0)
  none_counted false n h = (refl, omega (arith, h))
  none_counted true n h = absurd (omega (arith, h))

  found_file :
      (id : String) (files : List RecordFile)
      → OfSome (λ g. is_file_of id g ≡ true) (find_file id files)
  found_file id [] = tt
  found_file id (f ∷ files) = elim (Bool-cases (is_file_of id f)) [
    | inl e ↦ rw e e
    | inr e ↦ rw e (found_file id files)
  ]

  kept : (b k k' : Bool) → (b || k && not k') ≡ false → k ≡ true → k' ≡ true
  kept b k k' h p = ground arith

  seen_events : (b c : Bool) → (b || c) ≡ false → b ≡ false
  seen_events b c h = ground arith

  undamaged :
      (id hash : String) (a : Answer) (other : String) (f : RecordFile)
      → str_eq other id ≡ false
      → Gives id hash a f
      → Gives id hash a (if is_file_of other f then record f { stored = none } else f)
  undamaged id hash a other f d g = elim (Bool-cases (is_file_of other f)) [
    | inl e ↦ rw e (vacuous (rw ((eq_iff f.execution_id other).0 e) d))
    | inr e ↦ rw e g
  ]

  -- A step that neither loses nor damages the record leaves it, with its answer.
  step-Recorded :
      {id hash : String} {a : Answer} (e : Event sha256 decimal) (s : Service)
      → loses sha256 decimal id e s ≡ false
      → damages sha256 decimal id e ≡ false
      → Recorded id hash a s
      → Recorded id hash a (step sha256 decimal e s)
  unfolding step
  step-Recorded {id} (arrives e r) s l d k =
      let v =
        seen_events (is_hidden e.reading)
          (has_file id s.files && not (has_file id (review sha256 decimal e r s).0.files)) l in
      record {
        gives = review-Gives e r s k v;
        present =
            kept (is_hidden e.reading) (has_file id s.files)
              (has_file id (review sha256 decimal e r s).0.files) l k.present;
        over = review-IsOther e r s k v;
        complete = step-AllComplete sha256 decimal (arrives e r) s k.complete;
      }
  step-Recorded {id} (ends w now correlation attempt) s l d k =
      let s' = end_execution sha256 decimal w now correlation attempt s.holder s in
      end_execution-Recorded w now correlation attempt s s.holder k k.over
        (kept false (has_file id s.files) (has_file id s'.files) l k.present)
  step-Recorded restarts s l d k = record {
    gives = k.gives;
    present = k.present;
    over = tt;
    complete = k.complete;
  }
  step-Recorded {id} {hash} {a} (damaged other) s l d k = record {
    gives =
        All-update_where (Gives id hash a) (Gives id hash a) (is_file_of other)
          (λ f. record f { stored = none }) s.files (λ f. undamaged id hash a other f d) k.gives;
    present =
        kept false (has_file id s.files) (has_file id (step sha256 decimal (damaged other) s).files)
          l k.present;
    over = k.over;
    complete = step-AllComplete sha256 decimal (damaged other) s k.complete;
  }

  run-Recorded :
      {id hash : String} {a : Answer} (es : List (Event sha256 decimal)) (s : Service)
      → loss_count sha256 decimal id es s ≡ 0
      → damage_count sha256 decimal id es ≡ 0
      → Recorded id hash a s
      → Recorded id hash a (run sha256 decimal es s)
  run-Recorded [] s l d k = k
  run-Recorded {id} (e ∷ es) s l d k =
      let s' = step sha256 decimal e s in
      let (l0, l1) =
        none_counted (loses sha256 decimal id e s) (loss_count sha256 decimal id es s') l in
      let (d0, d1) =
        none_counted (damages sha256 decimal id e) (damage_count sha256 decimal id es) d in
      run-Recorded es s' l1 d1 (step-Recorded e s l0 d0 k)

  given :
      (id hash : String) (a : Answer) (f : Option RecordFile)
      → OfSome (Gives id hash a) f
      → OfSome (λ g. is_file_of id g ≡ true) f
      → is_present f ≡ true
      → dedupe hash (read_file readable f) ≡ some a
  unfolding read_file
  given id hash a none g m p = cc
  given id hash a (some f) g m p = g m

  answered_from :
      (o : Option Answer) (e : Setting) (id hash : String) (a : Answer) (s : Service)
      → o ≡ none
      → dedupe hash (read_file e.reading (find_file id s.files)) ≡ some a
      → after_snapshot o e id hash s ≡ (s, some a)
  unfolding after_snapshot after_dedupe
  answered_from o e id hash a s n d = rw (n, after_snapshot, d, after_dedupe) refl

  review-Recorded :
      {id hash : String} {a : Answer} (e : Setting) (r : Request) (s : Service)
      → r.execution_id ≡ id
      → request_fingerprint sha256 decimal e.schema r ≡ hash
      → invalid_snapshot r ≡ none
      → e.reading ≡ readable
      → Recorded id hash a s
      → review sha256 decimal e r s ≡ (s, some a)
  unfolding review
  review-Recorded {id} {hash} {a} e r s q h v l k =
      let found =
        given id hash a (find_file id s.files)
          (OfSome-first_where (Gives id hash a) (is_file_of id) s.files k.gives)
          (found_file id s.files) k.present in
      answered_from (invalid_snapshot r) e r.execution_id
        (request_fingerprint sha256 decimal e.schema r) a s v (rw (q, h, l) found)

  -- If every record of the service is complete, an execution ends with an answer that is not an
  -- exception, and the write replaces its file, then after any further events that neither lose
  -- nor damage that record, restarts included, a valid request with the same id and fingerprint
  -- that can read the record gets that answer and changes nothing.
  pub answer_replayed :
      (w : WriteOutcome) (now : ℕ) (correlation : String) (attempt : Attempt) (x : Execution)
      (s : Service) (es : List (Event sha256 decimal)) (e : Setting) (r : Request)
      → AllComplete s
      → w ≢ not_replaced
      → is_raised (run_review correlation attempt).0 ≡ false
      → let ended = (settle w now correlation attempt x s).0 in
        loss_count sha256 decimal x.execution_id es ended ≡ 0
        → damage_count sha256 decimal x.execution_id es ≡ 0
        → r.execution_id ≡ x.execution_id
        → request_fingerprint sha256 decimal e.schema r ≡ x.request_fingerprint
        → invalid_snapshot r ≡ none
        → e.reading ≡ readable
        → let later = run sha256 decimal es ended in
          review sha256 decimal e r later ≡ (later, some (run_review correlation attempt).0)
  answer_replayed w now correlation attempt x s es e r c n u l d q h v k =
      let ended = (settle w now correlation attempt x s).0 in
      review-Recorded e r (run sha256 decimal es ended) q h v k
        (run-Recorded es ended l d (settle-Recorded w now correlation attempt x s c n u))
