-- ===== src/Executor/Service/Guards.antt =====
-- When `review` starts an execution.
use inryeok_bot.Prelude.{
  ℕ, String, true, false, Option, none, some, List, ◌≡◌, refl, inl, inr, Bool-cases, is_present,
}
use inryeok_bot.Executor.{Request, Answer, invalid_snapshot}
use inryeok_bot.Executor.Records.{
  find_file, has_file, WriteOutcome, written, not_replaced, not_pruned, read_file, dedupe,
}
use inryeok_bot.Executor.Records.Kept.{has_file-write}
use inryeok_bot.Executor.Service.{
  Service, Setting, is_seen, running_record, start, try_start, after_dedupe, after_snapshot,
  request_fingerprint, review,
}

-- What holds where `review` starts an execution.
pub record Started (e : Setting) (id hash : String) (s s' : Service) : Type 0 where
  pub nothing_recorded : dedupe hash (read_file e.reading (find_file id s.files)) ≡ none
  pub not_seen : is_seen id s.seen ≡ false
  pub lock_free : s.holder ≡ none
  pub recorded : has_file id s'.files ≡ true
  pub locked : s'.holder ≡ some (record { execution_id = id; request_fingerprint = hash })

pub some-none {ℓ} : {A : Type 0} {B : Type ℓ} {a : A} → some a ≡ none → B
some-none e = cc

pub absent : {A : Type 0} (o : Option A) → is_present o ≡ false → o ≡ none
absent none h = refl
absent (some a) h = cc

start_lem :
    (e : Setting) (id hash : String) (s : Service)
    → (w : WriteOutcome) → e.write ≡ w
    → (start e id hash s).1 ≡ none
    → (has_file id (start e id hash s).0.files ≡ true)
      × ((start e id hash s).0.holder
          ≡ some (record { execution_id = id; request_fingerprint = hash }))
unfolding start running_record
start_lem e id hash s written h n =
    rw (h, start) (has_file-write written e.now (running_record id hash) s.files (λ q. cc), refl)
start_lem e id hash s not_replaced h n = some-none (rw (h, start) at n)
start_lem e id hash s not_pruned h n = some-none (rw (h, start) at n)

try_start-Started :
    (e : Setting) (id hash : String) (s : Service)
    → dedupe hash (read_file e.reading (find_file id s.files)) ≡ none
    → (try_start e id hash s).1 ≡ none
    → Started e id hash s (try_start e id hash s).0
unfolding try_start
try_start-Started e id hash s d n = elim (Bool-cases (is_seen id s.seen)) [
  | inl seen ↦ some-none (rw (seen, try_start) at n)
  | inr unseen ↦ elim (Bool-cases (is_present s.holder)) [
    | inl held ↦ some-none (rw (unseen, held, try_start) at n)
    | inr free ↦
        let (f, l) = start_lem e id hash s e.write refl (rw (unseen, free, try_start) at n) in
        rw (unseen, free, try_start)
          (record {
            nothing_recorded = d;
            not_seen = unseen;
            lock_free = absent s.holder free;
            recorded = f;
            locked = l;
          })
  ]
]

after_dedupe-Started :
    (e : Setting) (id hash : String) (s : Service)
    → (o : Option Answer) → dedupe hash (read_file e.reading (find_file id s.files)) ≡ o
    → (after_dedupe o e id hash s).1 ≡ none
    → Started e id hash s (after_dedupe o e id hash s).0
unfolding after_dedupe
after_dedupe-Started e id hash s none d n = try_start-Started e id hash s d n
after_dedupe-Started e id hash s (some a) d n = some-none n

after_snapshot-Started :
    (o : Option Answer) (e : Setting) (id hash : String) (s : Service)
    → (after_snapshot o e id hash s).1 ≡ none
    → (o ≡ none) × Started e id hash s (after_snapshot o e id hash s).0
unfolding after_snapshot
after_snapshot-Started none e id hash s n = (
  refl,
  after_dedupe-Started e id hash s (dedupe hash (read_file e.reading (find_file id s.files))) refl
      n,
)
after_snapshot-Started (some a) e id hash s n = some-none n

-- An execution starts only for a request whose model snapshot is complete, with nothing recorded
-- under its id that the request can see, an id that this process has not seen, and a free lock;
-- then its record is on disk and it holds the lock.
pub review-Started :
    (sha256 : List String → String) (decimal : ℕ → String) (e : Setting) (r : Request) (s : Service)
    → (review sha256 decimal e r s).1 ≡ none
    → (invalid_snapshot r ≡ none)
      × Started e r.execution_id
          (request_fingerprint sha256 decimal e.schema r)
          s
          (review sha256 decimal e r s).0
unfolding review
review-Started sha256 decimal e r s n =
    after_snapshot-Started (invalid_snapshot r) e r.execution_id
      (request_fingerprint sha256 decimal e.schema r) s n
