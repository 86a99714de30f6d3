-- ===== src/Jobs/Retry/Once.antt =====
-- That a retry is made once, however often the administrators ask for retries.
use inryeok_bot.Prelude.{
  any, Bool-cases, ℕ, String, ◌≡◌, refl, ◌∙◌, Bool, true, false, none, some, List, [], ◌∷◌, ◌++◌,
  arith, ◌==◌, first_where, first_where-append, Option-cases, ◌⊎◌, inl, inr,
}
use inryeok_bot.Jobs.Model.{ReviewJob, Database, same_number, conflicts}
use inryeok_bot.Jobs.Retry.{
  returned, may_retry, succeeded_same_head, retry_job, insert_retry, retry_known, retry_request,
}

-- What a retry that returns a job did: it found the earlier retry, or it inserted a new row.
retry_known-eq-some :
    (now : ℕ) (d : String) (j new : ReviewJob) (db db' : Database)
    → retry_known now d j db ≡ (returned (some new), db')
    → (may_retry j.status ≡ true)
      × (first_where (succeeded_same_head j) db.jobs ≡ none)
      × (((first_where (λ x. same_number x.retry_of_job_id (some j.id)) db.jobs ≡ some new)
            × (db' ≡ db))
          ⊎ ((first_where (λ x. same_number x.retry_of_job_id (some j.id)) db.jobs ≡ none)
              × (insert_retry now d j db ≡ (returned (some new), db'))))
unfolding retry_known
retry_known-eq-some now d j new db db' h =
    elim (Option-cases (first_where (succeeded_same_head j) db.jobs)) [
      | inr (x, e) ↦ absurd (ground arith)
      | inl fresh ↦
          elim (Option-cases
            (first_where (λ x. same_number x.retry_of_job_id (some j.id)) db.jobs)) [
              | inl single ↦ (ground arith, fresh, inr (single, ground arith))
              | inr (child, e) ↦ (ground arith, fresh, inl (ground arith, ground arith))
            ]
    ]

insert_retry-eq-some :
    (now : ℕ) (d : String) (j new : ReviewJob) (db db' : Database)
    → insert_retry now d j db ≡ (returned (some new), db')
    → (new ≡ retry_job db.next_job_id now d j) × (db'.jobs ≡ db.jobs ++ new ∷ [])
unfolding insert_retry
insert_retry-eq-some now d j new db db' h = ground arith

-- An earlier retry of a job that may be retried is returned, and nothing is inserted.
retry_known-child :
    (now : ℕ) (d : String) (j child : ReviewJob) (db : Database)
    → may_retry j.status ≡ true
    → first_where (succeeded_same_head j) db.jobs ≡ none
    → first_where (λ x. same_number x.retry_of_job_id (some j.id)) db.jobs ≡ some child
    → retry_known now d j db ≡ (returned (some child), db)
unfolding retry_known
retry_known-child now d j child db may fresh found = rw (may, fresh, found)

retried-not-succeeded :
    (id now : ℕ) (d : String) (j : ReviewJob) → succeeded_same_head j (retry_job id now d j) ≡ false
unfolding succeeded_same_head retry_job
retried-not-succeeded id now d j = ground arith

retried-is-child :
    (id now : ℕ) (d : String) (j : ReviewJob)
    → same_number (retry_job id now d j).retry_of_job_id (some j.id) ≡ true
unfolding retry_job
retried-is-child id now d j = ground arith

first_where-kept :
    (p : ReviewJob → Bool) (xs ys : List ReviewJob) (j : ReviewJob)
    → first_where p xs ≡ some j
    → first_where p (xs ++ ys) ≡ some j
first_where-kept p xs ys j h = first_where-append p xs ys ∙ rw h

-- A job that is found before its retry is found after it.
retry_known-keeps :
    (now job_id : ℕ) (d : String) (j new : ReviewJob) (db db' : Database)
    → first_where (λ x. x.id == job_id) db.jobs ≡ some j
    → retry_known now d j db ≡ (returned (some new), db')
    → first_where (λ x. x.id == job_id) db'.jobs ≡ some j
retry_known-keeps now job_id d j new db db' found h =
    let (_, _, how) = retry_known-eq-some now d j new db db' h in
    elim how [
      | inl (child, same) ↦ rw same found
      | inr (single, done) ↦
          rw (insert_retry-eq-some now d j new db db' done).1
            (first_where-kept (λ x. x.id == job_id) db.jobs (new ∷ []) j found)
    ]

-- The row `j` is found under its id and may be retried, its head has no successful job, and `new`
-- is the first retry of it.
record Retried (job_id : ℕ) (j new : ReviewJob) (jobs : List ReviewJob) : Type 0 where
  found : first_where (λ x. x.id == job_id) jobs ≡ some j
  may : may_retry j.status ≡ true
  fresh : first_where (succeeded_same_head j) jobs ≡ none
  child : first_where (λ x. same_number x.retry_of_job_id (some j.id)) jobs ≡ some new

-- What a retry that returns a row leaves of the job's row, of its head and of its retries.
retry_known-Retried :
    (now job_id : ℕ) (d : String) (j new : ReviewJob) (db db' : Database)
    → first_where (λ x. x.id == job_id) db.jobs ≡ some j
    → retry_known now d j db ≡ (returned (some new), db')
    → Retried job_id j new db'.jobs
retry_known-Retried now job_id d j new db db' e h =
    let (may, fresh, how) = retry_known-eq-some now d j new db db' h in
    let found = retry_known-keeps now job_id d j new db db' e h in
    elim how [
      | inl (child, same) ↦ record {
        found = found;
        may = may;
        fresh = rw same fresh;
        child = rw same child;
      }
      | inr (single, done) ↦
          let (made, after) = insert_retry-eq-some now d j new db db' done in
          record {
            found = found;
            may = may;
            fresh = rw after (
                first_where-append (succeeded_same_head j) db.jobs (new ∷ [])
                ∙ rw fresh (rw made (rw (retried-not-succeeded db.next_job_id now d j))));
            child = rw after (
                first_where-append (λ x. same_number x.retry_of_job_id (some j.id)) db.jobs
                  (new ∷ [])
                ∙ rw single (rw made (rw (retried-is-child db.next_job_id now d j))));
          }
    ]

retry_request-eq-some :
    (now job_id : ℕ) (d : String) (db db' : Database) (new : ReviewJob)
    → retry_request now d job_id db ≡ (returned (some new), db')
    → (j : ReviewJob) × Retried job_id j new db'.jobs
unfolding retry_request
retry_request-eq-some now job_id d db db' new h =
    elim (Option-cases (first_where (λ x. x.id == job_id) db.jobs)) [
      | inl e ↦ absurd (ground arith)
      | inr (j, e) ↦
          let known : retry_known now d j db ≡ (returned (some new), db') = ground arith in
          (j, retry_known-Retried now job_id d j new db db' e known)
    ]

-- A request leaves the queue as it is, or adds one row that retries a job.
retry_known-adds :
    (now : ℕ) (d : String) (k : ReviewJob) (db : Database)
    → ((retry_known now d k db).1.jobs ≡ db.jobs)
      ⊎ ((retry_known now d k db).1.jobs ≡ db.jobs ++ retry_job db.next_job_id now d k ∷ [])
unfolding retry_known insert_retry
retry_known-adds now d k db = elim (Bool-cases (may_retry k.status)) [
  | inr n ↦ rw n (inl refl)
  | inl y ↦ elim (Option-cases (first_where (succeeded_same_head k) db.jobs)) [
    | inr (x, e) ↦ rw (y, e) (inl refl)
    | inl e ↦
        elim (Option-cases (first_where (λ x. same_number x.retry_of_job_id (some k.id)) db.jobs)) [
          | inr (x, c) ↦ rw (y, e, c) (inl refl)
          | inl c ↦ elim (Bool-cases (any (conflicts (retry_job db.next_job_id now d k)) db.jobs)) [
            | inl a ↦ rw (y, e, c, a) (inl refl)
            | inr a ↦ rw (y, e, c, a) (inr refl)
          ]
        ]
  ]
]

pending-not-succeeded :
    (j : ReviewJob) (id now : ℕ) (d : String) (k : ReviewJob)
    → succeeded_same_head j (retry_job id now d k) ≡ false
unfolding succeeded_same_head retry_job
pending-not-succeeded j id now d k = ground arith

-- An added retry, of whatever job, leaves the earlier retry the first one.
Retried-adds :
    (job_id : ℕ) (j new : ReviewJob) (id now : ℕ) (d : String) (k : ReviewJob)
    (jobs : List ReviewJob)
    → Retried job_id j new jobs
    → Retried job_id j new (jobs ++ retry_job id now d k ∷ [])
Retried-adds job_id j new id now d k jobs h = record {
  found = first_where-kept (λ x. x.id == job_id) jobs (retry_job id now d k ∷ []) j h.found;
  may = h.may;
  fresh =
      first_where-append (succeeded_same_head j) jobs (retry_job id now d k ∷ [])
      ∙ rw h.fresh (rw (pending-not-succeeded j id now d k) refl);
  child =
      first_where-kept (λ x. same_number x.retry_of_job_id (some j.id)) jobs
        (retry_job id now d k ∷ []) new h.child;
}

retry_request-Retried :
    (now : ℕ) (d : String) (other job_id : ℕ) (j new : ReviewJob) (db : Database)
    → Retried job_id j new db.jobs
    → Retried job_id j new (retry_request now d other db).1.jobs
unfolding retry_request
retry_request-Retried now d other job_id j new db h =
    elim (Option-cases (first_where (λ x. x.id == other) db.jobs)) [
      | inl e ↦ rw (e, retry_request) h
      | inr (k, e) ↦ elim (retry_known-adds now d k db) [
        | inl same ↦ rw (e, retry_request, same) h
        | inr adds ↦
            rw (e, retry_request, adds) (Retried-adds job_id j new db.next_job_id now d k db.jobs h)
      ]
    ]

-- A request of an administrator: when, the delivery id that is made for it, and the job.
abbrev pub RetryRequest : Type 0
RetryRequest = ℕ × String × ℕ

-- The database after these requests, one after the other.
abbrev pub after_requests : List RetryRequest → Database → Database
after_requests [] db = db
after_requests ((now, d, job_id) ∷ rest) db = after_requests rest (retry_request now d job_id db).1

after_requests-Retried :
    (rs : List RetryRequest) (job_id : ℕ) (j new : ReviewJob) (db : Database)
    → Retried job_id j new db.jobs
    → Retried job_id j new (after_requests rs db).jobs
after_requests-Retried [] job_id j new db h = h
after_requests-Retried ((now, d, other) ∷ rest) job_id j new db h =
    after_requests-Retried rest job_id j new (retry_request now d other db).1
      (retry_request-Retried now d other job_id j new db h)

retry_request-first :
    (now job_id : ℕ) (d : String) (j new : ReviewJob) (db : Database)
    → Retried job_id j new db.jobs
    → retry_request now d job_id db ≡ (returned (some new), db)
unfolding retry_request
retry_request-first now job_id d j new db h =
    rw (h.found, retry_request) (retry_known-child now d j new db h.may h.fresh h.child)

-- Once a retry of a job was returned, another request for that job returns the same row and changes
-- nothing, after any number of requests to retry it or other jobs, and nothing else, in between.
pub retry_once :
    (now later : ℕ) (d d' : String) (job_id : ℕ) (db db' : Database) (new : ReviewJob)
    (between : List RetryRequest)
    → retry_request now d job_id db ≡ (returned (some new), db')
    → let current = after_requests between db' in
      retry_request later d' job_id current ≡ (returned (some new), current)
retry_once now later d d' job_id db db' new between h =
    let (j, retried) = retry_request-eq-some now job_id d db db' new h in
    retry_request-first later job_id d' j new (after_requests between db')
      (after_requests-Retried between job_id j new db' retried)
