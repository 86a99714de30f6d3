-- ===== src/Jobs/Finish/Outcome.antt =====
-- What a finished, skipped or noticed job records.
use text.Mathlib.TextPositions.{eq_refl}
use inryeok_bot.Prelude.{
  ℕ, ◌≤◌, String, ◌≡◌, refl, ◌≢◌, ◌⊎◌, inl, inr, Bool, true, false, Option, none, some, List, [],
  ◌∷◌, ◌++◌, arith, ◌==◌, str_eq, if◌then◌else◌, first_where, first_where-append, first_where-Has,
  any, Has, Option-cases, Bool-cases, text_prefix, characters, characters-text_prefix, is_truthy,
  text_or,
}
use inryeok_bot.Jobs.Model.{
  ReviewJob, ReviewFailureNotice, Database, JobStatus, pending, running, succeeded, failed, skipped,
  is_terminal, is_pending,
}
use inryeok_bot.Jobs.Claim.{put_job}
use inryeok_bot.Jobs.Finish.{
  new_notice, finished_outcome, bounded_message, finish_job, skip_job, skip_pending, notices_for,
  get_or_create_failure_notice,
}

abbrev pub FitsIn : ℕ → Option String → Type 0
FitsIn n none = Unit
FitsIn n (some s) = characters s ≤ n

message_case : (s : String) (b : Bool) → FitsIn 4000 (if b then none else some (text_prefix 4000 s))
message_case s true = tt
message_case s false = characters-text_prefix 4000 s

bounded_message-FitsIn : (m : Option String) → FitsIn 4000 (bounded_message m)
unfolding bounded_message
bounded_message-FitsIn none = tt
bounded_message-FitsIn (some s) = message_case s (str_eq s "")

text_or-truthy :
    (c : Option String) (d : String) → str_eq d "" ≡ false → is_truthy (some (text_or c d)) ≡ true
text_or-truthy none d h = ground arith
text_or-truthy (some s) d h = ground arith

outcome-truthy :
    (status : JobStatus) (code : Option String) (j : ReviewJob)
    → is_terminal status ≡ true
    → is_truthy (finished_outcome j status code) ≡ true
unfolding finished_outcome
outcome-truthy succeeded code j h = ground arith
outcome-truthy skipped code j h = ground (arith, text_or-truthy code "SKIPPED" refl)
outcome-truthy failed code j h = refl
outcome-truthy pending code j h = cc
outcome-truthy running code j h = cc

final-outcome :
    (status : JobStatus) (code : Option String) (j : ReviewJob)
    → (status ≢ failed) ⊎ (finished_outcome j status code ≡ some "FAILED_FINAL")
unfolding finished_outcome
final-outcome failed code j = inr refl
final-outcome succeeded code j = inl (λ e. cc)
final-outcome skipped code j = inl (λ e. cc)
final-outcome pending code j = inl (λ e. cc)
final-outcome running code j = inl (λ e. cc)

-- A job that ends in a terminal state has a terminal outcome and an end time, its message has at
-- most 4000 characters, and a failure is final whatever outcome was recorded before.
pub finish_job_terminal :
    (now : ℕ) (status : JobStatus) (code message : Option String) (j : ReviewJob)
    → is_terminal status ≡ true
    → let f = finish_job now status code message j in
      (is_truthy f.terminal_outcome ≡ true)
      × (f.finished_at ≡ some now)
      × FitsIn 4000 f.error_message
      × ((status ≢ failed) ⊎ (f.terminal_outcome ≡ some "FAILED_FINAL"))
unfolding finish_job
finish_job_terminal now status code message j h = (
  outcome-truthy status code j h,
  refl,
  bounded_message-FitsIn message,
  final-outcome status code j,
)

-- Only a pending job is skipped: then the row under that id is skipped with a reason of at most
-- 100 characters, and otherwise the database stays as it was.
pub skip_pending_outcome :
    (now job_id : ℕ) (reason : String) (db : Database)
    → let (r, db') = skip_pending now job_id reason db in
      ((r ≡ none) × (db' ≡ db))
      ⊎ ((j : ReviewJob) × Has j db.jobs
          × (j.id ≡ job_id)
          × (j.status ≡ pending)
          × (r ≡ some (skip_job now reason j))
          × (db' ≡ put_job (skip_job now reason j) db)
          × FitsIn 100 (skip_job now reason j).error_code)
unfolding skip_pending skip_job
skip_pending_outcome now job_id reason db =
    elim (Option-cases (first_where (λ j. j.id == job_id) db.jobs)) [
      | inl e ↦ inl (ground arith)
      | inr (j, e) ↦
          let (m, same) = first_where-Has (λ j. j.id == job_id) db.jobs j e in
          elim (Bool-cases (is_pending j.status)) [
            | inl p ↦ inr (
              j,
              m,
              ground arith,
              ground arith,
              ground arith,
              ground arith,
              characters-text_prefix 100 reason,
            )
            | inr p ↦ inl (ground arith)
          ]
    ]

-- A row that another transaction inserted is found.
raced-found :
    (p : ReviewFailureNotice → Bool) (xs ys : List ReviewFailureNotice)
    → any p ys ≡ true
    → (n : ReviewFailureNotice) × (first_where p (xs ++ ys) ≡ some n)
raced-found p [] [] h = cc
raced-found p [] (y ∷ ys) h = elim (Bool-cases (p y)) [
  | inl e ↦ (y, rw e)
  | inr e ↦ rw e (raced-found p [] ys (rw e at h))
]
raced-found p (x ∷ xs) ys h = elim (Bool-cases (p x)) [
  | inl e ↦ (x, rw e)
  | inr e ↦ rw e (raced-found p xs ys h)
]

notices_for-new :
    (j : ReviewJob) (category : String) → notices_for j category (new_notice j category) ≡ true
unfolding notices_for
notices_for-new j category = ground (
  arith,
  eq_refl j.key.repository_owner,
  eq_refl j.key.repository_name,
  eq_refl j.key.head_sha,
  eq_refl category,
)

any-eq-false :
    (p : ReviewFailureNotice → Bool) (xs : List ReviewFailureNotice)
    → any p xs ≡ false
    → first_where p xs ≡ none
any-eq-false p [] h = refl
any-eq-false p (x ∷ xs) h = ground (arith, any-eq-false p xs)

new_first :
    (p : ReviewFailureNotice → Bool) (xs ys : List ReviewFailureNotice) (n : ReviewFailureNotice)
    → first_where p xs ≡ none
    → any p ys ≡ false
    → p n ≡ true
    → first_where p ((xs ++ ys) ++ n ∷ []) ≡ some n
new_first p xs ys n hx hy hn = simp (first_where-append, hx, any-eq-false p ys hy, hn)

-- After the call the returned notice is the first of its head and category.
notice_first :
    (raced : List ReviewFailureNotice) (j : ReviewJob) (category : String) (db : Database)
    → (n : ReviewFailureNotice) × ((get_or_create_failure_notice raced j category db).0 ≡ some n)
      × (first_where
            (notices_for j category)
            (get_or_create_failure_notice raced j category db).1.failure_notices
          ≡ some n)
unfolding get_or_create_failure_notice
notice_first raced j category db =
    elim (Option-cases (first_where (notices_for j category) db.failure_notices)) [
      | inr (n, e) ↦ (n, ground arith, ground arith)
      | inl e ↦ elim (Bool-cases (any (notices_for j category) raced)) [
        | inl race ↦
            let (n, found) = raced-found (notices_for j category) db.failure_notices raced race in
            (n, ground arith, ground arith)
        | inr quiet ↦ (
          new_notice j category,
          ground arith,
          ground (
            arith,
            e,
            new_first (notices_for j category) db.failure_notices raced (new_notice j category) e
                quiet (notices_for-new j category),
          ),
        )
      ]
    ]

-- A failure notice is always returned, and it is one of the job's head and category, whatever
-- other transactions insert meanwhile.
pub failure_notice_found :
    (raced : List ReviewFailureNotice) (j : ReviewJob) (category : String) (db : Database)
    → (n : ReviewFailureNotice) × ((get_or_create_failure_notice raced j category db).0 ≡ some n)
      × (notices_for j category n ≡ true)
failure_notice_found raced j category db =
    let (n, returned, found) = notice_first raced j category db in
    (
      n,
      returned,
      (first_where-Has (notices_for j category)
          (get_or_create_failure_notice raced j category db).1.failure_notices n found).1,
    )

-- A notice leaves the jobs as they were.
pub notice_jobs :
    (raced : List ReviewFailureNotice) (j : ReviewJob) (category : String) (db : Database)
    → let (n, db') = get_or_create_failure_notice raced j category db in db'.jobs ≡ db.jobs
unfolding get_or_create_failure_notice
notice_jobs raced j category db =
    elim (Option-cases (first_where (notices_for j category) db.failure_notices)) [
      | inr (n, e) ↦ rw (e, get_or_create_failure_notice) refl
      | inl e ↦
          rw (e, get_or_create_failure_notice)
            (elim (Bool-cases (any (notices_for j category) raced)) [
              | inl a ↦ rw (a, get_or_create_failure_notice) refl
              | inr a ↦ rw (a, get_or_create_failure_notice) refl
            ])
    ]
