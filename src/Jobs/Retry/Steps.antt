-- ===== src/Jobs/Retry/Steps.antt =====
-- A retry leaves every row alone and adds at most one pending row.
use inryeok_bot.Prelude.{
  ℕ, String, refl, inl, inr, Bool-cases, Option-cases, any, first_where, ◌==◌,
}
use inryeok_bot.Jobs.Model.{ReviewJob, Database, conflicts, same_number}
use inryeok_bot.Prelude.{some}
use inryeok_bot.Jobs.States.{IsWellFormed}
use inryeok_bot.Jobs.States.Rows.{Sound, Sound-refl, Sound-append}
use inryeok_bot.Jobs.Retry.{
  retry_request, retry_known, insert_retry, retry_job, may_retry, succeeded_same_head,
}

insert_retry-Sound :
    (now : ℕ) (d : String) (j : ReviewJob) (db : Database)
    → IsWellFormed db
    → Sound db (insert_retry now d j db).1
unfolding insert_retry
insert_retry-Sound now d j db w =
    let new = retry_job db.next_job_id now d j in
    elim (Bool-cases (any (conflicts new) db.jobs)) [
      | inl e ↦ rw (e, insert_retry) (Sound-refl db w)
      | inr e ↦ rw (e, insert_retry) (Sound-append new db refl w)
    ]

retry_known-Sound :
    (now : ℕ) (d : String) (j : ReviewJob) (db : Database)
    → IsWellFormed db
    → Sound db (retry_known now d j db).1
unfolding retry_known
retry_known-Sound now d j db w = elim (Bool-cases (may_retry j.status)) [
  | inr e ↦ rw (e, retry_known) (Sound-refl db w)
  | inl may ↦ elim (Option-cases (first_where (succeeded_same_head j) db.jobs)) [
    | inr (x, e) ↦ rw (may, e, retry_known) (Sound-refl db w)
    | inl fresh ↦
        elim (Option-cases (first_where (λ x. same_number x.retry_of_job_id (some j.id)) db.jobs)) [
          | inr (child, e) ↦ rw (may, fresh, e, retry_known) (Sound-refl db w)
          | inl single ↦ rw (may, fresh, single, retry_known) (insert_retry-Sound now d j db w)
        ]
  ]
]

pub retry-Sound :
    (now : ℕ) (d : String) (job_id : ℕ) (db : Database)
    → IsWellFormed db
    → Sound db (retry_request now d job_id db).1
unfolding retry_request
retry-Sound now d job_id db w = elim (Option-cases (first_where (λ x. x.id == job_id) db.jobs)) [
  | inl e ↦ rw (e, retry_request) (Sound-refl db w)
  | inr (j, e) ↦ rw (e, retry_request) (retry_known-Sound now d j db w)
]
