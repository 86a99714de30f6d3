-- ===== src/Jobs/Enqueue/Steps.antt =====
-- Admission supersedes pending rows and adds at most one pending row.
use inryeok_bot.Prelude.{
  ℕ, refl, Option, inl, inr, Bool-cases, Option-cases, map, select_where, any, count_where, ◌++◌,
  arith, if◌then◌else◌,
}
use inryeok_bot.Jobs.Model.{ReviewJob, JobKey, Database, conflicts}
use inryeok_bot.Jobs.States.{Advances, IsWellFormed}
use inryeok_bot.Jobs.States.Rows.{Sound, Sound-refl, Sound-update-append}
use inryeok_bot.Jobs.Enqueue.{
  supersede_log, JobValues, enqueue, admit, new_job, superseded, supersede, found_before,
  counts_against, counts_against_repository, at_capacity,
}

supersede-Advances :
    (now : ℕ) (k : JobKey) (x : ReviewJob)
    → Advances x (if superseded k x then supersede now k x else x)
unfolding superseded supersede
supersede-Advances now k x = ground arith

admit-Sound :
    (now : ℕ) (v : JobValues) (db : Database) → IsWellFormed db → Sound db (admit now v db).1
unfolding admit
admit-Sound now v db w =
    let new = new_job db.next_job_id now v in
    elim (Bool-cases (any (conflicts new) db.jobs)) [
      | inl e ↦ rw (e, admit) (Sound-refl db w)
      | inr e ↦
          rw (e, admit)
            (Sound-update-append (superseded v.key) (supersede now v.key) new
              (db.audit_logs ++ map (supersede_log v.key) (select_where (superseded v.key) db.jobs))
              db (supersede-Advances now v.key) refl w)
    ]

pub enqueue-Sound :
    (now : ℕ) (m r : Option ℕ) (v : JobValues) (db : Database)
    → IsWellFormed db
    → Sound db (enqueue now m r v db).1
unfolding enqueue
enqueue-Sound now m r v db w = elim (Option-cases (found_before v db)) [
  | inr (j, e) ↦ rw (e, enqueue) (Sound-refl db w)
  | inl e ↦ elim (Bool-cases (at_capacity (count_where (counts_against v.key) db.jobs) m)) [
    | inl full ↦ rw (e, full, enqueue) (Sound-refl db w)
    | inr room ↦
        elim (Bool-cases (at_capacity (count_where (counts_against_repository v.key) db.jobs) r)) [
          | inl full ↦ rw (e, room, full, enqueue) (Sound-refl db w)
          | inr free ↦ rw (e, room, free, enqueue) (admit-Sound now v db w)
        ]
  ]
]
