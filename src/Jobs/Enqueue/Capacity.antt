-- ===== src/Jobs/Enqueue/Capacity.antt =====
-- What admission guarantees: the bounds on pending jobs, one automatic head for each pull request,
-- and no change where nothing is created.
use inryeok_bot.Prelude.{
  ℕ, ◌≤◌, ◌≡◌, refl, ◌≢◌, inl, inr, Bool, true, false, ◌&&◌, not, Option, none, some, List, [], ◌∷◌,
  ◌++◌, arith, if◌then◌else◌, count_where, update_where, any, Has, All-Has, Has-append,
  Has-update_where, first_where, first_where-none, count_where-ext, subst, Option-cases, Bool-cases,
  count_where-append,
}
use inryeok_bot.Jobs.Model.{
  ReviewJob, JobKey, Database, pending, auto, is_pending, same_pull_request, same_repository_name,
  conflicts,
}
use inryeok_bot.Jobs.Enqueue.{
  JobValues, created, new_job, superseded, auto_same_head, supersede, counts_against,
  counts_against_repository, admit, found_before, enqueue, at_capacity,
}

-- What `enqueue` did where it created a job: no request stood for it, both limits had room, and
-- the job was admitted.
pub enqueue-eq-created :
    (now : ℕ) (m r : Option ℕ) (v : JobValues) (db db' : Database) (j : ReviewJob)
    → enqueue now m r v db ≡ (created j, db')
    → (found_before v db ≡ none)
      × (at_capacity (count_where (counts_against v.key) db.jobs) m ≡ false)
      × (at_capacity (count_where (counts_against_repository v.key) db.jobs) r ≡ false)
      × (admit now v db ≡ (created j, db'))
unfolding enqueue
enqueue-eq-created now m r v db db' j h = elim (Option-cases (found_before v db)) [
  | inl e ↦ ground arith
  | inr (x, e) ↦ absurd (ground arith)
]

-- Where no job is created the database stays as it was.
pub enqueue_unchanged :
    (now : ℕ) (m r : Option ℕ) (v : JobValues) (db : Database)
    → ((j : ReviewJob) → (enqueue now m r v db).0 ≢ created j)
    → (enqueue now m r v db).1 ≡ db
unfolding enqueue admit
enqueue_unchanged now m r v db h = ground (arith, h (new_job db.next_job_id now v))

-- What `admit` did where it created a job.
pub admit-eq-created :
    (now : ℕ) (v : JobValues) (db db' : Database) (j : ReviewJob)
    → admit now v db ≡ (created j, db')
    → (any (conflicts (new_job db.next_job_id now v)) db.jobs ≡ false)
      × (j ≡ new_job db.next_job_id now v)
      × (db'.jobs ≡ update_where (superseded v.key) (supersede now v.key) db.jobs ++ j ∷ [])
unfolding admit
admit-eq-created now v db db' j h = ground arith

-- Replacement takes the replaced jobs, and only those, out of a count of pending jobs.
count_where-supersede :
    (now : ℕ) (k : JobKey) (p : ReviewJob → Bool) (xs : List ReviewJob)
    → ((x : ReviewJob) → p (supersede now k x) ≡ false)
    → count_where p (update_where (superseded k) (supersede now k) xs)
      ≡ count_where (λ j. p j && not (superseded k j)) xs
count_where-supersede now k p [] gone = refl
count_where-supersede now k p (x ∷ xs) gone = elim (Bool-cases (superseded k x)) [
  | inl e ↦ rw e (ground (arith, gone x, count_where-supersede now k p xs gone))
  | inr e ↦ rw e (ground (arith, count_where-supersede now k p xs gone))
]

-- With a limit, no more jobs than that are pending after a job is created.
pub enqueue_pending_bound :
    (now limit : ℕ) (r : Option ℕ) (v : JobValues) (db db' : Database) (j : ReviewJob)
    → enqueue now (some limit) r v db ≡ (created j, db')
    → count_where (λ x. is_pending x.status) db'.jobs ≤ limit
unfolding counts_against supersede new_job
enqueue_pending_bound now limit r v db db' j h =
    let (_, room, _, done) = enqueue-eq-created now (some limit) r v db db' j h in
    let (_, made, after) = admit-eq-created now v db db' j done in
    let pend : ReviewJob → Bool = λ x. is_pending x.status in
    rw (after, made)
      (rw (count_where-append pend)
        (ground (arith, room, count_where-supersede now v.key pend db.jobs (λ x. refl))))

-- With a limit for each repository, no more jobs than that are pending under the new job's
-- repository name after it is created.
pub enqueue_repository_bound :
    (now limit : ℕ) (m : Option ℕ) (v : JobValues) (db db' : Database) (j : ReviewJob)
    → enqueue now m (some limit) v db ≡ (created j, db')
    → count_where (λ x. is_pending x.status && same_repository_name x.key v.key) db'.jobs ≤ limit
unfolding counts_against counts_against_repository supersede new_job
enqueue_repository_bound now limit m v db db' j h =
    let (_, _, room, done) = enqueue-eq-created now m (some limit) v db db' j h in
    let (_, made, after) = admit-eq-created now v db db' j done in
    let pend : ReviewJob → Bool = λ x. is_pending x.status && same_repository_name x.key v.key in
    rw (after, made)
      (rw (count_where-append pend) (
        ground (
          arith,
          room,
          count_where-supersede now v.key pend db.jobs (λ x. refl),
          count_where-ext (λ x. pend x && not (superseded v.key x))
              (counts_against_repository v.key) db.jobs (λ x. ground arith),
        )))

-- A pending automatic job of the pull request is replaced, unless its head is the new one.
missed_head :
    (k : JobKey) (y : ReviewJob)
    → k.trigger_type ≡ auto
    → y.status ≡ pending
    → y.key.trigger_type ≡ auto
    → same_pull_request y.key k ≡ true
    → superseded k y ≡ false
    → auto_same_head k y ≡ false
    → ⊥
unfolding superseded auto_same_head
missed_head k y ka p t same kept other = ground arith

found_before-auto :
    (v : JobValues) (db : Database)
    → v.key.trigger_type ≡ auto
    → found_before v db ≡ none
    → first_where (auto_same_head v.key) db.jobs ≡ none
unfolding found_before
found_before-auto v db ka h = ground arith

-- A row of the pull request that was there before is not pending and automatic any more.
replaced_or_found :
    (now : ℕ) (k : JobKey) (y x : ReviewJob)
    → k.trigger_type ≡ auto
    → x ≡ (if superseded k y then supersede now k y else y)
    → x.status ≡ pending
    → x.key.trigger_type ≡ auto
    → same_pull_request x.key k ≡ true
    → auto_same_head k y ≡ false
    → ⊥
replaced_or_found now k y x ka e p t same other = elim (Bool-cases (superseded k y)) [
  | inl s ↦ unfold supersede in ground (arith, rw s at e)
  | inr s ↦
      missed_head k y ka (rw (rw s at e) at p) (rw (rw s at e) at t) (rw (rw s at e) at same) s
        other
]

-- After an automatic job is created, it is the only pending automatic job of its pull request.
pub enqueue_single_head :
    (now : ℕ) (m r : Option ℕ) (v : JobValues) (db db' : Database) (j x : ReviewJob)
    → v.key.trigger_type ≡ auto
    → enqueue now m r v db ≡ (created j, db')
    → Has x db'.jobs
    → x.status ≡ pending
    → x.key.trigger_type ≡ auto
    → same_pull_request x.key v.key ≡ true
    → x ≡ j
unfolding new_job
enqueue_single_head now m r v db db' j x is_auto_trigger h m_x p t same =
    let (fresh, _, _, done) = enqueue-eq-created now m r v db db' j h in
    let (_, made, after) = admit-eq-created now v db db' j done in
    elim (Has-append (update_where (superseded v.key) (supersede now v.key) db.jobs) (j ∷ []) x
      (subst (Has x) after m_x)) [
        | inl old ↦
            let (y, m_y, e) =
              Has-update_where (superseded v.key) (supersede now v.key) db.jobs x old in
            absurd (
              replaced_or_found now v.key y x is_auto_trigger e p t same (
                All-Has (λ z. auto_same_head v.key z ≡ false) db.jobs y
                  (first_where-none (auto_same_head v.key) db.jobs
                    (found_before-auto v db is_auto_trigger fresh))
                  m_y))
        | inr new ↦ ground arith
      ]
