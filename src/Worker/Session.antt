-- ===== src/Worker/Session.antt =====
-- The database session of a worker: the stored tables and the job object that it holds. What is
-- assigned to the object is stored by a commit and dropped by a rollback. A rollback also expires
-- the object: until it is loaded again, reading an attribute that was not assigned since would need
-- an await, and raises MissingGreenlet.
use inryeok_bot.Prelude.{
  ◌≡◌, refl, Bool, true, false, Option, none, some, List, [], ◌∷◌, arith, ◌==◌, if◌then◌else◌,
  first_where, update_where, All,
}
use inryeok_bot.Jobs.Model.{ReviewJob, Database}
use inryeok_bot.Jobs.Claim.{put_job}

-- `begun`: a transaction is in progress. `expired`: the attributes of the object are to be loaded.
pub record Session : Type 0 where
  pub database : Database
  pub held : ReviewJob
  pub begun : Bool
  pub expired : Bool

-- The object as loaded or assigned. Either happens in a transaction.
abbrev pub hold : ReviewJob → Session → Session
hold j s = record s { held = j; begun = true; expired = false }

-- The row of the object.
abbrev pub stored_job : Session → Option ReviewJob
stored_job s = first_where (λ x. x.id == s.held.id) s.database.jobs

-- `session.get(ReviewJob, id)`: an expired object is loaded, another one is returned as it is.
abbrev pub get_job : Session → Option ReviewJob
get_job s = if s.expired then stored_job s else some s.held

-- Assignments to the object. On an expired one they change the columns of its row: the flush loads
-- the other ones.
unfoldable pub assign : (ReviewJob → ReviewJob) → Session → Session
assign f s = elim (get_job s) [ none ↦ s | some j ↦ hold (f j) s ]

-- The factory of the sessions sets expire_on_commit to False.
unfoldable pub commit : Session → Session
commit s = record s { database = put_job s.held s.database; begun = false; expired = false }

-- Without a transaction a rollback does nothing.
unfoldable pub rollback : Session → Session
rollback s = if s.begun then record s { begun = false; expired = true } else s

-- The row of the held job is the held job.
abbrev pub IsStored : Session → Type 0
IsStored s = All (λ x. x.id ≡ s.held.id → x ≡ s.held) s.database.jobs

put-stored :
    (j : ReviewJob) (xs : List ReviewJob)
    → All (λ x. x.id ≡ j.id → x ≡ j) (update_where (λ x. x.id == j.id) (λ _. j) xs)
put-stored j [] = tt
put-stored j (x ∷ xs) = (put-row j x (x.id == j.id) refl, put-stored j xs)
  where
    put-row :
        (j x : ReviewJob) (b : Bool)
        → (x.id == j.id) ≡ b
        → (if b then j else x).id ≡ j.id
        → (if b then j else x) ≡ j
    put-row j x true h e = refl
    put-row j x false h e = ground arith

-- A commit stores the held job.
pub commit-IsStored : (s : Session) → IsStored (commit s)
unfolding commit
commit-IsStored s = put-stored s.held s.database.jobs
