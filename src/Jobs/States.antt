-- ===== src/Jobs/States.antt =====
-- The state machine of a job, and what an operation may do to the rows of the queue.
pub mod Rows
use inryeok_bot.Prelude.{ℕ, ◌≤◌, ◌<◌, ◌≡◌, ◌⊎◌, Bool, true, false, List, [], ◌∷◌, All}
use inryeok_bot.Jobs.Model.{
  ReviewJob, Database, JobStatus, pending, running, succeeded, failed, skipped, is_terminal,
}
use inryeok_bot.Jobs.Unique.{HasUniqueIds}

-- The edges of the state machine. A terminal state has none.
abbrev pub may_become : JobStatus → JobStatus → Bool
may_become pending running = true
may_become pending skipped = true
may_become pending failed = true
may_become running pending = true
may_become running failed = true
may_become _ _ = false

-- What an operation may do to a row: keep it, or move it along an edge, keeping its identity, its
-- execution and its attempts, which only grow.
pub record Advances (old new : ReviewJob) : Type 0 where
  pub same_id : new.id ≡ old.id
  pub same_key : new.key ≡ old.key
  pub same_execution : new.execution_id ≡ old.execution_id
  pub more_attempts : old.attempts ≤ new.attempts
  pub edge : (new.status ≡ old.status) ⊎ (may_become old.status new.status ≡ true)

-- What any number of operations leave of a row: a terminal state stays as it is.
pub record Follows (old new : ReviewJob) : Type 0 where
  pub same_id : new.id ≡ old.id
  pub same_key : new.key ≡ old.key
  pub same_execution : new.execution_id ≡ old.execution_id
  pub more_attempts : old.attempts ≤ new.attempts
  pub settled : is_terminal old.status ≡ true → new.status ≡ old.status

-- The old rows in their order, each related to what it has become, and any rows behind them.
abbrev pub Grows : (ReviewJob → ReviewJob → Type 0) → List ReviewJob → List ReviewJob → Type 0
Grows R [] ys = Unit
Grows R (x ∷ xs) [] = ⊥
Grows R (x ∷ xs) (y ∷ ys) = R x y × Grows R xs ys

-- Distinct ids, all below the next one.
pub record IsWellFormed (db : Database) : Type 0 where
  pub unique : HasUniqueIds db.jobs
  pub below : All (λ j. j.id < db.next_job_id) db.jobs
