-- ===== src/Jobs/Claim.antt =====
-- `claim_statement` and `JobRepository.claim_next` of app/jobs/repository.py.
pub mod Tests
pub mod Steps
pub mod Order
pub mod Sound
pub mod Effect
use inryeok_bot.Prelude.{
  ℕ, ◌+◌, String, Bool, true, false, ◌&&◌, ◌||◌, not, Option, none, some, List, [], ◌∷◌, ltb, leb,
  ◌==◌, str_eq, if◌then◌else◌, is_null, select_where, count_where, update_where, any,
}
use inryeok_bot.Jobs.Model.{
  ReviewJob, RepositorySettings, GlobalReviewSettings, Database, running, is_pending, is_running,
  is_auto, is_command, same_repository_name,
}

-- `exists(... id == 1, flag is false)`: false where the row is missing.
abbrev pub globally_off : (GlobalReviewSettings → Bool) → Option GlobalReviewSettings → Bool
globally_off flag none = false
globally_off flag (some g) = not (flag g)

abbrev is_true : Option Bool → Bool
is_true (some b) = b
is_true none = false

-- `(override IS NULL) & ~off | override IS TRUE`
abbrev pub override_allows : Option Bool → Bool → Bool
override_allows override off = is_null override && not off || is_true override

-- `lower` is the database's `lower(text)`.
module _ (lower : String → String) where
  -- `repository_match`
  pub repository_match : RepositorySettings → ReviewJob → Bool
  repository_match r j =
      (r.installation_id == j.key.installation_id)
      && str_eq (lower r.repository_owner) (lower j.key.repository_owner)
      && str_eq (lower r.repository_name) (lower j.key.repository_name)

  -- The row test of `repository_eligible`.
  pub repository_allows : Option GlobalReviewSettings → RepositorySettings → ReviewJob → Bool
  unfolding repository_match
  repository_allows g r j =
      repository_match r j
      && r.installed
      && override_allows r.override_enabled (globally_off (λ s. s.enabled) g)
      && (is_auto j.key.trigger_type
            && override_allows r.override_auto_review_enabled
                (globally_off (λ s. s.auto_review_enabled) g)
          || is_command j.key.trigger_type
            && override_allows r.override_command_review_enabled
                (globally_off (λ s. s.command_review_enabled) g))

  pub repository_eligible : Database → ReviewJob → Bool
  repository_eligible db j = any (λ r. repository_allows db.global_settings r j) db.repositories

-- A running job of the same installation and repository.
pub runs_beside : ReviewJob → ReviewJob → Bool
runs_beside j r =
    is_running r.status
    && (r.key.installation_id == j.key.installation_id)
    && same_repository_name r.key j.key

-- `count < limit`, where a limit is given.
abbrev pub below_limit : ℕ → Option ℕ → Bool
below_limit n none = true
below_limit n (some limit) = ltb n limit

pub global_running : Database → ℕ
global_running db = count_where (λ r. is_running r.status) db.jobs

pub repository_running : Database → ReviewJob → ℕ
repository_running db j = count_where (runs_beside j) db.jobs

abbrev pub is_due : ReviewJob → ℕ → Bool
is_due j now = elim j.not_before [ none ↦ true | some t ↦ leb t now ]

abbrev pub is_paused : Option GlobalReviewSettings → Bool
is_paused none = false
is_paused (some g) = g.processing_paused

-- `ORDER BY created_at, id`
pub precedes : ReviewJob → ReviewJob → Bool
precedes a b = ltb a.created_at b.created_at || (a.created_at == b.created_at) && leb a.id b.id

pub earliest : List ReviewJob → Option ReviewJob
unfolding precedes
earliest [] = none
earliest (x ∷ xs) = elim (earliest xs) [
  | none ↦ some x
  | some y ↦ some (if precedes x y then x else y)
]

-- `locked` tells which rows another transaction holds, `now` is the time of the statement.
module _ (lower : String → String) (locked : ℕ → Bool) (now : ℕ) where
  -- The WHERE clause of `claim_statement`.
  pub is_claimable : Option ℕ → Option ℕ → Database → ReviewJob → Bool
  is_claimable global_limit repository_limit db j =
      is_pending j.status
      && is_due j now
      && not (globally_off (λ s. s.enabled) db.global_settings)
      && not (is_paused db.global_settings)
      && repository_eligible lower db j
      && below_limit (global_running db) global_limit
      && below_limit (repository_running db j) repository_limit

  -- The row that `claim_statement` returns: SKIP LOCKED leaves out the locked rows.
  pub claim_statement : Option ℕ → Option ℕ → Database → Option ReviewJob
  claim_statement global_limit repository_limit db = earliest (
      select_where (λ j. is_claimable global_limit repository_limit db j && not (locked j.id))
        db.jobs)

-- The assignments of `claim_next`.
pub start_job : ℕ → ReviewJob → ReviewJob
start_job now j = record j {
  status = running;
  attempts = j.attempts + 1;
  started_at = some now;
  finished_at = none;
}

-- The flush of one changed row.
abbrev pub put_job : ReviewJob → Database → Database
put_job j db = record db { jobs = update_where (λ x. x.id == j.id) (λ _. j) db.jobs }

module _ (lower : String → String) (locked : ℕ → Bool) (now : ℕ) where
  pub claim_next : Option ℕ → Option ℕ → Database → Option ReviewJob × Database
  unfolding claim_statement start_job
  claim_next global_limit repository_limit db =
      elim (claim_statement lower locked now global_limit repository_limit db) [
        | none ↦ (none, db)
        | some j ↦ (some (start_job now j), put_job (start_job now j) db)
      ]
