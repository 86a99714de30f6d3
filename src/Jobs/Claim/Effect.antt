-- ===== src/Jobs/Claim/Effect.antt =====
-- What `claim_next` does to the queue: the started row, the limits, and the execution gates.
use inryeok_bot.Prelude.{
  Bool-cases, ℕ, ◌+◌, ◌≤◌, String, str_eq, ◌≡◌, refl, ◌≢◌, Bool, true, false, Option, none, some,
  arith, Has, any-eq-true, Option-cases, inl, inr,
}
use inryeok_bot.Jobs.Model.{
  ReviewJob, RepositorySettings, GlobalReviewSettings, Database, running, retry, is_running,
}
use inryeok_bot.Jobs.Unique.{HasUniqueIds, count_where-put}
use inryeok_bot.Jobs.Claim.{
  is_claimable, claim_statement, claim_next, start_job, precedes, put_job, repository_eligible,
  repository_allows, repository_running, global_running, runs_beside,
}
use inryeok_bot.Jobs.Claim.Sound.{IsFree, claim_statement_sound, claim_statement_complete}

-- What one eligible repository row tells of a job.
pub repository_allows-gates :
    (lower : String → String) (g : Option GlobalReviewSettings) (r : RepositorySettings)
    (j : ReviewJob)
    → repository_allows lower g r j ≡ true
    → (r.installed ≡ true)
      × (r.installation_id ≡ j.key.installation_id)
      × (str_eq (lower r.repository_owner) (lower j.key.repository_owner) ≡ true)
      × (str_eq (lower r.repository_name) (lower j.key.repository_name) ≡ true)
      × (j.key.trigger_type ≢ retry)
unfolding repository_allows
repository_allows-gates lower g r j h = ground arith

-- What the WHERE clause tells of a row, its repository row still unopened.
pub is_claimable-gates :
    (lower : String → String) (locked : ℕ → Bool) (now : ℕ) (gl rl : Option ℕ) (db : Database)
    (j : ReviewJob)
    → is_claimable lower locked now gl rl db j ≡ true
    → (repository_eligible lower db j ≡ true)
      × ((g : GlobalReviewSettings)
          → db.global_settings ≡ some g
          → (g.enabled ≡ true) × (g.processing_paused ≡ false))
unfolding is_claimable
is_claimable-gates lower locked now gl rl db j h = (ground arith, λ g e. ground arith)

-- No row with the retry trigger passes the claim's WHERE clause.
pub retry_key-not-claimable :
    (lower : String → String) (locked : ℕ → Bool) (now : ℕ) (gl rl : Option ℕ) (db : Database)
    (j : ReviewJob)
    → j.key.trigger_type ≡ retry
    → is_claimable lower locked now gl rl db j ≡ false
unfolding repository_eligible
retry_key-not-claimable lower locked now gl rl db j t =
    elim (Bool-cases (is_claimable lower locked now gl rl db j)) [
      | inl e ↦
          let (eligible, _) = is_claimable-gates lower locked now gl rl db j e in
          let (r, _, allows) =
            any-eq-true (λ r. repository_allows lower db.global_settings r j) db.repositories
              eligible in
          absurd ((repository_allows-gates lower db.global_settings r j allows).4 t)
      | inr e ↦ e
    ]

module _ (lower : String → String) (locked : ℕ → Bool) (now : ℕ)
    (global_limit repository_limit : Option ℕ) (db : Database) where
  -- A claim that returns a row found it by `claim_statement` and wrote the started row over it.
  claim_next-eq-some :
      (j : ReviewJob) (db' : Database)
      → claim_next lower locked now global_limit repository_limit db ≡ (some j, db')
      → (old : ReviewJob) × (claim_statement lower locked now global_limit repository_limit db
          ≡ some old)
        × (j ≡ start_job now old)
        × (db' ≡ put_job j db)
  unfolding claim_next
  claim_next-eq-some j db' h =
      elim (Option-cases (claim_statement lower locked now global_limit repository_limit db)) [
        | inl e ↦ absurd (ground arith)
        | inr (old, e) ↦ (old, e, ground arith, ground arith)
      ]

  -- A claimed job is a row of the queue that was free and first, now RUNNING, with one more
  -- attempt, and of no changed identity.
  pub claim_next_starts :
      (j : ReviewJob) (db' : Database)
      → claim_next lower locked now global_limit repository_limit db ≡ (some j, db')
      → (old : ReviewJob) × Has old db.jobs
        × IsFree lower locked now global_limit repository_limit db old
        × ((k : ReviewJob)
            → Has k db.jobs
            → IsFree lower locked now global_limit repository_limit db k
            → precedes old k ≡ true)
        × (j ≡ record old {
          status = running;
          attempts = old.attempts + 1;
          started_at = some now;
          finished_at = none;
        })
  unfolding start_job
  claim_next_starts j db' h =
      let (old, found, e, _) = claim_next-eq-some j db' h in
      let (m, f, first) =
        claim_statement_sound lower locked now global_limit repository_limit db old found in
      (old, m, f, first, e)

  -- A claim that returns nothing changes nothing, and no row was free.
  pub claim_next-none :
      (db' : Database)
      → claim_next lower locked now global_limit repository_limit db ≡ (none, db')
      → (db' ≡ db)
        × ((k : ReviewJob)
            → Has k db.jobs
            → ¬ (IsFree lower locked now global_limit repository_limit db k))
  unfolding claim_next
  claim_next-none db' h =
      elim (Option-cases (claim_statement lower locked now global_limit repository_limit db)) [
        | inl e ↦ (
          ground arith,
          claim_statement_complete lower locked now global_limit repository_limit db e,
        )
        | inr (old, e) ↦ absurd (ground arith)
      ]

  -- A claimed job belongs to an installed repository of its installation with its owner and its
  -- name, whatever the case of the letters; where the settings row exists the review is neither switched off nor paused by it, and no retry trigger asked for
  -- the job.
  pub claim_next_gates :
      (j : ReviewJob) (db' : Database)
      → claim_next lower locked now global_limit repository_limit db ≡ (some j, db')
      → ((r : RepositorySettings) × Has r db.repositories
          × (r.installed ≡ true)
          × (r.installation_id ≡ j.key.installation_id)
          × (str_eq (lower r.repository_owner) (lower j.key.repository_owner) ≡ true)
          × (str_eq (lower r.repository_name) (lower j.key.repository_name) ≡ true))
        × ((g : GlobalReviewSettings)
            → db.global_settings ≡ some g
            → (g.enabled ≡ true) × (g.processing_paused ≡ false))
        × (j.key.trigger_type ≢ retry)
  unfolding repository_eligible start_job
  claim_next_gates j db' h =
      let (old, m, f, _, e) = claim_next_starts j db' h in
      let (eligible, globally) =
        is_claimable-gates lower locked now global_limit repository_limit db old f.0 in
      let (r, mr, allows) =
        any-eq-true (λ r. repository_allows lower db.global_settings r old) db.repositories
          eligible in
      let (installed, same, owner, name, trigger) =
        repository_allows-gates lower db.global_settings r old allows in
      rw e ((r, mr, installed, same, owner, name), globally, trigger)

module _ (lower : String → String) (locked : ℕ → Bool) (now : ℕ) (db : Database)
    (unique : HasUniqueIds db.jobs) where
  -- With distinct ids and a global limit, no more jobs than the limit are RUNNING once a claim
  -- has returned a job.
  pub claim_next_global_limit :
      (limit : ℕ) (repository_limit : Option ℕ) (j : ReviewJob) (db' : Database)
      → claim_next lower locked now (some limit) repository_limit db ≡ (some j, db')
      → global_running db' ≤ limit
  unfolding global_running is_claimable start_job
  claim_next_global_limit limit repository_limit j db' h =
      let (old, found, e, e') =
        claim_next-eq-some lower locked now (some limit) repository_limit db j db' h in
      let (m, f, first) =
        claim_statement_sound lower locked now (some limit) repository_limit db old found in
      rw e' (
        rw e (
          ground (
            arith,
            count_where-put (λ r. is_running r.status) old.id old (start_job now old) db.jobs unique
                m refl,
          )))

  -- With distinct ids and a repository limit, no more jobs of the claimed job's repository than
  -- the limit are RUNNING once a claim has returned a job.
  pub claim_next_repository_limit :
      (global_limit : Option ℕ) (limit : ℕ) (j : ReviewJob) (db' : Database)
      → claim_next lower locked now global_limit (some limit) db ≡ (some j, db')
      → repository_running db' j ≤ limit
  unfolding repository_running is_claimable start_job runs_beside
  claim_next_repository_limit global_limit limit j db' h =
      let (old, found, e, e') =
        claim_next-eq-some lower locked now global_limit (some limit) db j db' h in
      let (m, f, first) =
        claim_statement_sound lower locked now global_limit (some limit) db old found in
      rw e' (
        rw e (
          ground (
            arith,
            count_where-put (runs_beside old) old.id old (start_job now old) db.jobs unique m refl,
          )))
