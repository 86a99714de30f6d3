-- ===== src/Jobs/Claim/Steps.antt =====
-- A claim moves one row from pending to running.
use inryeok_bot.Prelude.{ℕ, String, ◌≡◌, Bool, true, Option, arith, Option-cases, inl, inr}
use inryeok_bot.Jobs.Model.{ReviewJob, Database}
use inryeok_bot.Jobs.States.{Advances, IsWellFormed}
use inryeok_bot.Jobs.States.Rows.{Sound, Sound-refl, Sound-put}
use inryeok_bot.Jobs.Claim.{claim_next, claim_statement, start_job, is_claimable}
use inryeok_bot.Jobs.Claim.Sound.{claim_statement_sound}

module _ (lower : String → String) (locked : ℕ → Bool) (now : ℕ) (gl rl : Option ℕ)
    (db : Database) where
  start_job-Advances :
      (j : ReviewJob)
      → is_claimable lower locked now gl rl db j ≡ true
      → Advances j (start_job now j)
  unfolding is_claimable start_job
  start_job-Advances j h = ground arith

  pub claim-Sound : IsWellFormed db → Sound db (claim_next lower locked now gl rl db).1
  unfolding claim_next
  claim-Sound w = elim (Option-cases (claim_statement lower locked now gl rl db)) [
    | inl e ↦ rw (e, claim_next) (Sound-refl db w)
    | inr (j, e) ↦
        let (m, f, _) = claim_statement_sound lower locked now gl rl db j e in
        rw (e, claim_next) (Sound-put j (start_job now j) db w m (start_job-Advances j f.0))
  ]
