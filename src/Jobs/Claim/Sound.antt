-- ===== src/Jobs/Claim/Sound.antt =====
-- Which row `claim_next` takes, and what it leaves alone.
use inryeok_bot.Prelude.{
  ℕ, String, ◌≡◌, subst, Bool, true, false, ◌&&◌, not, Option, none, some, arith, Has, All-Has,
  Has-select_where, select_where-Has, select_where,
}
use inryeok_bot.Jobs.Model.{ReviewJob, Database}
use inryeok_bot.Jobs.Claim.{is_claimable, claim_statement, precedes}
use inryeok_bot.Jobs.Claim.Order.{earliest-eq-none, earliest-eq-some}

module _ (lower : String → String) (locked : ℕ → Bool) (now : ℕ)
    (global_limit repository_limit : Option ℕ) (db : Database) where
  -- The row passes the WHERE clause and no other transaction holds it.
  abbrev pub IsFree : ReviewJob → Type 0
  IsFree j =
      (is_claimable lower locked now global_limit repository_limit db j ≡ true)
      × (locked j.id ≡ false)

  abbrev free : ReviewJob → Bool
  free j = is_claimable lower locked now global_limit repository_limit db j && not (locked j.id)

  -- A row that the statement returns is a free row of the table, and of the free rows the first
  -- by creation time and id.
  pub claim_statement_sound :
      (j : ReviewJob)
      → claim_statement lower locked now global_limit repository_limit db ≡ some j
      → Has j db.jobs
        × IsFree j
        × ((k : ReviewJob) → Has k db.jobs → IsFree k → precedes j k ≡ true)
  unfolding claim_statement
  claim_statement_sound j h =
      let (m, first) = earliest-eq-some (select_where free db.jobs) j h in
      let (inside, passes) = select_where-Has free db.jobs j m in
      (
        inside,
        ground arith,
        λ k mk fk.
            All-Has (λ y. precedes j y ≡ true) (select_where free db.jobs) k first
              (Has-select_where free db.jobs k mk (ground arith)),
      )

  -- Where the statement returns no row, no row is free.
  pub claim_statement_complete :
      claim_statement lower locked now global_limit repository_limit db ≡ none
      → (k : ReviewJob) → Has k db.jobs
      → ¬ (IsFree k)
  unfolding claim_statement
  claim_statement_complete h k m f =
      let e = earliest-eq-none (select_where free db.jobs) h in
      subst (λ xs. Has k xs) e (Has-select_where free db.jobs k m (ground arith))
