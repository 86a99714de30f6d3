-- ===== src/Review/Passes/Execute.antt =====
-- `execute_passes` of app/review/passes.py.
mod Complete
mod Merged
mod Tests
use inryeok_bot.Prelude.{
  ℕ, ◌+◌, ◌-◌, ◌*◌, String, Bool, true, false, ◌&&◌, ◌||◌, not, Option, none, some, List, [], ◌∷◌,
  ◌++◌, map, min, max, ltb, leb, ◌==◌, str_eq, if◌then◌else◌, any, first_where, count_where,
  update_where, text_or, length, is_null, or_else, is_present,
}
use inryeok_bot.Review.Path.{append_text}
use inryeok_bot.Review.Finding.{Finding}
use inryeok_bot.Review.Passes.{
  general, is_partial_safe, is_unknown_failure, is_hard_failure, PassState, reserved, skipped,
  succeeded, failed, unknown, is_succeeded, is_skipped, ReviewPass, is_pass_of, Review, PassOutcome,
  reviewed, codex_failed, other_failed, Turn, PassEnd, stopped, crashed, left_out, found, texts,
  pass_prompt, set_pass, used, a_day, an_hour, skip_reason, failed_state, failed_reason,
}

pub record MergedReview : Type 0 where
  pub summary : String
  pub findings : List Finding
  pub origins : List String
  pub partial : Bool

pub data Executed : Type 0 where
  halted : String → Executed
  broken : Executed
  merged : MergedReview → Executed

abbrev add_findings : String → String → List Finding → MergedReview → MergedReview
add_findings t summary findings m = record {
  summary = if str_eq t general then summary else m.summary;
  findings = m.findings ++ findings;
  origins = m.origins ++ map (λ f. t) findings;
  partial = m.partial;
}

abbrev pub Result : Type 0
Result = List ReviewPass × Executed

abbrev pub nothing_merged : MergedReview
nothing_merged = record { summary = ""; findings = []; origins = []; partial = false }

-- What follows a round. `rest` is the rest of the loop.
pub continue_loop :
    String
    → MergedReview
    → (MergedReview → List ReviewPass → Result)
    → List ReviewPass
    → PassEnd
    → Result
continue_loop t m rest rows (stopped code) = (rows, halted code)
continue_loop t m rest rows crashed = (rows, broken)
continue_loop t m rest rows left_out = rest (record m { partial = true }) rows
continue_loop t m rest rows (found summary findings) = rest (add_findings t summary findings m) rows

-- `sha256` is the hexadecimal digest of a text.
module _ (sha256 : String → String) where
  pub identity : Review → String → String
  identity v t =
      if str_eq t general then v.execution_id else sha256 (texts (v.execution_id ∷ ":" ∷ t ∷ []))

  pub digest : Review → String → String
  unfolding pass_prompt
  digest v t = sha256 (
      texts (
        t
        ∷ "\0"
        ∷ text_or v.model "CLI_DEFAULT"
        ∷ "\0"
        ∷ v.reasoning_effort
        ∷ "\0"
        ∷ v.prompt_version
        ∷ "\0"
        ∷ text_or v.schema_hash "UNKNOWN"
        ∷ "\0"
        ∷ sha256 (pass_prompt v t)
        ∷ []))

  -- The row of a new pass.
  pub new_pass : Review → Turn → String → Option String → ReviewPass
  new_pass v e t reason = record {
    job_id = v.job_id;
    pass_type = t;
    execution_id = identity v t;
    fingerprint = digest v t;
    state = if is_present reason then skipped else reserved;
    reason = reason;
    started_at = e.now;
    timeout_seconds =
        min v.codex_timeout_seconds (min v.review_pass_timeout_seconds (max 30 e.remaining));
    process_count = none;
    duration_ms = none;
    raw_count = none;
  }

  abbrev pub succeed : Bool → Turn → List Finding → ReviewPass → ReviewPass
  succeed is_new e findings p = record p {
    state = succeeded;
    process_count = if is_new then e.last_process_count else p.process_count;
    duration_ms = if is_new then some e.duration_ms else p.duration_ms;
    raw_count = some (length findings);
  }

  abbrev pub fail : Turn → String → Option ℕ → ReviewPass → ReviewPass
  fail e code count p = record p {
    state = failed_state code;
    reason = some (failed_reason code);
    process_count = count;
    duration_ms = some e.duration_ms;
  }

  -- From `runner.run` on.
  pub run_pass :
      PassOutcome → Bool → Review → Turn → String → List ReviewPass → List ReviewPass × PassEnd
  unfolding is_partial_safe is_hard_failure is_unknown_failure
  run_pass (reviewed summary findings) is_new v e t rows =
      (set_pass v.job_id t (succeed is_new e findings) rows, found summary findings)
  run_pass (codex_failed code count) is_new v e t rows = (
    set_pass v.job_id t (fail e code count) rows,
    if str_eq t general || not (is_partial_safe code) then stopped code else left_out,
  )
  run_pass other_failed is_new v e t rows = (rows, crashed)

  -- A new pass: its row is stored before anything runs.
  pub reserve_pass :
      Option String → Review → Turn → String → List ReviewPass → List ReviewPass × PassEnd
  unfolding run_pass new_pass
  reserve_pass (some reason) v e t rows = (
    rows ++ (new_pass v e t (some reason) ∷ []),
    if str_eq t general then stopped "PROCESS_BUDGET_EXCEEDED" else left_out,
  )
  reserve_pass none v e t rows = run_pass e.outcome true v e t (rows ++ (new_pass v e t none ∷ []))

  -- One round of the loop, for the stored row of the pass.
  pub one_pass :
      Option ReviewPass → Review → Turn → String → List ReviewPass → List ReviewPass × PassEnd
  unfolding reserve_pass skip_reason digest
  one_pass (some prior) v e t rows =
      let again = run_pass e.outcome false v e t rows in
      if not (str_eq prior.fingerprint (digest v t))
      then (rows, stopped "EXECUTION_ID_CONFLICT")
      else if not (is_succeeded prior.state)
      then (rows, stopped "EXECUTOR_UNKNOWN_OUTCOME")
      else again
  one_pass none v e t rows = reserve_pass (skip_reason v e rows) v e t rows

  -- The loop over the planned passes. `turn` gives what each pass meets.
  pub execute_loop :
      (String → Turn) → Review → List String → MergedReview → List ReviewPass → Result
  unfolding continue_loop
  execute_loop turn v [] m rows = (rows, merged m)
  execute_loop turn v (t ∷ rest) m rows =
      let round = one_pass (first_where (is_pass_of v.job_id t) rows) v (turn t) t rows in
      continue_loop t m (λ m' rows'. execute_loop turn v rest m' rows') round.0 round.1

  pub execute_passes : (String → Turn) → Review → List String → List ReviewPass → Result
  execute_passes turn v plan rows = execute_loop turn v plan nothing_merged rows
