-- ===== src/Review/Passes/Execute/Tests.antt =====
-- Witnesses of the loop over the passes.
use inryeok_bot.Prelude.{
  String, true, none, some, List, [], ◌∷◌, ◌≡◌, refl, All, if◌then◌else◌, str_eq,
}
use inryeok_bot.Review.Path.{append_text}
use inryeok_bot.Review.Passes.{
  is_partial_safe, is_hard_failure, pass_focus, skip_reason, pass_prompt, succeeded, failed,
  ReviewPass, Review, Turn, reviewed, codex_failed,
}
use inryeok_bot.Review.Passes.Execute.{
  MergedReview, identity, digest, new_pass, run_pass, reserve_pass, one_pass, continue_loop,
  execute_loop, execute_passes,
}
use inryeok_bot.Review.Passes.Execute.Merged.{is_fulfilled, execute_passes_fulfilled}

a_sum : String → String
a_sum _ = "digest"

abbrev a_review : Review
a_review = record {
  job_id = 4;
  schema_hash = some "schema";
  model = none;
  reasoning_effort = "medium";
  codex_timeout_seconds = 900;
  review_processes_per_day = 50;
  review_processes_per_hour = 10;
  review_pass_timeout_seconds = 600;
  prompt = "p";
  prompt_version = "1";
  execution_id = "execution";
}

-- The second pass meets a quota, so that the review is partial.
a_turn : String → Turn
a_turn t = record {
  now = 1000;
  remaining = 800;
  outcome = if str_eq t "GENERAL" then reviewed "fine" [] else codex_failed "CODEX_QUOTA" (some 1);
  last_process_count = some 1;
  duration_ms = 5;
}

abbrev a_row : ReviewPass
a_row = record {
  job_id = 4;
  pass_type = "GENERAL";
  execution_id = "execution";
  fingerprint = "digest";
  state = succeeded;
  reason = none;
  started_at = 1000;
  timeout_seconds = 600;
  process_count = some 1;
  duration_ms = some 5;
  raw_count = some 0;
}

abbrev rows_after : List ReviewPass
rows_after =
    a_row
    ∷ record a_row {
      pass_type = "SECURITY_PRIVACY";
      execution_id = "digest";
      state = failed;
      reason = some "CODEX_QUOTA";
      raw_count = none;
    }
    ∷ []

abbrev partial_review : MergedReview
partial_review = record { summary = "fine"; findings = []; origins = []; partial = true }

execute_passes_fulfilled_example :
    All
      (λ t. is_fulfilled a_sum a_review partial_review rows_after t ≡ true)
      ("GENERAL" ∷ "SECURITY_PRIVACY" ∷ [])
unfolding execute_passes execute_loop continue_loop one_pass reserve_pass run_pass new_pass identity
    digest skip_reason pass_prompt pass_focus is_partial_safe is_hard_failure a_sum a_turn
    append_text
execute_passes_fulfilled_example =
    execute_passes_fulfilled a_sum a_review a_turn ("GENERAL" ∷ "SECURITY_PRIVACY" ∷ []) []
      rows_after partial_review refl
