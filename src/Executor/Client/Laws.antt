-- ===== src/Executor/Client/Laws.antt =====
-- A failure of the runner, sent by the executor and read by its client.
use inryeok_bot.Prelude.{
  ℕ, String, Bool, true, false, ◌||◌, Option, none, some, List, ◌≡◌, refl, ap, inl, inr, leb,
  str_eq, if◌then◌else◌, Bool-cases, arith,
}
use inryeok_bot.Failures.Convert.{CodexError}
use inryeok_bot.Failures.Diagnostic.{normalize_schema_diagnostic}
use inryeok_bot.Executor.Run.{
  codex_failed, error_status, error_content, is_schema_error, run_review,
}
use inryeok_bot.Executor.Client.{Body, error_body, sent, rejection, Parsed, failed_with, receive}

either :
    (b : Bool) (x y : ℕ) → leb 400 x ≡ true → leb 400 y ≡ true → leb 400 (if b then x else y) ≡ true
either true x y h k = h
either false x y h k = k

error_status_range : (code : String) → leb 400 (error_status code) ≡ true
unfolding error_status
error_status_range code = either (str_eq code "CODEX_AUTH") 401 _ refl (
    either (str_eq code "CODEX_QUOTA") 429 _ refl (
      either (str_eq code "CODEX_RATE_LIMIT") 429 _ refl (
        either (str_eq code "CODEX_TIMEOUT") 504 _ refl
          (either (str_eq code "CODEX_SERVICE_UNAVAILABLE") 503 500 refl refl))))

or_false : (b : Bool) → ((b || false) || false) ≡ b
or_false b = ground arith

with_diagnostic : String → CodexError → List String × Bool → CodexError
with_diagnostic correlation e p = record e {
  retry_at = none;
  safe_diagnostic = p.0;
  diagnostic_extraction_failed = p.1;
  correlation_id = some correlation;
  stage = "codex_exec";
}

twice_normal :
    (e : CodexError)
    → normalize_schema_diagnostic e.safe_diagnostic ≡ (e.safe_diagnostic, false)
    → let normal = normalize_schema_diagnostic e.safe_diagnostic in
      let again = normalize_schema_diagnostic normal.0 in
      let twice : List String × Bool =
        (again.0, (e.diagnostic_extraction_failed || normal.1) || again.1) in
      twice ≡ (e.safe_diagnostic, e.diagnostic_extraction_failed)
twice_normal e n = rw (n, n, or_false e.diagnostic_extraction_failed) refl

rejection-content :
    (correlation : String) (e : CodexError)
    → str_eq e.signature "" ≡ false
    → (is_schema_error e.code ≡ true
        → normalize_schema_diagnostic e.safe_diagnostic ≡ (e.safe_diagnostic, false))
    → rejection (error_body (error_content correlation e))
      ≡ (record e { retry_at = none; correlation_id = some correlation; stage = "codex_exec" })
unfolding rejection error_content with_diagnostic
rejection-content correlation e s n = elim (Bool-cases (is_schema_error e.code)) [
  | inl h ↦ rw (s, h) (ap (with_diagnostic correlation e) (twice_normal e (n h)))
  | inr h ↦ rw (s, h) refl
]

-- A failure of the runner that the executor sends, its client reads back as it is, but for the
-- time of the next try, the correlation and the stage, which the executor sets: given a signature
-- that is not empty and, for a schema failure, a diagnostic in its normal form.
pub receive-sent :
    {A : Type 0} (parse : Body → Parsed A) (correlation : String) (e : CodexError)
    (count : Option ℕ)
    → str_eq e.signature "" ≡ false
    → (is_schema_error e.code ≡ true
        → normalize_schema_diagnostic e.safe_diagnostic ≡ (e.safe_diagnostic, false))
    → receive parse (sent (run_review correlation (codex_failed e count)).0)
      ≡ failed_with
          (record e { retry_at = none; correlation_id = some correlation; stage = "codex_exec" })
unfolding receive sent run_review
receive-sent parse correlation e count s n =
    rw (error_status_range e.code, rejection-content correlation e s n) refl
