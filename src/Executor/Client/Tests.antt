-- ===== src/Executor/Client/Tests.antt =====
-- Witnesses of the executor's client.
use inryeok_bot.Prelude.{String, false, none, some, [], ◌∷◌, ◌≡◌, refl, text_prefix}
use inryeok_bot.Failures.Convert.{CodexError}
use inryeok_bot.Failures.Diagnostic.{normalize_schema_diagnostic}
use inryeok_bot.Executor.Run.{codex_failed, run_review}
use inryeok_bot.Executor.Client.{
  Body, result_body, Parsed, valid, invalid_json, receive, sent, failed_with,
}
use inryeok_bot.Executor.Client.Laws.{receive-sent}

a_parse : Body → Parsed String
a_parse (result_body text) = valid text
a_parse _ = invalid_json

abbrev a_failure : CodexError
a_failure = record {
  code = "SCHEMA_ERROR";
  retryable = false;
  retry_at = some 500;
  signature = "schema";
  exit_code = none;
  safe_diagnostic = "output_field=findings;type=missing" ∷ [];
  diagnostic_extraction_failed = false;
  stderr_byte_length = 12;
  correlation_id = none;
  stage = "output_model_validation";
}

receive-sent_example :
    receive a_parse (sent (run_review "c" (codex_failed a_failure (some 1))).0)
    ≡ failed_with
        (record a_failure { retry_at = none; correlation_id = some "c"; stage = "codex_exec" })
unfolding normalize_schema_diagnostic text_prefix
receive-sent_example = receive-sent a_parse "c" a_failure (some 1) refl (λ _. refl)
