-- ===== src/Executor/Client.antt =====
-- `ExecutorRunner` of app/codex/executor_client.py: what the worker gets out of the executor's
-- reply.
pub mod Laws
mod Tests
use inryeok_bot.Prelude.{
  ℕ, String, Bool, true, false, ◌||◌, Option, none, some, List, [], leb, if◌then◌else◌, text_or,
}
use inryeok_bot.Failures.Convert.{CodexError}
use inryeok_bot.Failures.Diagnostic.{normalize_schema_diagnostic}
use inryeok_bot.Executor.{Content, Answer, answered, refused, raised}
use inryeok_bot.Executor.Run.{is_schema_error}

-- The body of a reply: the JSON of a result, the JSON of an error, or no JSON.
pub data Body : Type 0 where
  result_body : String → Body
  error_body : Content → Body
  no_json : Body

-- What comes back from the socket.
pub data Reply : Type 0 where
  timed_out disconnected : Reply
  reply : ℕ → Body → Reply

abbrev no_content : Content
no_content = record {
  error_code = none;
  retryable = none;
  matched_safe_signature = none;
  exit_code = none;
  stderr_byte_length = none;
  safe_diagnostic = none;
  diagnostic_extraction_failed = none;
  correlation_id = none;
  stage = none;
}

-- The reply of `review_endpoint`, without its headers. That to an `HTTPException` has only a
-- `detail`; that to another exception, a 500, is no JSON.
pub sent : Answer → Reply
sent (answered result) = reply 200 (result_body result)
sent (refused status content) = reply status (error_body content)
sent (raised status) = reply status (if leb 500 status then no_json else error_body no_content)

-- `CodexError(code, ..., retryable, signature)`
abbrev pub new_error : String → Bool → Option String → CodexError
new_error code retryable signature = record {
  code = code;
  retryable = retryable;
  retry_at = none;
  signature = text_or signature code;
  exit_code = none;
  safe_diagnostic = [];
  diagnostic_extraction_failed = false;
  stderr_byte_length = 0;
  correlation_id = none;
  stage = "codex_exec";
}

abbrev pub or_default {ℓ} : {A : Type ℓ} → Option A → A → A
or_default none d = d
or_default (some a) d = a

-- The second normalisation, of a schema failure.
abbrev normal_error : CodexError → CodexError
normal_error e =
    let normal = normalize_schema_diagnostic e.safe_diagnostic in
    record e {
      safe_diagnostic = normal.0;
      diagnostic_extraction_failed = e.diagnostic_extraction_failed || normal.1;
    }

-- The fields that the body fills.
abbrev read_content : Content → String → CodexError
read_content c code =
    let e =
      new_error code (or_default c.retryable false)
        (some (or_default c.matched_safe_signature code)) in
    record e {
      exit_code = c.exit_code;
      stderr_byte_length = or_default c.stderr_byte_length 0;
      correlation_id = c.correlation_id;
      stage = or_default c.stage "codex_exec";
      safe_diagnostic = or_default c.safe_diagnostic [];
      diagnostic_extraction_failed = or_default c.diagnostic_extraction_failed false;
    }

-- The error of a reply with an error status.
pub rejection : Body → CodexError
unfolding is_schema_error
rejection (error_body c) =
    let code = or_default c.error_code "EXECUTOR_INTERNAL" in
    let e = read_content c code in if is_schema_error code then normal_error e else e
rejection (result_body result) = read_content no_content "EXECUTOR_INTERNAL"
rejection no_json = read_content no_content "EXECUTOR_FAILED"

-- What `json` and `ReviewOutput.model_validate` make of the body of a result.
pub data Parsed (A : Type 0) : Type 0 where
  invalid_json : Parsed A
  invalid_model : List String → Parsed A
  valid : A → Parsed A

-- The review, or the error that is raised.
pub data Received (A : Type 0) : Type 0 where
  output : A → Received A
  failed_with : CodexError → Received A

-- `run`, from the reply on. `parse` stands for the schema library.
module _ {A : Type 0} (parse : Body → Parsed A) where
  read_parsed : Parsed A → Received A
  read_parsed invalid_json =
      failed_with (record (new_error "OUTPUT_JSON_INVALID" false none) { stage = "output_extract" })
  read_parsed (invalid_model diagnostic) =
      let normal = normalize_schema_diagnostic diagnostic in
      failed_with
        (record (new_error "OUTPUT_MODEL_VALIDATION_FAILED" false
          (some "output_contract_mismatch")) {
            stage = "output_model_validation";
            safe_diagnostic = normal.0;
            diagnostic_extraction_failed = normal.1;
          })
  read_parsed (valid a) = output a

  pub receive : Reply → Received A
  unfolding read_parsed
  receive timed_out =
      failed_with (record (new_error "CODEX_TIMEOUT" false (some "transport_timeout")) {
        stage = "executor_transport";
      })
  receive disconnected =
      failed_with
        (record (new_error "EXECUTOR_UNKNOWN_OUTCOME" false (some "unix_socket_disconnected")) {
          stage = "executor_transport";
        })
  receive (reply status body) =
      if leb 400 status then failed_with (rejection body) else read_parsed (parse body)
