-- ===== src/Executor.antt =====
-- The isolated executor, app/codex/executor.py, and its client, app/codex/executor_client.py: the
-- requests, the answers and the body of an error.
pub mod Run
pub mod Records
pub mod Service
pub mod Client
pub mod Archive
use inryeok_bot.Prelude.{
  ℕ, ℤ, String, Bool, true, false, ◌&&◌, ◌||◌, not, Option, none, some, List, [], ◌∷◌, ◌++◌,
  if◌then◌else◌, is_null, is_truthy, text_or,
}

-- `ReviewRequest`, with the bounds of its fields checked.
pub record Request : Type 0 where
  pub archive : String
  pub prompt : String
  pub model : Option String
  pub reasoning_effort : Option String
  pub model_catalog_version : Option String
  pub model_verification_id : Option String
  pub verification_mode : Bool
  pub timeout : Option ℕ
  pub execution_id : String

-- The JSON object of an error, without its text `error`: a key that is absent, or null, is `none`.
pub record Content : Type 0 where
  pub error_code : Option String
  pub retryable : Option Bool
  pub matched_safe_signature : Option String
  pub exit_code : Option ℤ
  pub stderr_byte_length : Option ℕ
  pub safe_diagnostic : Option (List String)
  pub diagnostic_extraction_failed : Option Bool
  pub correlation_id : Option String
  pub stage : Option String

-- The result as the text of its JSON, a `JSONResponse` with its status, or a raised exception
-- with the status that the framework gives it.
pub data Answer : Type 0 where
  answered : String → Answer
  refused : ℕ → Content → Answer
  raised : ℕ → Answer

-- The content of the refusals that `review` makes itself.
abbrev pub refusal : String → String → Content
refusal code stage = record {
  error_code = some code;
  retryable = some false;
  matched_safe_signature = none;
  exit_code = none;
  stderr_byte_length = none;
  safe_diagnostic = none;
  diagnostic_extraction_failed = none;
  correlation_id = none;
  stage = some stage;
}

abbrev pub in_progress : Answer
in_progress = refused 409 (refusal "EXECUTION_IN_PROGRESS" "dedupe")

abbrev pub conflict : Answer
conflict = refused 409 (refusal "EXECUTION_ID_CONFLICT" "dedupe")

abbrev pub unavailable : Answer
unavailable = refused 409 (refusal "EXECUTION_RESULT_UNAVAILABLE" "dedupe")

-- The two tests on the model snapshot at the start of `review`.
pub invalid_snapshot : Request → Option Answer
invalid_snapshot r =
    if is_truthy r.model && is_null r.model_verification_id && not r.verification_mode
    then some (refused 422 (refusal "CODEX_MODEL_SNAPSHOT_MISSING" "request_validation"))
    else if r.verification_mode && (not (is_truthy r.model) || is_null r.model_verification_id)
    then some (refused 422 (refusal "MODEL_VERIFICATION_REQUEST_INVALID" "request_validation"))
    else none

-- What `_request_fingerprint` feeds to the digest, piece by piece. `schema` is the digest of the
-- schema file, if the file can be read, and `decimal` is `str` on a number.
abbrev pub fingerprint_pieces : (ℕ → String) → Option String → Request → List String
fingerprint_pieces decimal schema r =
    (elim schema [ none ↦ "SCHEMA_UNAVAILABLE" | some digest ↦ digest ])
    ∷ r.archive
    ∷ "\0"
    ∷ r.prompt
    ∷ "\0"
    ∷ text_or r.model ""
    ∷ "\0"
    ∷ text_or r.reasoning_effort ""
    ∷ "\0"
    ∷ text_or r.model_catalog_version ""
    ∷ "\0"
    ∷ text_or r.model_verification_id ""
    ∷ "\0"
    ∷ (if r.verification_mode then "verification" else "review")
    ∷ "\0"
    ∷ (elim r.timeout [ none ↦ "" | some seconds ↦ decimal seconds ])
    ∷ "\0"
    ∷ []
