-- ===== src/Failures/Convert/Classified.antt =====
-- The way of a failed process: from its output to the retry decision of the worker.
use inryeok_bot.Prelude.{
  ◌∙◌, ◌||◌, ◌&&◌, not, [], ◌∷◌, if◌then◌else◌, arith, ℕ, String, ◌≡◌, refl, Bool, true, false,
  Option,
}
use inryeok_bot.Jobs.Model.{ReviewJob}
use inryeok_bot.Failures.{defaults, later_defaults, schema_code, is_limit_code}
use inryeok_bot.Failures.Convert.{
  CodexError, codex_error, exception_code, exception_details, final_details, codex_details,
  failure_from_exception,
}
use inryeok_bot.Failures.Classify.{
  authentication, permission_denied, configuration, repository, schema, sandbox, unknown_nonzero,
  mentions, Kind, rate_limit, quota, service_unavailable, failure_kind, kind_error,
  classify_codex_failure,
}

-- The failures that are worth another try.
abbrev pub is_passing : Kind → Bool
is_passing rate_limit = true
is_passing quota = true
is_passing service_unavailable = true
is_passing _ = false

kind-retryable :
    (retry_at : Option ℕ) (k : Kind) (e : CodexError) (job : ReviewJob)
    → e.code ≡ (kind_error retry_at k).code
    → e.retryable ≡ (kind_error retry_at k).retryable
    → (failure_from_exception (codex_error e) job).retryable ≡ is_passing k
unfolding failure_from_exception exception_code exception_details final_details codex_details
    defaults later_defaults schema_code is_limit_code kind_error
kind-retryable retry_at rate_limit e job c r = rw (c, r) refl
kind-retryable retry_at service_unavailable e job c r = rw (c, r) refl
kind-retryable retry_at _ e job c r = rw (c, r) refl

kind-cases :
    (a b c d e f g h i : Bool)
    → is_passing (
        if a
        then rate_limit
        else if b
        then quota
        else if c
        then authentication
        else if d
        then permission_denied
        else if e
        then configuration
        else if f
        then repository
        else if g
        then schema
        else if h
        then sandbox
        else if i
        then service_unavailable
        else unknown_nonzero)
      ≡ ((a || b) || (i && not (c || d || e || f || g || h)))
kind-cases true b c d e f g h i = refl
kind-cases false true c d e f g h i = refl
kind-cases false false true d e f g h i = ground arith
kind-cases false false false d e f g h i = ground arith

-- Whether a text speaks of a limit that passes.
abbrev pub speaks_of_limit : String → Bool
speaks_of_limit text =
    mentions text ("rate limit" ∷ "too many requests" ∷ "http 429" ∷ "status 429" ∷ [])
    || mentions text (
        "usage limit" ∷ "usage quota" ∷ "quota exceeded" ∷ "plan limit" ∷ "monthly limit"
        ∷ "credit balance" ∷ [])

-- Whether it speaks of a service that failed.
abbrev pub speaks_of_service : String → Bool
speaks_of_service text = mentions text (
    "service unavailable" ∷ "temporarily unavailable" ∷ "internal server error" ∷ "http 502"
    ∷ "http 503" ∷ "http 504" ∷ "connection reset" ∷ [])

-- Whether it speaks of a cause that stays: the login, a permission, the command line, the repository,
-- the schema or the sandbox.
abbrev pub speaks_of_lasting : String → Bool
speaks_of_lasting text =
    mentions text (
      "not logged in" ∷ "login required" ∷ "authentication" ∷ "unauthorized" ∷ "session expired"
      ∷ "invalid api key" ∷ [])
    || mentions text ("permission denied" ∷ "operation not permitted" ∷ [])
    || mentions text
        ("unsupported option" ∷ "unknown option" ∷ "unexpected argument" ∷ "invalid config" ∷ [])
    || mentions text ("not a git repository" ∷ "repository check" ∷ "fatal: not a git" ∷ [])
    || mentions text ("schema" ∷ "invalid json" ∷ "json parse" ∷ "structured output" ∷ [])
    || mentions text ("bwrap" ∷ "bubblewrap" ∷ "user namespace" ∷ "pivot_root" ∷ "sandbox" ∷ [])

failure_kind-is_passing :
    (text : String)
    → is_passing (failure_kind text)
      ≡ (speaks_of_limit text || (speaks_of_service text && not (speaks_of_lasting text)))
unfolding failure_kind
failure_kind-is_passing text = kind-cases _ _ _ _ _ _ _ _ _

-- An error that has the code and the flag that the output of the process was classified with,
-- whatever else was filled in on its way, gives a failure that is retryable exactly if the output
-- has one of the markers of a rate limit or a quota, or has one of those of a failed service and
-- none of those of the login, a permission, the command line, the repository, the schema and the
-- sandbox.
pub classified_failure_retryable :
    (retry_time : String → Option ℕ) (text : String) (e : CodexError) (job : ReviewJob)
    → e.code ≡ (classify_codex_failure retry_time text).code
    → e.retryable ≡ (classify_codex_failure retry_time text).retryable
    → (failure_from_exception (codex_error e) job).retryable
      ≡ (speaks_of_limit text || (speaks_of_service text && not (speaks_of_lasting text)))
unfolding classify_codex_failure
classified_failure_retryable retry_time text e job c r =
    kind-retryable (retry_time text) (failure_kind text) e job c r ∙ failure_kind-is_passing text
