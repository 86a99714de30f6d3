-- ===== src/Failures/Convert/Laws.antt =====
-- What a failure says of its exception: the retry decision, and the bounds.
use inryeok_bot.Prelude.{
  ◌≤◌, String, ◌≡◌, refl, ◌∙◌, Bool, true, false, ◌&&◌, ◌||◌, not, some, leb, ◌==◌, str_eq, ==_iff,
  arith, if◌then◌else◌, is_present, characters, characters-text_prefix, Bool-cases, inl, inr,
}
use inryeok_bot.Jobs.Model.{ReviewJob}
use inryeok_bot.Failures.{Defaults, schema_code, is_limit_code, later_defaults, defaults}
use inryeok_bot.Failures.Diagnostic.{FitsIn, diagnostic_parts_bounded, normalize_schema_diagnostic}
use inryeok_bot.Failures.Convert.{
  GitHubError, Failing, codex_error, github_error, github_code, exception_code, Details,
  final_details, exception_details, is_never, exception_category, without_details,
  failure_from_exception,
}

later-consistent :
    (code : String)
    → (later_defaults code).retryable ≡ not (is_never (later_defaults code).retry_policy)
unfolding later_defaults
later-consistent code = ground arith

-- The defaults of a code say by their flag what they say by their policy.
defaults-consistent :
    (code : String) → (defaults code).retryable ≡ not (is_never (defaults code).retry_policy)
unfolding defaults
defaults-consistent code = ground (arith, later-consistent code)

abbrev IsConsistent : Details → Type 0
IsConsistent d = d.retryable ≡ not (is_never d.retry_policy)

details-IsConsistent :
    (exc : Failing) (code : String) (d : Defaults)
    → d.retryable ≡ not (is_never d.retry_policy)
    → IsConsistent (exception_details exc code d)
unfolding exception_details
details-IsConsistent (codex_error e) code d h = ground arith
details-IsConsistent (github_error e) code d h = h
details-IsConsistent _ code d h = h

final-IsConsistent :
    (exc : Failing) (code : String) (d : Details)
    → IsConsistent d
    → IsConsistent (final_details exc code d)
unfolding final_details
final-IsConsistent exc code d h = ground arith

-- A failure is retryable exactly when its policy is not NEVER.
pub failure_retry_consistent :
    (exc : Failing) (job : ReviewJob)
    → let f = failure_from_exception exc job in f.retryable ≡ not (is_never f.retry_policy)
unfolding failure_from_exception
failure_retry_consistent exc job =
    let code = exception_code exc in
    final-IsConsistent exc code (exception_details exc code (defaults code))
      (details-IsConsistent exc code (defaults code) (defaults-consistent code))

-- Is the request worth another try: 429 and server errors, and a 403 that stands for a rate limit; never 401, 404 or 422.
abbrev pub github_may_recover : GitHubError → Bool
github_may_recover e =
    not (e.status_code == 401)
    && not (e.status_code == 404)
    && not (e.status_code == 422)
    && ((e.status_code == 429) || str_eq e.category "GITHUB_RATE_LIMIT" || leb 500 e.status_code)

final-retryable :
    (exc : Failing) (code : String) (d : Details)
    → (final_details exc code d).retryable ≡ d.retryable
unfolding final_details
final-retryable exc code d = ground arith

github_code-retryable :
    (e : GitHubError) → (defaults (github_code e)).retryable ≡ github_may_recover e
unfolding github_code defaults later_defaults schema_code is_limit_code
github_code-retryable e = elim (Bool-cases (e.status_code == 401)) [
  | inl a ↦ rw a refl
  | inr a ↦ elim (Bool-cases (e.status_code == 403)) [
    | inl b ↦
        let s : e.status_code ≡ 403 = (==_iff e.status_code 403).0 b in
        elim (Bool-cases (str_eq e.category "GITHUB_RATE_LIMIT")) [
          | inl r ↦ rw (s, r) refl
          | inr r ↦ rw (s, r) refl
        ]
    | inr b ↦ elim (Bool-cases (e.status_code == 404)) [
      | inl c ↦ rw (a, b, c) refl
      | inr c ↦ elim (Bool-cases (e.status_code == 422)) [
        | inl d ↦ rw (a, b, c, d) refl
        | inr d ↦ elim (Bool-cases (e.status_code == 429)) [
          | inl t ↦ rw (a, b, c, d, t) refl
          | inr t ↦ elim (Bool-cases (str_eq e.category "GITHUB_RATE_LIMIT")) [
            | inl r ↦ rw (a, b, c, d, t, r) refl
            | inr r ↦ elim (Bool-cases (leb 500 e.status_code)) [
              | inl f ↦ rw (a, b, c, d, t, r, f) refl
              | inr f ↦ rw (a, b, c, d, t, r, f) refl
            ]
          ]
        ]
      ]
    ]
  ]
]

-- A failed GitHub request is retryable exactly if its status is 429 or a server error or its
-- category is the rate limit, and its status is none of 401, 404 and 422; the failure keeps the
-- status.
pub github_failure_retryable :
    (e : GitHubError) (job : ReviewJob)
    → let f = failure_from_exception (github_error e) job in
      (f.retryable ≡ github_may_recover e) × (f.http_status ≡ some e.status_code)
unfolding failure_from_exception
github_failure_retryable e job = (
  final-retryable (github_error e) (exception_code (github_error e)) (
        exception_details (github_error e) (exception_code (github_error e))
          (defaults (exception_code (github_error e))))
      ∙ unfold exception_code exception_details in github_code-retryable e,
  refl,
)

abbrev IsBounded : Details → Type 0
IsBounded d =
    (characters d.signature ≤ 64) × FitsIn 128 d.output_field × FitsIn 64 d.validation_type

details-IsBounded :
    (exc : Failing) (code : String) (d : Defaults) → IsBounded (exception_details exc code d)
unfolding exception_details
details-IsBounded (codex_error e) code d =
    let kept =
      if is_present (schema_code code)
      then (normalize_schema_diagnostic e.safe_diagnostic).0
      else e.safe_diagnostic in
    let (field, type) = diagnostic_parts_bounded kept in
    (characters-text_prefix 64 e.signature, field, type)
details-IsBounded (github_error e) code d = (omega arith, tt, tt)
details-IsBounded _ code d = (omega arith, tt, tt)

final_case :
    (exc : Failing) (code : String) (d : Details)
    → IsBounded d
    → (a b c : Bool)
    → IsBounded (
        if a
        then record d { stage = "output_schema" }
        else if b
        then record d { stage = "output_model_validation" }
        else if c
        then record d { stage = "output_extract" }
        else without_details exc code d)
final_case exc code d h true b c = h
final_case exc code d h false true c = h
final_case exc code d h false false true = h
final_case exc code d h false false false =
    (characters-text_prefix 64 (exception_category exc code), tt, tt)

final-IsBounded :
    (exc : Failing) (code : String) (d : Details)
    → IsBounded d
    → IsBounded (final_details exc code d)
unfolding final_details
final-IsBounded exc code d h =
    final_case exc code d h
      (str_eq code "CODEX_OUTPUT_SCHEMA_MISMATCH" || str_eq code "SCHEMA_ERROR")
      (str_eq code "OUTPUT_MODEL_VALIDATION_FAILED") (str_eq code "CODEX_OUTPUT_INVALID_JSON")

-- Whatever the exception, signature, output field and validation type are bounded.
pub failure_bounded :
    (exc : Failing) (job : ReviewJob)
    → let f = failure_from_exception exc job in
      (characters f.safe_signature ≤ 64) × FitsIn 128 f.output_field × FitsIn 64 f.validation_type
unfolding failure_from_exception
failure_bounded exc job =
    let code = exception_code exc in
    final-IsBounded exc code (exception_details exc code (defaults code))
      (details-IsBounded exc code (defaults code))
