-- ===== src/Webhook/Gate.antt =====
-- Which events of app/github/webhook.py ask for a review: the tests of `github_webhook` on a pull
-- request or a comment, and what follows from them. The notices and reactions that it posts on
-- GitHub are left out.
mod Laws
mod Tests
use text.Mathlib.Text.{starts_with}
use inryeok_bot.Prelude.{
  ℕ, ◌-◌, String, Bool, true, false, ◌&&◌, ◌||◌, not, Option, none, some, List, [], ◌∷◌, ◌++◌, leb,
  ltb, ◌==◌, str_eq, if◌then◌else◌, any, text_or, is_null, is_present, or_else,
}
use inryeok_bot.Jobs.Model.{
  JobKey, ModelSnapshot, ReviewJob, Database, auto, command, is_command, is_pending, is_running,
  is_succeeded,
}
use inryeok_bot.Jobs.Enqueue.{JobValues, Admission, refused, enqueue}
use inryeok_bot.Review.Catalog.{TextMethods, ModelSpec, spec_for}
use inryeok_bot.Review.Settings.Columns.{EffectiveReviewSettings}
use inryeok_bot.Webhook.Event.{
  User, PullRequest, PullRequestEvent, IssueCommentEvent, Repository, Context,
}
use inryeok_bot.Webhook.Delivery.{
  DeliveryStatus, processed, ignored, failed_retryable, Ending, finished,
}

abbrev is_one_of : String → List String → Bool
is_one_of s items = any (str_eq s) items

-- The `AdminAuditLog` row of a push: what its `target_id` and its `summary` name.
pub record PushNote : Type 0 where
  pub repository_owner : String
  pub repository_name : String
  pub pull_request_number : ℕ
  pub head_sha : String

-- `ignored(reason)`, the note on a push that waits for a command, or the job to enqueue.
pub data Decision : Type 0 where
  ignore : String → Decision
  observed : PushNote → Decision
  admitted : JobValues → Decision

abbrev pub supported_actions : List String
supported_actions = "opened" ∷ "reopened" ∷ "ready_for_review" ∷ "synchronize" ∷ []

-- `_trigger_enabled`
pub trigger_enabled : String → EffectiveReviewSettings → Bool
trigger_enabled action e =
    if str_eq action "opened"
    then e.review_on_opened
    else if str_eq action "reopened"
    then e.review_on_reopened
    else if str_eq action "ready_for_review"
    then e.review_on_ready_for_review
    else e.review_on_synchronize

-- The model of the new job and where it comes from.
pub job_snapshot : Context → Repository → EffectiveReviewSettings → ModelSnapshot
job_snapshot c r e =
    let spec : Option ModelSpec = elim e.model [
      | none ↦ none
      | some m ↦ spec_for c.text m c.catalog
    ] in
    record {
      model = e.model;
      reasoning_effort = some e.reasoning_effort;
      model_source = some (
          if is_present r.override_model
          then "REPOSITORY_OVERRIDE"
          else if is_present e.model
          then "GLOBAL_DEFAULT"
          else "CLI_DEFAULT");
      reasoning_source = some (
          if is_present r.override_reasoning_effort
          then "REPOSITORY_OVERRIDE"
          else "GLOBAL_DEFAULT");
      model_catalog_version = some c.catalog_version;
      model_catalog_entry_id = elim spec [ none ↦ none | some m ↦ some m.model_id ];
      model_verification_id = elim spec [
        | none ↦ none
        | some m ↦ some (text_or m.verification_id m.version)
      ];
      schema_hash = none;
      codex_cli_version = none;
      executor_runtime_version = none;
    }

abbrev pub automatic_job :
    Context → PullRequestEvent → Repository → EffectiveReviewSettings → JobValues
automatic_job c ev r e = record {
  delivery_id = c.delivery_id;
  source_comment_id = none;
  key = record {
    installation_id = ev.installation_id;
    repository_owner = r.repository_owner;
    repository_name = r.repository_name;
    pull_request_number = ev.pull_request.number;
    base_sha = ev.pull_request.base_sha;
    head_sha = ev.pull_request.head_sha;
    trigger_type = auto;
  };
  not_before = none;
  snapshot = job_snapshot c r e;
}

abbrev pub is_own : Context → User → Bool
is_own c u = str_eq (c.text.lower u.login) (c.text.lower c.bot_login)

abbrev pub is_not_open : PullRequest → Bool
is_not_open p = not (str_eq p.state "open") || p.merged

-- The tests on a pull request event. The second block on `synchronize` stands after the return of
-- the first, so no event comes to it.
pub pull_request_decision :
    Context → PullRequestEvent → Repository → EffectiveReviewSettings → Decision
unfolding trigger_enabled job_snapshot
pull_request_decision c ev r e =
    let p = ev.pull_request in
    if not (is_one_of ev.action supported_actions)
    then ignore "unsupported_action"
    else if ev.sender.is_bot || is_own c ev.sender
    then ignore "bot_event"
    else if not e.enabled
    then ignore "repository_disabled"
    else if str_eq ev.action "synchronize"
    then (if is_not_open p
        then ignore "closed_or_merged"
        else if p.draft
        then ignore "draft"
        else observed (record {
          repository_owner = r.repository_owner;
          repository_name = r.repository_name;
          pull_request_number = p.number;
          head_sha = p.head_sha;
        }))
    else if not e.auto_review_enabled
    then ignore "repository_disabled"
    else if not (trigger_enabled ev.action e)
    then ignore "trigger_disabled"
    else if is_not_open p
    then ignore "closed_or_merged"
    else if p.draft && r.ignore_draft
    then ignore "draft"
    else admitted (automatic_job c ev r e)

abbrev pub command_job :
    Context → IssueCommentEvent → PullRequest → Repository → EffectiveReviewSettings → JobValues
command_job c ev p r e = record {
  delivery_id = c.delivery_id;
  source_comment_id = some ev.comment_id;
  key = record {
    installation_id = ev.installation_id;
    repository_owner = r.repository_owner;
    repository_name = r.repository_name;
    pull_request_number = ev.issue_number;
    base_sha = p.base_sha;
    head_sha = p.head_sha;
    trigger_type = command;
  };
  not_before = none;
  snapshot = job_snapshot c r e;
}

abbrev same_head : JobKey → ReviewJob → Bool
same_head k j =
    str_eq j.key.repository_owner k.repository_owner
    && str_eq j.key.repository_name k.repository_name
    && (j.key.pull_request_number == k.pull_request_number)
    && str_eq j.key.head_sha k.head_sha

-- The row that `in_progress` looks for.
abbrev pub is_in_progress : JobKey → ReviewJob → Bool
is_in_progress k j =
    (j.key.installation_id == k.installation_id)
    && same_head k j
    && (is_pending j.status || is_running j.status)

-- The row that `recent` looks for.
abbrev pub is_recent : ℕ → ℕ → JobKey → ReviewJob → Bool
is_recent now cooldown k j =
    same_head k j
    && is_command j.key.trigger_type
    && (is_pending j.status || is_running j.status || is_succeeded j.status)
    && leb (now - cooldown) j.created_at

-- The tests on a comment. `permission` and `p` are what GitHub answers, and `reviewed` is whether
-- a run with a published review is stored for the head.
pub comment_decision :
    ℕ
    → Context
    → IssueCommentEvent
    → String
    → PullRequest
    → Bool
    → Repository
    → EffectiveReviewSettings
    → Database
    → Decision
unfolding job_snapshot
comment_decision now c ev permission p reviewed r e db =
    let job = command_job c ev p r e in
    if not (str_eq ev.action "created") || not ev.is_on_pull_request
    then ignore "not_pr_comment"
    else if is_own c ev.sender || (ev.author.is_bot || is_own c ev.author)
    then ignore "bot_event"
    else if not ev.is_review_command
    then ignore "not_review_command"
    else if not (is_one_of permission ("admin" ∷ "maintain" ∷ "write" ∷ []))
    then ignore "insufficient_permission"
    else if not e.enabled
    then ignore "repository_disabled"
    else if not e.command_review_enabled
    then ignore "manual_review_disabled"
    else if str_eq p.state "closed" || p.merged
    then ignore "closed_or_merged"
    else if p.draft
    then ignore "draft"
    else if reviewed
    then ignore "ALREADY_REVIEWED_CURRENT_HEAD"
    else if any (is_in_progress job.key) db.jobs
    then ignore "DUPLICATE_IN_PROGRESS"
    else if not (e.command_cooldown_seconds == 0)
        && any (is_recent now e.command_cooldown_seconds job.key) db.jobs
    then ignore "command_cooldown"
    else admitted job

-- How the delivery ends, for the answer of the queue.
abbrev pub admission_ending : Admission → Ending
admission_ending (refused e) = finished failed_retryable "QUEUE_CAPACITY" 200
admission_ending _ = finished processed "JOB_ENQUEUED" 200

-- What becomes of a decision: the end of the delivery, the notes on pushes, and the queue.
pub carry_out :
    ℕ
    → Option ℕ
    → Option ℕ
    → Decision
    → List PushNote
    → Database
    → Ending × (List PushNote × Database)
carry_out now max_pending max_repository_pending (ignore reason) notes db =
    (finished ignored reason 200, (notes, db))
carry_out now max_pending max_repository_pending (observed note) notes db =
    (finished ignored "MANUAL_REREVIEW_REQUIRED" 200, (notes ++ (note ∷ []), db))
carry_out now max_pending max_repository_pending (admitted v) notes db =
    let (answer, db') = enqueue now max_pending max_repository_pending v db in
    (admission_ending answer, (notes, db'))
