-- ===== src/Webhook/Gate/Tests.antt =====
-- Witnesses of the gates.
use inryeok_bot.Prelude.{true, false, none, [], refl}
use inryeok_bot.Jobs.Model.{Database}
use inryeok_bot.Review.Settings.Fixtures.{plain_text, a_policy}
use inryeok_bot.Webhook.Event.{
  User, PullRequest, PullRequestEvent, IssueCommentEvent, Repository, Context,
}
use inryeok_bot.Webhook.Gate.{command_job, comment_decision}
use inryeok_bot.Webhook.Gate.Laws.{CommandGate, comment_gate}

abbrev a_context : Context
a_context = record {
  text = plain_text;
  bot_login = "inryeok-bot";
  delivery_id = "d1";
  catalog = [];
  catalog_version = "empty";
}

abbrev a_user : User
a_user = record { login = "dev"; is_bot = false }

abbrev a_pull_request : PullRequest
a_pull_request = record {
  number = 3;
  state = "open";
  merged = false;
  draft = false;
  base_sha = "base";
  head_sha = "head";
}

abbrev a_repository : Repository
a_repository = record {
  repository_owner = "owner";
  repository_name = "repo";
  ignore_draft = true;
  override_model = none;
  override_reasoning_effort = none;
}

abbrev opened_event : PullRequestEvent
opened_event = record {
  action = "opened";
  pull_request = a_pull_request;
  installation_id = 7;
  sender = a_user;
}

abbrev comment_event : IssueCommentEvent
comment_event = record {
  action = "created";
  issue_number = 3;
  is_on_pull_request = true;
  comment_id = 11;
  is_review_command = true;
  author = a_user;
  installation_id = 7;
  sender = a_user;
}

abbrev empty_queue : Database
empty_queue = record {
  jobs = [];
  next_job_id = 1;
  repositories = [];
  global_settings = none;
  audit_logs = [];
  failure_notices = [];
}

comment_gate_example :
    CommandGate 100 a_context comment_event "write" a_pull_request false a_repository a_policy
      empty_queue
      (command_job a_context comment_event a_pull_request a_repository a_policy)
unfolding comment_decision
comment_gate_example =
    comment_gate 100 a_context comment_event "write" a_pull_request false a_repository a_policy
      empty_queue (command_job a_context comment_event a_pull_request a_repository a_policy) refl
