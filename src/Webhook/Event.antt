-- ===== src/Webhook/Event.antt =====
-- The events of app/github/schemas.py and what else the handling of one meets.
use inryeok_bot.Prelude.{ℕ, String, Bool, true, ◌||◌, Option, List, if◌then◌else◌, str_eq, text_or}
use inryeok_bot.Review.Catalog.{TextMethods, ModelSpec}

-- `User`, with `is_bot` worked out.
pub record User : Type 0 where
  pub login : String
  pub is_bot : Bool

-- `text.endswith(mark)`
pub ends_with : String → String → Bool
ends_with String.[] mark = str_eq "" mark
ends_with (String.◌∷◌ c s) mark =
    let rest = ends_with s mark in if str_eq (String.◌∷◌ c s) mark then true else rest

-- `User.is_bot`, for the case-folded type and login
pub is_bot_user : Option String → String → Bool
unfolding ends_with
is_bot_user kind login = str_eq (text_or kind "") "bot" || ends_with login "[bot]"

-- What `PullRequest` holds, or the answer of GitHub about one.
pub record PullRequest : Type 0 where
  pub number : ℕ
  pub state : String
  pub merged : Bool
  pub draft : Bool
  pub base_sha : String
  pub head_sha : String

pub record PullRequestEvent : Type 0 where
  pub action : String
  pub pull_request : PullRequest
  pub installation_id : ℕ
  pub sender : User

pub record IssueCommentEvent : Type 0 where
  pub action : String
  pub issue_number : ℕ
  pub is_on_pull_request : Bool
  pub comment_id : ℕ
  pub is_review_command : Bool
  pub author : User
  pub installation_id : ℕ
  pub sender : User

-- The row of the repository, as far as this code reads it.
pub record Repository : Type 0 where
  pub repository_owner : String
  pub repository_name : String
  pub ignore_draft : Bool
  pub override_model : Option String
  pub override_reasoning_effort : Option String

-- What else a request meets.
pub record Context : Type 0 where
  pub text : TextMethods
  pub bot_login : String
  pub delivery_id : String
  pub catalog : List ModelSpec
  pub catalog_version : String
