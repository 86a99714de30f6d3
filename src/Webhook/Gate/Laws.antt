-- ===== src/Webhook/Gate/Laws.antt =====
-- What an event that is admitted has passed.
use inryeok_bot.Prelude.{
  ℕ, String, Bool, true, false, ◌&&◌, ◌||◌, not, [], ◌∷◌, ◌≡◌, refl, ◌==◌, str_eq, if◌then◌else◌,
  any, arith,
}
use inryeok_bot.Jobs.Model.{Database}
use inryeok_bot.Jobs.Enqueue.{JobValues}
use inryeok_bot.Review.Settings.Columns.{EffectiveReviewSettings}
use inryeok_bot.Webhook.Event.{
  PullRequest, PullRequestEvent, IssueCommentEvent, Repository, Context,
}
use inryeok_bot.Webhook.Gate.{
  Decision, admitted, supported_actions, is_one_of, trigger_enabled, automatic_job, is_own,
  is_not_open, command_job, is_in_progress, is_recent, comment_decision,
}

either :
    {A : Type 0} (P : A → Type 0) (b : Bool) (x y : A)
    → (b ≡ true → P x)
    → (b ≡ false → P y)
    → P (if b then x else y)
either P true x y f g = f refl
either P false x y f g = g refl

is-true : {b : Bool} → not b ≡ false → b ≡ true
is-true {b} h = ground arith

or-false : (a b : Bool) → (a || b) ≡ false → (a ≡ false) × (b ≡ false)
or-false a b h = ground arith

-- A person opened, reopened or made ready a pull request that is open, in a repository that
-- reviews such events by itself; it is no draft that the repository ignores.
pub record AutomaticGate (c : Context) (ev : PullRequestEvent) (r : Repository)
    (e : EffectiveReviewSettings) (v : JobValues) : Type 0 where
  pub supported : is_one_of ev.action supported_actions ≡ true
  pub not_a_push : str_eq ev.action "synchronize" ≡ false
  pub from_a_person : (ev.sender.is_bot || is_own c ev.sender) ≡ false
  pub enabled : e.enabled ≡ true
  pub automatic : e.auto_review_enabled ≡ true
  pub triggered : trigger_enabled ev.action e ≡ true
  pub is_open : is_not_open ev.pull_request ≡ false
  pub no_draft : (ev.pull_request.draft && r.ignore_draft) ≡ false
  pub job : v ≡ automatic_job c ev r e

abbrev AutomaticPassed :
    Context → PullRequestEvent → Repository → EffectiveReviewSettings → Decision → Type 0
AutomaticPassed c ev r e (admitted v) = AutomaticGate c ev r e v
AutomaticPassed c ev r e _ = Unit

-- A person with write access wrote a new comment with the command, in an event that the bot did not
-- send, on a pull request that is neither closed nor a draft, in a repository that takes commands, on a head that is not reviewed, has no job in
-- progress and, where a cooldown is set, no recent one.
pub record CommandGate (now : ℕ) (c : Context) (ev : IssueCommentEvent) (permission : String)
    (p : PullRequest) (reviewed : Bool) (r : Repository) (e : EffectiveReviewSettings)
    (db : Database) (v : JobValues) : Type 0 where
  pub created : str_eq ev.action "created" ≡ true
  pub on_pull_request : ev.is_on_pull_request ≡ true
  pub not_sent_by_bot : is_own c ev.sender ≡ false
  pub from_a_person : (ev.author.is_bot || is_own c ev.author) ≡ false
  pub asked : ev.is_review_command ≡ true
  pub allowed : is_one_of permission ("admin" ∷ "maintain" ∷ "write" ∷ []) ≡ true
  pub enabled : e.enabled ≡ true
  pub commands : e.command_review_enabled ≡ true
  pub is_open : (str_eq p.state "closed" || p.merged) ≡ false
  pub no_draft : p.draft ≡ false
  pub not_reviewed : reviewed ≡ false
  pub not_in_progress : any (is_in_progress (command_job c ev p r e).key) db.jobs ≡ false
  pub cooled_down :
      (not (e.command_cooldown_seconds == 0)
        && any (is_recent now e.command_cooldown_seconds (command_job c ev p r e).key) db.jobs)
      ≡ false
  pub job : v ≡ command_job c ev p r e

abbrev CommandPassed :
    ℕ
    → Context
    → IssueCommentEvent
    → String
    → PullRequest
    → Bool
    → Repository
    → EffectiveReviewSettings
    → Database
    → Decision
    → Type 0
CommandPassed now c ev permission p reviewed r e db (admitted v) =
    CommandGate now c ev permission p reviewed r e db v
CommandPassed now c ev permission p reviewed r e db _ = Unit

comment-passed :
    (now : ℕ) (c : Context) (ev : IssueCommentEvent) (permission : String) (p : PullRequest)
    (reviewed : Bool) (r : Repository) (e : EffectiveReviewSettings) (db : Database)
    → CommandPassed now c ev permission p reviewed r e db
        (comment_decision now c ev permission p reviewed r e db)
unfolding comment_decision
comment-passed now c ev permission p reviewed r e db =
    let P = CommandPassed now c ev permission p reviewed r e db in
    let k = (command_job c ev p r e).key in
    let cooldown = e.command_cooldown_seconds in
    either P (not (str_eq ev.action "created") || not ev.is_on_pull_request) _ _ (λ _. tt)
      λ a.
        either P (is_own c ev.sender || (ev.author.is_bot || is_own c ev.author)) _ _ (λ _. tt)
          λ b.
            either P (not ev.is_review_command) _ _ (λ _. tt)
              λ d.
                either P (not (is_one_of permission ("admin" ∷ "maintain" ∷ "write" ∷ []))) _ _
                  (λ _. tt)
                  λ f.
                    either P (not e.enabled) _ _ (λ _. tt)
                      λ g.
                        either P (not e.command_review_enabled) _ _ (λ _. tt)
                          λ h.
                            either P (str_eq p.state "closed" || p.merged) _ _ (λ _. tt)
                              λ i.
                                either P p.draft _ _ (λ _. tt)
                                  λ j.
                                    either P reviewed _ _ (λ _. tt)
                                      λ l.
                                        either P (any (is_in_progress k) db.jobs) _ _ (λ _. tt)
                                          λ m.
                                            either P
                                              (not (cooldown == 0)
                                                && any (is_recent now cooldown k) db.jobs)
                                              _ _ (λ _. tt)
                                              λ n. record {
                                                created =
                                                    is-true
                                                      (or-false (not (str_eq ev.action "created"))
                                                        (not ev.is_on_pull_request) a).0;
                                                not_sent_by_bot =
                                                    (or-false (is_own c ev.sender)
                                                      (ev.author.is_bot || is_own c ev.author) b).0;
                                                on_pull_request =
                                                    is-true
                                                      (or-false (not (str_eq ev.action "created"))
                                                        (not ev.is_on_pull_request) a).1;
                                                from_a_person =
                                                    (or-false (is_own c ev.sender)
                                                      (ev.author.is_bot || is_own c ev.author) b).1;
                                                asked = is-true d;
                                                allowed = is-true f;
                                                enabled = is-true g;
                                                commands = is-true h;
                                                is_open = i;
                                                no_draft = j;
                                                not_reviewed = l;
                                                not_in_progress = m;
                                                cooled_down = n;
                                                job = refl;
                                              }

-- A comment is admitted only if it passes every test of the gate for commands.
pub comment_gate :
    (now : ℕ) (c : Context) (ev : IssueCommentEvent) (permission : String) (p : PullRequest)
    (reviewed : Bool) (r : Repository) (e : EffectiveReviewSettings) (db : Database) (v : JobValues)
    → comment_decision now c ev permission p reviewed r e db ≡ admitted v
    → CommandGate now c ev permission p reviewed r e db v
comment_gate now c ev permission p reviewed r e db v h =
    (rw h at (comment-passed now c ev permission p reviewed r e db))
