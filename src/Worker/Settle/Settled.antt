-- ===== src/Worker/Settle/Settled.antt =====
-- What the steps of a round leave: the state, the identity and the storage of the held job.
use inryeok_bot.Prelude.{
  String, ◌≡◌, refl, ap, ◌∙◌, Bool, true, false, Option, none, some, if◌then◌else◌, is_present,
  Bool-cases, Option-cases, inl, inr,
}
use inryeok_bot.Jobs.Model.{JobStatus, ReviewJob, ReviewFailureNotice, pending, failed}
use inryeok_bot.Jobs.Finish.{finish_job, get_or_create_failure_notice}
use inryeok_bot.Jobs.Finish.Outcome.{notice_jobs}
use inryeok_bot.Failures.Convert.{ReviewFailure}
use inryeok_bot.Worker.Session.{Session, hold, get_job, assign, commit, IsStored, commit-IsStored}
use inryeok_bot.Worker.Report.{category_name}
use inryeok_bot.Worker.Settle.{
  World, Ending, settled, finish_held, post_notice, publish_failure_notice, retry_or_fail, waiting,
}

-- Publishing a notice changes neither the held job nor the stored jobs.
abbrev pub SameJobs : Session → Session → Type 0
SameJobs s s' = (s'.held ≡ s.held) × (s'.database.jobs ≡ s.database.jobs)

post_notice-SameJobs :
    (w : World) (j : ReviewJob) (category : String) (s : Session) (n : Option ReviewFailureNotice)
    → SameJobs s (post_notice w j category s n)
unfolding post_notice
post_notice-SameJobs w j category s none = (refl, refl)
post_notice-SameJobs w j category s (some n) = elim (Bool-cases (is_present n.github_comment_id)) [
  | inl e ↦ rw e (refl, refl)
  | inr e ↦
      rw e (elim (Option-cases w.posted) [
        | inl p ↦ rw p (refl, refl)
        | inr (c, p) ↦ rw p (refl, refl)
      ])
]

pub publish-SameJobs :
    (w : World) (f : ReviewFailure) (s : Session) → SameJobs s (publish_failure_notice w f s)
unfolding publish_failure_notice
publish-SameJobs w f s =
    let (h, e) =
      post_notice-SameJobs w s.held (category_name f.category)
        (record s {
          database =
              (get_or_create_failure_notice w.raced s.held (category_name f.category) s.database).1;
        })
        (get_or_create_failure_notice w.raced s.held (category_name f.category) s.database).0 in
    (h, e ∙ notice_jobs w.raced s.held (category_name f.category) s.database)

-- The status, the identity and the storage of the held job after a step.
pub record Settled (status : JobStatus) (e : Option String) (s : Session) : Type 0 where
  pub state : s.held.status ≡ status
  pub identity : s.held.execution_id ≡ e
  pub stored : IsStored s

pub publish-Settled :
    {status : JobStatus} {e : Option String} (w : World) (f : ReviewFailure) (s : Session)
    → Settled status e s
    → Settled status e (publish_failure_notice w f s)
publish-Settled w f s p =
    let (h, j) = publish-SameJobs w f s in
    record {
      state = ap (λ x. x.status) h ∙ p.state;
      identity = ap (λ x. x.execution_id) h ∙ p.identity;
      stored = rw (h, j) p.stored;
    }

pub commit-Settled :
    (j : ReviewJob) (s : Session) → Settled j.status j.execution_id (commit (hold j s))
unfolding commit
commit-Settled j s = record { state = refl; identity = refl; stored = commit-IsStored (hold j s) }

-- What finishing a job that is there leaves.
pub finish-Settled :
    (w : World) (status : JobStatus) (code message : Option String) (j : ReviewJob) (s : Session)
    → get_job s ≡ some j
    → Settled status j.execution_id (commit (assign (finish_job w.now status code message) s))
unfolding assign finish_job
finish-Settled w status code message j s e =
    rw (e, assign) (commit-Settled (finish_job w.now status code message j) s)

-- A round that ends with its session, of which this holds.
abbrev pub SettledRound : JobStatus → Option String → Ending → Type 0
SettledRound status e (settled s) = Settled status e s
SettledRound status e _ = ⊥

pub retry_or_fail-Settled :
    (w : World) (again : Bool) (f : ReviewFailure) (j : ReviewJob) (s : Session)
    → SettledRound
        (if again then pending else failed)
        j.execution_id
        (retry_or_fail w again f (hold j s))
unfolding retry_or_fail finish_held
retry_or_fail-Settled w true f j s =
    commit-Settled (waiting (some f.operator_message_ko) j) (hold j s)
retry_or_fail-Settled w false f j s =
    publish-Settled w f _
      (finish-Settled w failed (some f.error_code) (some f.operator_message_ko) j (hold j s) refl)
