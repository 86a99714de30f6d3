-- ===== src/Jobs/Enqueue/Tests.antt =====
-- Admission of an automatic job for a new head of a pull request with a pending job.
use inryeok_bot.Prelude.{◌≤◌, ◌≡◌, refl, ◌≢◌, none, some, [], ◌∷◌, Has, inl, inr, count_where}
use inryeok_bot.Jobs.Model.{ReviewJob, Database, is_pending, conflicts}
use inryeok_bot.Jobs.Fixtures.{a_key, no_snapshot, pending_job, a_queue}
use inryeok_bot.Jobs.Enqueue.{
  JobValues, created, new_job, active_same_head, auto_same_head, superseded, supersede,
  supersede_log, at_capacity, counts_against, counts_against_repository, stands_for, admit,
  found_before, enqueue,
}
use inryeok_bot.Jobs.Enqueue.Capacity.{enqueue_pending_bound, enqueue_single_head}

abbrev before : Database
before = a_queue (pending_job ∷ [])

abbrev next_head : JobValues
next_head = record {
  delivery_id = "d9";
  source_comment_id = none;
  key = record a_key { head_sha = "head2" };
  not_before = none;
  snapshot = no_snapshot;
}

-- The same head again.
abbrev same_head : JobValues
same_head = record next_head { key = a_key }

abbrev admitted : ReviewJob
admitted = record pending_job {
  id = 5;
  delivery_id = "d9";
  key = record a_key { head_sha = "head2" };
  created_at = 50;
}

abbrev after : Database
after = (enqueue 50 (some 1) (some 1) next_head before).1

enqueued : enqueue 50 (some 1) (some 1) next_head before ≡ (created admitted, after)
unfolding new_job active_same_head auto_same_head superseded supersede supersede_log at_capacity
    counts_against counts_against_repository stands_for admit found_before enqueue conflicts
enqueued = refl

not_created : (j : ReviewJob) → (enqueue 50 none none same_head before).0 ≢ created j
unfolding new_job active_same_head auto_same_head superseded supersede supersede_log at_capacity
    counts_against counts_against_repository stands_for admit found_before enqueue conflicts
not_created j h = cc

admitted-Has : Has admitted after.jobs
unfolding new_job active_same_head auto_same_head superseded supersede supersede_log at_capacity
    counts_against counts_against_repository stands_for admit found_before enqueue conflicts
admitted-Has = inr (inl refl)

enqueue_pending_bound_example : count_where (λ x. is_pending x.status) after.jobs ≤ 1
enqueue_pending_bound_example =
    enqueue_pending_bound 50 1 (some 1) next_head before after admitted enqueued

enqueue_single_head_example : admitted ≡ admitted
enqueue_single_head_example =
    enqueue_single_head 50 (some 1) (some 1) next_head before after admitted admitted refl enqueued
      admitted-Has refl refl refl
