-- ===== src/Webhook/Delivery/Tests.antt =====
-- Runs of the ledger of deliveries.
use inryeok_bot.Prelude.{ℕ, ◌+◌, ◌≤◌, String, true, Option, none, List, [], ◌∷◌, ◌≡◌, refl}
use inryeok_bot.Webhook.Delivery.{
  finished, processed, failed_retryable, new_delivery, insert_delivery, reserve_existing,
  finish_delivery, close_stale, recover_stale_deliveries,
}
use inryeok_bot.Webhook.Delivery.Once.{
  LedgerEvent, inserted, looked, acted, ended, recovered, no_deliveries, handled_count,
  retryable_readings,
}
use inryeok_bot.Webhook.Delivery.Handled.{delivery_handled_once}

abbrev no_job : String → Option ℕ
no_job _ = none

abbrev some_events : List LedgerEvent
some_events =
    inserted 10 "d1" "pull_request"
    ∷ inserted 11 "d1" "pull_request"
    ∷ looked "d1"
    ∷ acted 12 0
    ∷ ended 20 "d1" (finished failed_retryable "QUEUE_CAPACITY" 200)
    ∷ looked "d1"
    ∷ acted 30 0
    ∷ recovered no_job 2000 900 3 true
    ∷ looked "d1"
    ∷ acted 3000 0
    ∷ []

delivery_handled_once_example :
    handled_count "d1" some_events no_deliveries
    ≤ 1 + retryable_readings "d1" some_events no_deliveries
delivery_handled_once_example = delivery_handled_once "d1" some_events

handled_twice : handled_count "d1" some_events no_deliveries ≡ 2
unfolding insert_delivery reserve_existing new_delivery finish_delivery recover_stale_deliveries
    close_stale
handled_twice = refl

-- Two redeliveries at once read the same failed row, and both are handled.
abbrev overlapping : List LedgerEvent
overlapping =
    inserted 10 "d1" "pull_request"
    ∷ ended 20 "d1" (finished failed_retryable "QUEUE_CAPACITY" 200)
    ∷ looked "d1"
    ∷ looked "d1"
    ∷ acted 30 0
    ∷ acted 31 0
    ∷ ended 40 "d1" (finished processed "JOB_ENQUEUED" 200)
    ∷ []

overlapping_handled : handled_count "d1" overlapping no_deliveries ≡ 3
unfolding insert_delivery reserve_existing new_delivery finish_delivery
overlapping_handled = refl
