-- ===== src/Webhook/Delivery.antt =====
-- The ledger of deliveries: `_record_delivery`, `_finish_delivery` and `recover_stale_deliveries` of
-- app/github/webhook.py. The reservation is in its steps: the insert with its commit, the reading of
-- the row that was there, and the update by what was read, since other requests run in between.
mod Once
mod Handled
mod Tests
use inryeok_bot.Prelude.{
  ℕ, suc, ◌+◌, ◌-◌, String, Bool, true, false, ◌&&◌, ◌||◌, not, Option, none, some, List, [], ◌∷◌,
  ◌++◌, ltb, leb, ◌==◌, str_eq, if◌then◌else◌, first_where, update_where, select_where, map,
  text_prefix, is_present,
}

pub data DeliveryStatus : Type 0 where
  processing processed ignored failed_retryable failed_final : DeliveryStatus

abbrev pub is_failed_retryable : DeliveryStatus → Bool
is_failed_retryable failed_retryable = true
is_failed_retryable _ = false

abbrev pub is_processing : DeliveryStatus → Bool
is_processing processing = true
is_processing _ = false

-- The columns of `WebhookDelivery` that the ledger writes.
pub record WebhookDelivery : Type 0 where
  pub delivery_id : String
  pub event_name : String
  pub status : DeliveryStatus
  pub attempt_count : ℕ
  pub safe_reason : Option String
  pub response_status : Option ℕ
  pub processing_started_at : ℕ
  pub completed_at : Option ℕ

abbrev pub is_delivery : String → WebhookDelivery → Bool
is_delivery id d = str_eq d.delivery_id id

pub new_delivery : ℕ → String → String → WebhookDelivery
new_delivery now id event = record {
  delivery_id = id;
  event_name = event;
  status = processing;
  attempt_count = 1;
  safe_reason = none;
  response_status = none;
  processing_started_at = now;
  completed_at = none;
}

-- The update sets the count that was computed from the row read.
abbrev pub restart_delivery : ℕ → ℕ → WebhookDelivery → WebhookDelivery
restart_delivery now attempts d = record d {
  status = processing;
  attempt_count = attempts;
  safe_reason = none;
  processing_started_at = now;
  completed_at = none;
}

-- The insert and its commit: the ledger, and whether to process. The delivery id is unique.
pub insert_delivery : ℕ → String → String → List WebhookDelivery → List WebhookDelivery × Bool
unfolding new_delivery
insert_delivery now id event rows =
    if is_present (first_where (is_delivery id) rows)
    then (rows, false)
    else (rows ++ (new_delivery now id event ∷ []), true)

-- `existing`, which `select` reads without a lock after the IntegrityError.
abbrev pub existing_delivery : String → List WebhookDelivery → Option WebhookDelivery
existing_delivery id rows = first_where (is_delivery id) rows

-- The rest of the reservation, by the row that was read: the update names the row by its key only.
pub reserve_existing :
    ℕ → Option WebhookDelivery → List WebhookDelivery → List WebhookDelivery × Bool
reserve_existing now none rows = (rows, false)
reserve_existing now (some d) rows =
    if is_failed_retryable d.status
    then (
      update_where (is_delivery d.delivery_id) (restart_delivery now (d.attempt_count + 1)) rows,
      true,
    )
    else (rows, false)

-- How a handling ends: the arguments of `_finish_delivery`. One whose process dies has no end.
pub data Ending : Type 0 where
  finished : DeliveryStatus → String → ℕ → Ending

abbrev pub finish_row : ℕ → DeliveryStatus → String → ℕ → WebhookDelivery → WebhookDelivery
finish_row now state reason response d = record d {
  status = state;
  safe_reason = some (text_prefix 100 reason);
  response_status = some response;
  completed_at = some now;
}

pub finish_delivery : ℕ → String → Ending → List WebhookDelivery → List WebhookDelivery
finish_delivery now id (finished state reason response) rows =
    update_where (is_delivery id) (finish_row now state reason response) rows

-- An entry of the report on stale deliveries.
pub record StaleDelivery : Type 0 where
  pub delivery_id : String
  pub job_id : Option ℕ
  pub reason : String
  pub attempt_count : ℕ

abbrev pub is_stale : ℕ → WebhookDelivery → Bool
is_stale cutoff d = is_processing d.status && ltb d.processing_started_at cutoff

-- `related` finds the job of a delivery.
module _ (related : String → Option ℕ) where
  abbrev pub stale_entry : WebhookDelivery → StaleDelivery
  stale_entry d = record {
    delivery_id = d.delivery_id;
    job_id = related d.delivery_id;
    reason =
        if is_present (related d.delivery_id)
        then "JOB_ALREADY_ENQUEUED"
        else "MANUAL_REDELIVERY_REQUIRED";
    attempt_count = d.attempt_count;
  }

  abbrev closed : ℕ → DeliveryStatus → String → WebhookDelivery → WebhookDelivery
  closed now state reason d = record d {
    status = state;
    safe_reason = some reason;
    attempt_count = d.attempt_count + 1;
    completed_at = some now;
    response_status = some 200;
  }

  pub close_stale : ℕ → ℕ → WebhookDelivery → WebhookDelivery
  close_stale now max_attempts d =
      if leb max_attempts d.attempt_count
      then closed now failed_final "STALE_PROCESSING_MAX_ATTEMPTS" d
      else if is_present (related d.delivery_id)
      then closed now processed "JOB_ALREADY_ENQUEUED" d
      else closed now failed_final "MANUAL_REDELIVERY_REQUIRED" d

  -- The ledger, and the report.
  pub recover_stale_deliveries :
      ℕ → ℕ → ℕ → Bool → List WebhookDelivery → List WebhookDelivery × List StaleDelivery
  unfolding close_stale
  recover_stale_deliveries now threshold_seconds max_attempts apply rows =
      let stale = is_stale (now - threshold_seconds) in
      (
        if apply then update_where stale (close_stale now max_attempts) rows else rows,
        map stale_entry (select_where stale rows),
      )
