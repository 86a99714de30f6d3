-- ===== src/Webhook/Delivery/Once.antt =====
-- The steps of any number of requests and recoveries on the ledger, in any order.
use inryeok_bot.Prelude.{
  ℕ, zero, suc, ◌+◌, String, Bool, true, false, ◌&&◌, Option, none, some, List, [], ◌∷◌, str_eq,
}
use inryeok_bot.Webhook.Delivery.{
  Ending, is_failed_retryable, WebhookDelivery, insert_delivery, existing_delivery,
  reserve_existing, finish_delivery, recover_stale_deliveries,
}

-- The ledger, and the rows that requests have read and not yet acted on.
pub record Ledger : Type 0 where
  pub rows : List WebhookDelivery
  pub readings : List WebhookDelivery

abbrev pub no_deliveries : Ledger
no_deliveries = record { rows = []; readings = [] }

abbrev pub add_reading : Option WebhookDelivery → List WebhookDelivery → List WebhookDelivery
add_reading none ds = ds
add_reading (some d) ds = d ∷ ds

-- The n-th reading, and the other ones.
abbrev pub reading : ℕ → List WebhookDelivery → Option WebhookDelivery
reading n [] = none
reading zero (d ∷ ds) = some d
reading (suc n) (d ∷ ds) = reading n ds

abbrev pub without_reading : ℕ → List WebhookDelivery → List WebhookDelivery
without_reading n [] = []
without_reading zero (d ∷ ds) = ds
without_reading (suc n) (d ∷ ds) = d ∷ without_reading n ds

-- One step: a request inserts its row, or reads the row that is there, or acts on what it has read
-- (the n-th open reading); a handling ends, at any time and as often as may be, or never, if its
-- process died; or the recovery of stale deliveries runs.
pub data LedgerEvent : Type 0 where
  inserted : ℕ → String → String → LedgerEvent
  looked : String → LedgerEvent
  acted : ℕ → ℕ → LedgerEvent
  ended : ℕ → String → Ending → LedgerEvent
  recovered : (String → Option ℕ) → ℕ → ℕ → ℕ → Bool → LedgerEvent

abbrev pub ledger_step : LedgerEvent → Ledger → Ledger
ledger_step (inserted now id event) l = record l { rows = (insert_delivery now id event l.rows).0 }
ledger_step (looked id) l = record l {
  readings = add_reading (existing_delivery id l.rows) l.readings;
}
ledger_step (acted now n) l = record {
  rows = (reserve_existing now (reading n l.readings) l.rows).0;
  readings = without_reading n l.readings;
}
ledger_step (ended now id ending) l = record l { rows = finish_delivery now id ending l.rows }
ledger_step (recovered related now threshold max_attempts apply) l = record l {
  rows = (recover_stale_deliveries related now threshold max_attempts apply l.rows).0;
}

abbrev pub is_of : String → Option WebhookDelivery → Bool
is_of id none = false
is_of id (some d) = str_eq d.delivery_id id

-- Whether the step starts to handle the delivery.
abbrev pub handles : String → LedgerEvent → Ledger → Bool
handles id (inserted now other event) l =
    str_eq other id && (insert_delivery now other event l.rows).1
handles id (acted now n) l =
    is_of id (reading n l.readings) && (reserve_existing now (reading n l.readings) l.rows).1
handles id _ l = false

-- A row of the delivery that says that it may be handled again.
abbrev pub invites : String → WebhookDelivery → Bool
invites id d = str_eq d.delivery_id id && is_failed_retryable d.status

-- Whether the step reads that the delivery may be handled again.
abbrev pub sees_retryable : String → LedgerEvent → Ledger → Bool
sees_retryable id (looked other) l = elim (existing_delivery other l.rows) [
  | none ↦ false
  | some d ↦ invites id d
]
sees_retryable id _ l = false

abbrev pub one_if : Bool → ℕ
one_if true = 1
one_if false = 0

abbrev pub handled_count : String → List LedgerEvent → Ledger → ℕ
handled_count id [] l = 0
handled_count id (e ∷ es) l = one_if (handles id e l) + handled_count id es (ledger_step e l)

abbrev pub retryable_readings : String → List LedgerEvent → Ledger → ℕ
retryable_readings id [] l = 0
retryable_readings id (e ∷ es) l =
    one_if (sees_retryable id e l) + retryable_readings id es (ledger_step e l)
