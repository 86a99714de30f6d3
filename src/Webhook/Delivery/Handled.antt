-- ===== src/Webhook/Delivery/Handled.antt =====
-- How often a delivery is handled.
use inryeok_bot.Prelude.{
  ℕ, zero, suc, ◌+◌, ◌-◌, ◌≤◌, String, Bool, true, false, ◌&&◌, not, Option, none, some, List, [],
  ◌∷◌, ◌++◌, ◌≡◌, refl, inl, inr, str_eq, eq_iff, leb, Bool-cases, Option-cases, first_where,
  update_where, is_present, count_where, arith,
}
use inryeok_bot.Webhook.Delivery.{
  finished, is_failed_retryable, WebhookDelivery, is_delivery, new_delivery, restart_delivery,
  insert_delivery, existing_delivery, reserve_existing, finish_row, finish_delivery, is_stale,
  close_stale, recover_stale_deliveries,
}
use inryeok_bot.Webhook.Delivery.Once.{
  Ledger, no_deliveries, add_reading, reading, without_reading, LedgerEvent, inserted, looked,
  acted, ended, recovered, ledger_step, is_of, handles, invites, sees_retryable, one_if,
  handled_count, retryable_readings,
}

abbrev is_known : String → List WebhookDelivery → Bool
is_known id rows = is_present (first_where (is_delivery id) rows)

-- An update that keeps the ids keeps what is known.
update-known :
    (id : String) (p : WebhookDelivery → Bool) (f : WebhookDelivery → WebhookDelivery)
    (rows : List WebhookDelivery)
    → ((d : WebhookDelivery) → (f d).delivery_id ≡ d.delivery_id)
    → is_known id (update_where p f rows) ≡ is_known id rows
update-known id p f [] k = refl
update-known id p f (d ∷ rows) k = elim (Bool-cases (p d)) [
  | inl e ↦ elim (Bool-cases (is_delivery id d)) [
    | inl q ↦ rw (e, k d, q) refl
    | inr q ↦ rw (e, k d, q) (update-known id p f rows k)
  ]
  | inr e ↦ elim (Bool-cases (is_delivery id d)) [
    | inl q ↦ rw (e, q) refl
    | inr q ↦ rw (e, q) (update-known id p f rows k)
  ]
]

append-known :
    (id : String) (rows : List WebhookDelivery) (x : WebhookDelivery)
    → one_if (not (is_known id (rows ++ x ∷ []))) ≤ one_if (not (is_known id rows))
append-known id [] x = ground arith
append-known id (d ∷ rows) x = ground (arith, append-known id rows x)

append-same :
    (id : String) (rows : List WebhookDelivery) (x : WebhookDelivery)
    → is_delivery id x ≡ true
    → is_known id (rows ++ x ∷ []) ≡ true
append-same id [] x h = rw h refl
append-same id (d ∷ rows) x h = ground (arith, append-same id rows x h)

insert-balance :
    (id other : String) (now : ℕ) (event : String) (rows : List WebhookDelivery)
    → let r = insert_delivery now other event rows in
      one_if (str_eq other id && r.1) + one_if (not (is_known id r.0))
      ≤ one_if (not (is_known id rows))
unfolding insert_delivery new_delivery
insert-balance id other now event rows = elim (Bool-cases (is_known other rows)) [
  | inl y ↦ rw (y, insert_delivery) (ground arith)
  | inr n ↦ elim (Bool-cases (str_eq other id)) [
    | inr q ↦
        rw (n, insert_delivery, q)
          (omega (arith, append-known id rows (new_delivery now other event)))
    | inl q ↦
        let same = (eq_iff other id).0 q in
        let unknown : is_known id rows ≡ false = rw⁻¹ same n in
        rw (n, insert_delivery, q, unknown, append-same id rows (new_delivery now other event) q)
          (omega arith)
  ]
]

reserve-known :
    (id : String) (now : ℕ) (o : Option WebhookDelivery) (rows : List WebhookDelivery)
    → is_known id (reserve_existing now o rows).0 ≡ is_known id rows
unfolding reserve_existing
reserve-known id now none rows = refl
reserve-known id now (some d) rows = elim (Bool-cases (is_failed_retryable d.status)) [
  | inr e ↦ rw (e, reserve_existing) refl
  | inl e ↦
      rw (e, reserve_existing)
        (update-known id (is_delivery d.delivery_id) (restart_delivery now (d.attempt_count + 1))
          rows (λ x. refl))
]

acts-invited :
    (id : String) (now : ℕ) (d : WebhookDelivery) (rows : List WebhookDelivery)
    → (is_of id (some d) && (reserve_existing now (some d) rows).1) ≡ invites id d
unfolding reserve_existing
acts-invited id now d rows = elim (Bool-cases (is_failed_retryable d.status)) [
  | inl e ↦ rw (e, reserve_existing) refl
  | inr e ↦ rw (e, reserve_existing) refl
]

-- A reading is acted on once.
act-balance :
    (id : String) (now n : ℕ) (rows ds : List WebhookDelivery)
    → one_if (is_of id (reading n ds) && (reserve_existing now (reading n ds) rows).1)
        + count_where (invites id) (without_reading n ds)
      ≤ count_where (invites id) ds
act-balance id now n rows [] = omega arith
act-balance id now zero rows (d ∷ ds) = rw (acts-invited id now d rows) (ground arith)
act-balance id now (suc n) rows (d ∷ ds) = ground (arith, act-balance id now n rows ds)

look-balance :
    (id other : String) (l : Ledger)
    → count_where (invites id) (add_reading (existing_delivery other l.rows) l.readings)
      ≤ count_where (invites id) l.readings + one_if (sees_retryable id (looked other) l)
look-balance id other l = elim (Option-cases (existing_delivery other l.rows)) [
  | inl e ↦ rw e (omega arith)
  | inr (d, e) ↦ rw e (ground arith)
]

close_stale-id :
    (related : String → Option ℕ) (now max_attempts : ℕ) (d : WebhookDelivery)
    → (close_stale related now max_attempts d).delivery_id ≡ d.delivery_id
unfolding close_stale
close_stale-id related now max_attempts d = elim (Bool-cases (leb max_attempts d.attempt_count)) [
  | inl a ↦ rw (a, close_stale) refl
  | inr a ↦ elim (Bool-cases (is_present (related d.delivery_id))) [
    | inl b ↦ rw (a, b, close_stale) refl
    | inr b ↦ rw (a, b, close_stale) refl
  ]
]

recover-known :
    (id : String) (related : String → Option ℕ) (now threshold max_attempts : ℕ) (apply : Bool)
    (rows : List WebhookDelivery)
    → is_known id (recover_stale_deliveries related now threshold max_attempts apply rows).0
      ≡ is_known id rows
unfolding recover_stale_deliveries
recover-known id related now threshold max_attempts false rows = refl
recover-known id related now threshold max_attempts true rows =
    update-known id (is_stale (now - threshold)) (close_stale related now max_attempts) rows
      (λ d. close_stale-id related now max_attempts d)

-- The handlings that may still start: the first one, and one for each open reading that invites it.
abbrev room : String → Ledger → ℕ
room id l = one_if (not (is_known id l.rows)) + count_where (invites id) l.readings

ledger_step-balance :
    (id : String) (e : LedgerEvent) (l : Ledger)
    → one_if (handles id e l) + room id (ledger_step e l)
      ≤ room id l + one_if (sees_retryable id e l)
unfolding finish_delivery
ledger_step-balance id (inserted now other event) l =
    omega (arith, insert-balance id other now event l.rows)
ledger_step-balance id (looked other) l = omega (arith, look-balance id other l)
ledger_step-balance id (acted now n) l =
    rw (reserve-known id now (reading n l.readings) l.rows)
      (omega (arith, act-balance id now n l.rows l.readings))
ledger_step-balance id (ended now other (finished state reason response)) l =
    rw
      (update-known id (is_delivery other) (finish_row now state reason response) l.rows
        (λ x. refl))
      (omega arith)
ledger_step-balance id (recovered related now threshold max_attempts apply) l =
    rw (recover-known id related now threshold max_attempts apply l.rows) (omega arith)

handled-balance :
    (id : String) (es : List LedgerEvent) (l : Ledger)
    → handled_count id es l ≤ room id l + retryable_readings id es l
handled-balance id [] l = omega arith
handled-balance id (e ∷ es) l =
    omega (arith, ledger_step-balance id e l, handled-balance id es (ledger_step e l))

-- From an empty ledger, however the inserts, the readings, the updates and the ends of any number of
-- requests and the recovery of stale deliveries follow each other, the handling of a delivery
-- starts at most once, and at most once more for each time that a request read its row as
-- FAILED_RETRYABLE.
pub delivery_handled_once :
    (id : String) (es : List LedgerEvent)
    → handled_count id es no_deliveries ≤ 1 + retryable_readings id es no_deliveries
delivery_handled_once id es = handled-balance id es no_deliveries
