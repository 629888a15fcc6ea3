-- ===== src/Runtime/Outbox.antt =====
-- app/workers/outbox_worker.py: the worker that delivers the webhook outbox.
-- One poll reads the clock once, and what a consumer answers is a function of the item.
pub mod Backoff
pub mod Transitions
pub mod Polling
pub mod Invariant
pub mod Inactive
pub mod Shared
pub mod Workers
use schema_pilot_api_contrac.Base.{
  ℕ, ◌+◌, ◌^◌, Bool, true, false, not, ◌&&◌, Option, none, some, List, [], ◌∷◌, map, leb, min, max,
  ◌==◌, nat_eq, if◌then◌else◌,
}
use schema_pilot_api_contrac.Base.Sequence.{length, take, filter, sort_by}
use schema_pilot_api_contrac.Runtime.Database.{
  Database, Subscription, OutboxItem, pending, delivering, failed, delivered,
}
use schema_pilot_api_contrac.Runtime.Subscriptions.{get_subscription}
use schema_pilot_api_contrac.Runtime.Webhook.{Reply, Delivery, deliver_with_retry, upsert_dlq}

-- `_backoff_seconds`
unfoldable pub backoff_seconds : ℕ → ℕ
backoff_seconds attempts = min 60 (2 ^ max 1 attempts)

abbrev pub is_pending : OutboxItem → Bool
is_pending o = elim o.status [ pending ↦ true | _ ↦ false ]

-- WHERE status = 'PENDING' AND next_retry_at <= NOW() ORDER BY created_at FOR UPDATE SKIP LOCKED
-- LIMIT :batch_size, where other transactions hold the locks of some rows.
abbrev pub due_rows : (ℕ → Bool) → ℕ → ℕ → Database → List OutboxItem
due_rows locked batch_size now db = take batch_size (
    sort_by (λ o. o.created_at)
      (filter (λ o. not (locked o.id) && (is_pending o && leb o.next_retry_at now)) db.outbox))

-- The batch of a worker that is alone.
unfoldable pub due_items : ℕ → ℕ → Database → List OutboxItem
unfolding sort_by
due_items batch_size now db = due_rows (λ i. false) batch_size now db

-- UPDATE webhook_outbox SET ... WHERE id = :id
abbrev pub on_id : ℕ → (OutboxItem → OutboxItem) → OutboxItem → OutboxItem
on_id i f o = if o.id == i then f o else o

unfoldable pub update_item : ℕ → (OutboxItem → OutboxItem) → Database → Database
update_item i f db = record db { outbox = map (on_id i f) db.outbox }

abbrev pub mark_delivering : ℕ → OutboxItem → OutboxItem
mark_delivering now o = record o { status = delivering; updated_at = now }

abbrev pub mark_orphan : ℕ → OutboxItem → OutboxItem
mark_orphan now o = record o { status = failed; updated_at = now }

abbrev pub mark_delivered : ℕ → OutboxItem → OutboxItem
mark_delivered now o = record o { status = delivered; updated_at = now; attempts = o.attempts + 1 }

abbrev pub mark_failed : ℕ → ℕ → OutboxItem → OutboxItem
mark_failed next_attempt now o = record o {
  status = failed;
  attempts = next_attempt;
  updated_at = now;
}

unfoldable pub mark_retry : ℕ → ℕ → OutboxItem → OutboxItem
unfolding backoff_seconds
mark_retry next_attempt now o = record o {
  status = pending;
  attempts = next_attempt;
  next_retry_at = now + backoff_seconds next_attempt;
  updated_at = now;
}

abbrev pub delivery_of : OutboxItem → Subscription → Delivery
delivery_of item sub = record {
  event_id = item.payload.event_id;
  endpoint_id = item.endpoint_id;
  subscription = sub;
  payload = item.payload;
}

-- The branches behind `deliver_with_retry`.
unfoldable pub settle : OutboxItem → Subscription → ℕ → Bool → Database → Database
unfolding update_item mark_retry upsert_dlq
settle item sub now true db = update_item item.id (mark_delivered now) db
settle item sub now false db =
    let next_attempt = item.attempts + 1 in
    if leb item.max_attempts next_attempt
    then upsert_dlq (delivery_of item sub) "outbox max attempts exhausted" next_attempt now
        (update_item item.id (mark_failed next_attempt now) db)
    else update_item item.id (mark_retry next_attempt now) db

unfoldable pub attempt_item : OutboxItem → Option Subscription → Reply → ℕ → Database → Database
unfolding update_item settle deliver_with_retry
attempt_item item none reply now db = update_item item.id (mark_orphan now) db
attempt_item item (some sub) reply now db =
    let (ok, db') = deliver_with_retry (delivery_of item sub) (λ attempt. reply) 1 false now db in
    settle item sub now ok db'

-- The body of the loop over `items`.
unfoldable pub process_item : OutboxItem → Reply → ℕ → Database → Database
unfolding update_item attempt_item get_subscription
process_item item reply now db =
    let db' = update_item item.id (mark_delivering now) db in
    attempt_item item (get_subscription item.subscription_id db') reply now db'

unfoldable pub process_items : List OutboxItem → (OutboxItem → Reply) → ℕ → Database → Database
unfolding process_item
process_items [] replies now db = db
process_items (item ∷ items) replies now db =
    process_items items replies now (process_item item (replies item) now db)

abbrev pub count_pending : List OutboxItem → ℕ
count_pending outbox = length (filter is_pending outbox)

-- `_poll_once`: the number of items processed, and the database with its gauge set.
unfoldable pub poll_once : ℕ → (OutboxItem → Reply) → ℕ → Database → ℕ × Database
unfolding due_items process_items
poll_once batch_size replies now db =
    let items = due_items batch_size now db in
    let db' = process_items items replies now db in
    (length items, record db' { outbox_pending = count_pending db'.outbox })
