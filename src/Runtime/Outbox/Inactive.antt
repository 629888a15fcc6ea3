-- ===== src/Runtime/Outbox/Inactive.antt =====
-- An outbox row whose subscription was switched off after the row was made.
use schema_pilot_api_contrac.Base.{
  ℕ, ◌+◌, ◌≤◌, ◌≡◌, refl, ◌∙◌, String, Bool, ap, false, some, arith,
}
use schema_pilot_api_contrac.Runtime.Database.{Database, Subscription, OutboxItem, DlqEntry}
use schema_pilot_api_contrac.Runtime.Subscriptions.{get_subscription}
use schema_pilot_api_contrac.Runtime.Webhook.{Reply, Delivery, upsert_dlq}
use schema_pilot_api_contrac.Runtime.Webhook.DeadLetters.{
  find_entry, dead_letter, dead_letter-counted, find_entry-dead_letter,
}
use schema_pilot_api_contrac.Runtime.Webhook.Delivering.{deliver_with_retry-inactive}
use schema_pilot_api_contrac.Runtime.Outbox.{
  update_item, mark_delivering, mark_failed, delivery_of, settle, attempt_item, process_item,
}

attempts-upsert_dlq :
    (d : Delivery) (reason : String) (count now : ℕ) (db : Database)
    → (upsert_dlq d reason count now db).attempts ≡ db.attempts
unfolding upsert_dlq
attempts-upsert_dlq d reason count now db = refl

settle-last :
    (item : OutboxItem) (sub : Subscription) (now : ℕ) (db : Database)
    → item.max_attempts ≤ item.attempts + 1
    → settle item sub now false db
      ≡ upsert_dlq
          (delivery_of item sub)
          "outbox max attempts exhausted"
          (item.attempts + 1)
          now
          (update_item item.id (mark_failed (item.attempts + 1) now) db)
unfolding settle
settle-last item sub now db last = ground arith

attempt_item-inactive :
    (item : OutboxItem) (sub : Subscription) (reply : Reply) (now : ℕ) (db : Database)
    → sub.active ≡ false
    → attempt_item item (some sub) reply now db ≡ settle item sub now false db
unfolding attempt_item
attempt_item-inactive item sub reply now db off =
    ap (λ (o : Bool × Database). settle item sub now o.0 o.1)
      (deliver_with_retry-inactive (delivery_of item sub) (λ attempt. reply) 1 false now db off)

abbrev marked : OutboxItem → ℕ → Database → Database
marked item now db =
    update_item item.id (mark_failed (item.attempts + 1) now)
      (update_item item.id (mark_delivering now) db)

process_item-last :
    (item : OutboxItem) (sub : Subscription) (reply : Reply) (now : ℕ) (db : Database)
    → get_subscription item.subscription_id db ≡ some sub
    → sub.active ≡ false
    → item.max_attempts ≤ item.attempts + 1
    → process_item item reply now db
      ≡ upsert_dlq
          (delivery_of item sub)
          "outbox max attempts exhausted"
          (item.attempts + 1)
          now
          (marked item now db)
unfolding process_item get_subscription update_item
process_item-last item sub reply now db found off last =
    ap (λ s. attempt_item item s reply now (update_item item.id (mark_delivering now) db)) found
    ∙ attempt_item-inactive item sub reply now (update_item item.id (mark_delivering now) db) off
    ∙ settle-last item sub now (update_item item.id (mark_delivering now) db) last

-- A row with one attempt left whose subscription is inactive makes a dead letter for its event and its
-- consumer, with all attempts on it, and no delivery was attempted.
pub process_item-inactive :
    (item : OutboxItem) (sub : Subscription) (reply : Reply) (now : ℕ) (db : Database)
    → get_subscription item.subscription_id db ≡ some sub
    → sub.active ≡ false
    → item.max_attempts ≤ item.attempts + 1
    → ((entry : DlqEntry) × (find_entry item.payload.event_id sub.consumer_id
            (process_item item reply now db).dlq
          ≡ some entry)
        × (item.attempts + 1 ≤ entry.attempt_count))
      × ((process_item item reply now db).attempts ≡ db.attempts)
unfolding update_item
process_item-inactive item sub reply now db found off last =
    let e = process_item-last item sub reply now db found off last in
    let d = delivery_of item sub in
    let reason : String = "outbox max attempts exhausted" in
    let before = marked item now db in
    (
      (
        dead_letter d reason (item.attempts + 1) now before,
        ap (λ (r : Database). find_entry item.payload.event_id sub.consumer_id r.dlq) e
            ∙ find_entry-dead_letter d reason (item.attempts + 1) now before,
        dead_letter-counted d reason (item.attempts + 1) now before,
      ),
      ap (λ (r : Database). r.attempts) e
          ∙ attempts-upsert_dlq d reason (item.attempts + 1) now before,
    )
