-- ===== src/Runtime/Service/Enqueued.antt =====
-- One outbox row for each affected subscription.
use schema_pilot_api_contrac.Base.{
  ℕ, suc, ◌+◌, ◌≡◌, refl, ◌∙◌, ap, inl, inr, Bool-cases, Bool, true, List, [], ◌∷◌, map, arith,
  if◌then◌else◌,
}
use schema_pilot_api_contrac.Base.Sequence.{length}
use schema_pilot_api_contrac.Runtime.Database.{Database, Subscription, EventPayload, OutboxItem}
use schema_pilot_api_contrac.Runtime.Subscriptions.{select_affected_subscriptions}
use schema_pilot_api_contrac.Runtime.Webhook.{Reply, deliver_with_retry}
use schema_pilot_api_contrac.Runtime.Webhook.Delivering.{outbox-deliver_with_retry}
use schema_pilot_api_contrac.Runtime.Outbox.{on_id, update_item, count_pending, mark_delivered}
use schema_pilot_api_contrac.Runtime.Service.{
  outbox_row, inline_delivery_of, mark_inline_failed, enqueue, enqueue_all, enqueue_webhook_outbox,
}

length-map : (f : OutboxItem → OutboxItem) (os : List OutboxItem) → length (map f os) ≡ length os
length-map f [] = refl
length-map f (o ∷ os) = ap suc (length-map f os)

length-update_item :
    (i : ℕ) (f : OutboxItem → OutboxItem) (db : Database)
    → length (update_item i f db).outbox ≡ length db.outbox
unfolding update_item
length-update_item i f db = length-map (on_id i f) db.outbox

module _ (inline_delivery : Bool) (replies : Subscription → Reply) (payload : EventPayload)
    (now : ℕ) where
  length-enqueue :
      (sub : Subscription) (db : Database)
      → length (enqueue inline_delivery replies payload now sub db).outbox ≡ length db.outbox + 1
  unfolding enqueue
  length-enqueue sub db =
      let row = outbox_row db.next_id sub payload now in
      let db' : Database = record db { next_id = db.next_id + 1; outbox = row ∷ db.outbox } in
      let d = inline_delivery_of sub payload in
      let sent = deliver_with_retry d (λ attempt. replies sub) 1 true now db' in
      elim (Bool-cases inline_delivery) [
        | inl e ↦ rw e (
            length-update_item row.id
              (if sent.0 then mark_delivered now else mark_inline_failed now) sent.1
            ∙ ap length (outbox-deliver_with_retry d (λ attempt. replies sub) 1 true now db')
            ∙ omega arith)
        | inr e ↦ rw e (omega arith)
      ]

  length-enqueue_all :
      (subs : List Subscription) (db : Database)
      → length (enqueue_all inline_delivery replies payload now subs db).outbox
        ≡ length subs + length db.outbox
  unfolding enqueue_all
  length-enqueue_all [] db = omega arith
  length-enqueue_all (sub ∷ subs) db = omega (
    arith,
    length-enqueue_all subs (enqueue inline_delivery replies payload now sub db),
    length-enqueue sub db,
  )

  -- Enqueueing an event, with or without inline delivery and whatever the consumers answer, makes one outbox
  -- row for each affected subscription, returns their number, and sets the gauge to the pending rows.
  pub enqueue_webhook_outbox-length :
      (db : Database)
      → ((enqueue_webhook_outbox inline_delivery replies payload now db).0
          ≡ length (
              select_affected_subscriptions payload.endpoint_id payload.new_version
                payload.classification db))
        × (length (enqueue_webhook_outbox inline_delivery replies payload now db).1.outbox
            ≡ (enqueue_webhook_outbox inline_delivery replies payload now db).0 + length db.outbox)
        × ((enqueue_webhook_outbox inline_delivery replies payload now db).1.outbox_pending
            ≡ count_pending
                (enqueue_webhook_outbox inline_delivery replies payload now db).1.outbox)
  unfolding enqueue_webhook_outbox
  enqueue_webhook_outbox-length db = (
    refl,
    length-enqueue_all
        (select_affected_subscriptions payload.endpoint_id payload.new_version
          payload.classification db)
        db,
    refl,
  )
