-- ===== src/Runtime/Outbox/Transitions.antt =====
-- What processing one item does to the outbox: one function of the row, at the item's id.
use schema_pilot_api_contrac.Base.{
  String, ℕ, ◌+◌, ◌≡◌, refl, ◌∙◌, ap, ap₂, inl, inr, Bool-cases, Bool, true, false, ◌&&◌, Option,
  none, some, map, arith, leb, nat_eq, if◌then◌else◌,
}
use schema_pilot_api_contrac.Runtime.Database.{Database, Subscription, OutboxItem}
use schema_pilot_api_contrac.Runtime.Subscriptions.{get_subscription}
use schema_pilot_api_contrac.Runtime.Webhook.{
  Reply, Delivery, accepted, upsert_dlq, deliver_with_retry,
}
use schema_pilot_api_contrac.Runtime.Webhook.Attempts.{succeeds-one}
use schema_pilot_api_contrac.Runtime.Webhook.Delivering.{
  deliver_with_retry-inactive, deliver_with_retry-IsAttempted,
}
use schema_pilot_api_contrac.Runtime.Outbox.{
  on_id, update_item, mark_delivering, mark_orphan, mark_delivered, mark_failed, mark_retry,
  delivery_of, settle, attempt_item, process_item,
}

-- Whether the one attempt that a poll makes is taken.
abbrev pub taken : Option Subscription → Reply → Bool
taken none reply = false
taken (some sub) reply = sub.active && accepted reply

-- The row that the item's processing leaves, from the row before it.
unfoldable pub settled : OutboxItem → Option Subscription → Bool → ℕ → OutboxItem → OutboxItem
settled item none ok now = mark_orphan now
settled item (some sub) true now = mark_delivered now
settled item (some sub) false now =
    if leb item.max_attempts (item.attempts + 1)
    then mark_failed (item.attempts + 1) now
    else mark_retry (item.attempts + 1) now

pub id-settled :
    (item : OutboxItem) (sub : Option Subscription) (ok : Bool) (now : ℕ) (o : OutboxItem)
    → (settled item sub ok now o).id ≡ o.id
unfolding settled mark_retry
id-settled item none ok now o = refl
id-settled item (some sub) true now o = refl
id-settled item (some sub) false now o = ground arith

-- The mark that the row carries while it is delivered is overwritten.
pub settled-marked :
    (item : OutboxItem) (sub : Option Subscription) (ok : Bool) (now : ℕ) (o : OutboxItem)
    → settled item sub ok now (mark_delivering now o) ≡ settled item sub ok now o
unfolding settled mark_retry
settled-marked item none ok now o = refl
settled-marked item (some sub) true now o = refl
settled-marked item (some sub) false now o =
    elim (Bool-cases (leb item.max_attempts (item.attempts + 1))) [
      | inl last ↦ rw last refl
      | inr more ↦ rw more refl
    ]

outbox-upsert_dlq :
    (d : Delivery) (reason : String) (count now : ℕ) (db : Database)
    → (upsert_dlq d reason count now db).outbox ≡ db.outbox
unfolding upsert_dlq
outbox-upsert_dlq d reason count now db = refl

outbox-settle :
    (item : OutboxItem) (sub : Subscription) (now : ℕ) (ok : Bool) (db : Database)
    → (settle item sub now ok db).outbox
      ≡ map (on_id item.id (settled item (some sub) ok now)) db.outbox
unfolding settle settled
outbox-settle item sub now true db = refl
outbox-settle item sub now false db =
    elim (Bool-cases (leb item.max_attempts (item.attempts + 1))) [
      | inl last ↦ rw (last, settled)
      | inr more ↦ rw (more, settled)
    ]

delivered_active :
    (d : Delivery) (reply : Reply) (now : ℕ) (db : Database)
    → ((deliver_with_retry d (λ attempt. reply) 1 false now db).0
        ≡ (d.subscription.active && accepted reply))
      × ((deliver_with_retry d (λ attempt. reply) 1 false now db).1.outbox ≡ db.outbox)
delivered_active d reply now db = elim (Bool-cases d.subscription.active) [
  | inl on ↦
      let r = (deliver_with_retry-IsAttempted d (λ attempt. reply) 1 false now db on).0 in
      (r.verdict ∙ succeeds-one (λ attempt. reply) 1 ∙ ground arith, r.outbox)
  | inr off ↦
      let e = deliver_with_retry-inactive d (λ attempt. reply) 1 false now db off in
      (
        ap (λ (o : Bool × Database). o.0) e ∙ ground arith,
        ap (λ (o : Bool × Database). o.1.outbox) e,
      )
]

outbox-attempt_item :
    (item : OutboxItem) (sub : Option Subscription) (reply : Reply) (now : ℕ) (db : Database)
    → (attempt_item item sub reply now db).outbox
      ≡ map (on_id item.id (settled item sub (taken sub reply) now)) db.outbox
unfolding attempt_item settled
outbox-attempt_item item none reply now db = refl
outbox-attempt_item item (some sub) reply now db =
    let db' = (deliver_with_retry (delivery_of item sub) (λ attempt. reply) 1 false now db).1 in
    let ok = (deliver_with_retry (delivery_of item sub) (λ attempt. reply) 1 false now db).0 in
    let r = delivered_active (delivery_of item sub) reply now db in
    outbox-settle item sub now ok db'
    ∙ ap₂ (λ b o. map (on_id item.id (settled item (some sub) b now)) o) r.0 r.1

-- Processing an item is two updates of the row with its id.
pub outbox-process_item :
    (item : OutboxItem) (reply : Reply) (now : ℕ) (db : Database)
    → (process_item item reply now db).outbox
      ≡ map
          (on_id item.id (
            settled item
              (get_subscription item.subscription_id db)
              (taken (get_subscription item.subscription_id db) reply)
              now))
          (map (on_id item.id (mark_delivering now)) db.outbox)
unfolding process_item update_item get_subscription
outbox-process_item item reply now db =
    outbox-attempt_item item (get_subscription item.subscription_id db) reply now
      (update_item item.id (mark_delivering now) db)

subscriptions-upsert_dlq :
    (d : Delivery) (reason : String) (count now : ℕ) (db : Database)
    → (upsert_dlq d reason count now db).subscriptions ≡ db.subscriptions
unfolding upsert_dlq
subscriptions-upsert_dlq d reason count now db = refl

subscriptions-settle :
    (item : OutboxItem) (sub : Subscription) (now : ℕ) (ok : Bool) (db : Database)
    → (settle item sub now ok db).subscriptions ≡ db.subscriptions
unfolding settle
subscriptions-settle item sub now true db = refl
subscriptions-settle item sub now false db =
    elim (Bool-cases (leb item.max_attempts (item.attempts + 1))) [
      | inl last ↦ rw last refl
      | inr more ↦ rw more refl
    ]

subscriptions-delivery :
    (d : Delivery) (reply : Reply) (now : ℕ) (db : Database)
    → (deliver_with_retry d (λ attempt. reply) 1 false now db).1.subscriptions ≡ db.subscriptions
subscriptions-delivery d reply now db = elim (Bool-cases d.subscription.active) [
  | inl on ↦ (deliver_with_retry-IsAttempted d (λ attempt. reply) 1 false now db on).0.subscriptions
  | inr off ↦
      ap (λ (o : Bool × Database). o.1.subscriptions)
        (deliver_with_retry-inactive d (λ attempt. reply) 1 false now db off)
]

subscriptions-attempt_item :
    (item : OutboxItem) (sub : Option Subscription) (reply : Reply) (now : ℕ) (db : Database)
    → (attempt_item item sub reply now db).subscriptions ≡ db.subscriptions
unfolding attempt_item update_item
subscriptions-attempt_item item none reply now db = refl
subscriptions-attempt_item item (some sub) reply now db =
    let r = deliver_with_retry (delivery_of item sub) (λ attempt. reply) 1 false now db in
    subscriptions-settle item sub now r.0 r.1
    ∙ subscriptions-delivery (delivery_of item sub) reply now db

pub subscriptions-process_item :
    (item : OutboxItem) (reply : Reply) (now : ℕ) (db : Database)
    → (process_item item reply now db).subscriptions ≡ db.subscriptions
unfolding process_item update_item
subscriptions-process_item item reply now db =
    subscriptions-attempt_item item
      (get_subscription item.subscription_id (update_item item.id (mark_delivering now) db)) reply
      now (update_item item.id (mark_delivering now) db)
