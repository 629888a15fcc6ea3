-- ===== src/Runtime/System/Frame.antt =====
-- What every operation of the runtime on the database keeps, the steps inside a poll or a request included.
use schema_pilot_api_contrac.Base.{
  ℕ, zero, suc, ◌+◌, ◌<◌, ◌≡◌, refl, ◌∙◌, sym, ap, subst, inl, inr, Bool-cases, String, Bool, true,
  false, Option, none, some, List, [], ◌∷◌, arith, leb, ◌==◌, nat_eq,
}
use schema_pilot_api_contrac.Base.Sequence.{Elem, length}
use schema_pilot_api_contrac.Base.Keyed.{Elem-map}
use schema_pilot_api_contrac.Runtime.Database.{Database, Subscription, OutboxItem}
use schema_pilot_api_contrac.Runtime.Subscriptions.{get_subscription}
use schema_pilot_api_contrac.Runtime.Registry.Upsert.{HasLineages}
use schema_pilot_api_contrac.Runtime.Webhook.{
  Reply, Delivery, accepted, reason_of, log_success, log_failure, upsert_dlq, give_up,
  attempts_from, deliver_with_retry,
}
use schema_pilot_api_contrac.Runtime.Webhook.DeadLetters.{DistinctEntries, upsert_dlq-IsUpserted}
use schema_pilot_api_contrac.Runtime.Outbox.{
  on_id, update_item, mark_delivering, mark_orphan, mark_delivered, mark_failed, mark_retry,
  delivery_of, settle, attempt_item, process_item, process_items,
}

-- Every endpoint has a lineage of versions, the ids of the outbox are spent, no event and consumer has two
-- dead letters, and the gauge shows the size of their queue.
pub record IsFramed (db : Database) : Type 0 where
  pub lineages : HasLineages db
  pub spent : (o : OutboxItem) → Elem o db.outbox → o.id < db.next_id
  pub letters : DistinctEntries db.dlq
  pub gauge : db.dlq_size ≡ length db.dlq

module _ (d : Delivery) (replies : ℕ → Reply) (max_attempts : ℕ) (persist_dlq : Bool)
    (now : ℕ) where
  log_success-IsFramed :
      (attempt : ℕ) (db : Database) → IsFramed db → IsFramed (log_success d attempt now db)
  unfolding log_success
  log_success-IsFramed attempt db h = record {
    lineages = h.lineages;
    spent = h.spent;
    letters = h.letters;
    gauge = h.gauge;
  }

  log_failure-IsFramed :
      (attempt : ℕ) (reason : String) (db : Database)
      → IsFramed db
      → IsFramed (log_failure d attempt reason now db)
  unfolding log_failure
  log_failure-IsFramed attempt reason db h = record {
    lineages = h.lineages;
    spent = h.spent;
    letters = h.letters;
    gauge = h.gauge;
  }

  pub upsert_dlq-IsFramed :
      (reason : String) (count : ℕ) (db : Database)
      → IsFramed db
      → IsFramed (upsert_dlq d reason count now db)
  unfolding upsert_dlq
  upsert_dlq-IsFramed reason count db h = record {
    lineages = h.lineages;
    spent = λ o there. omega (arith, h.spent o there);
    letters = (upsert_dlq-IsUpserted d reason count now db h.letters).1;
    gauge = refl;
  }

  give_up-IsFramed :
      (attempt : ℕ) (db : Database)
      → IsFramed db
      → IsFramed (give_up d replies max_attempts persist_dlq now attempt db).1
  unfolding give_up
  give_up-IsFramed attempt db h = elim (Bool-cases persist_dlq) [
    | inl e ↦ rw e (upsert_dlq-IsFramed (reason_of (replies attempt)) attempt db h)
    | inr e ↦ rw e h
  ]

  attempts_from-IsFramed :
      (rounds attempt : ℕ) (db : Database)
      → IsFramed db
      → IsFramed (attempts_from d replies max_attempts persist_dlq now rounds attempt db).1
  unfolding attempts_from
  attempts_from-IsFramed zero attempt db h = h
  attempts_from-IsFramed (suc rounds) attempt db h =
      let failed = log_failure d attempt (reason_of (replies attempt)) now db in
      let h' : IsFramed failed = log_failure-IsFramed attempt (reason_of (replies attempt)) db h in
      elim (Bool-cases (accepted (replies attempt))) [
        | inl good ↦ rw good (log_success-IsFramed attempt db h)
        | inr bad ↦ elim (Bool-cases (attempt == max_attempts)) [
          | inl last ↦ rw (bad, last) (give_up-IsFramed attempt failed h')
          | inr more ↦ rw (bad, more) (attempts_from-IsFramed rounds (attempt + 1) failed h')
        ]
      ]

  pub deliver_with_retry-IsFramed :
      (db : Database)
      → IsFramed db
      → IsFramed (deliver_with_retry d replies max_attempts persist_dlq now db).1
  unfolding deliver_with_retry
  deliver_with_retry-IsFramed db h = elim (Bool-cases d.subscription.active) [
    | inl on ↦ rw on (attempts_from-IsFramed max_attempts 1 db h)
    | inr off ↦ rw off h
  ]

-- An update that keeps the ids of the rows.
pub update_item-IsFramed :
    (i : ℕ) (f : OutboxItem → OutboxItem) (db : Database)
    → ((o : OutboxItem) → (f o).id ≡ o.id)
    → IsFramed db
    → IsFramed (update_item i f db)
unfolding update_item
update_item-IsFramed i f db same h = record {
  lineages = h.lineages;
  spent = λ o there.
      let (old, here, made) = Elem-map (on_id i f) o db.outbox there in
      let kept : (on_id i f old).id ≡ old.id = elim (Bool-cases (old.id == i)) [
        | inl e ↦ rw e (same old)
        | inr e ↦ rw e refl
      ] in
      subst (λ k. k < db.next_id) (sym kept ∙ ap (λ (r : OutboxItem). r.id) made)
        (h.spent old here);
  letters = h.letters;
  gauge = h.gauge;
}

module _ (item : OutboxItem) (now : ℕ) where
  settle-IsFramed :
      (sub : Subscription) (ok : Bool) (db : Database)
      → IsFramed db
      → IsFramed (settle item sub now ok db)
  unfolding settle mark_retry
  settle-IsFramed sub true db h = update_item-IsFramed item.id (mark_delivered now) db (λ o. refl) h
  settle-IsFramed sub false db h = elim (Bool-cases (leb item.max_attempts (item.attempts + 1))) [
    | inl last ↦ rw last (
        upsert_dlq-IsFramed (delivery_of item sub) (λ attempt. Reply.response 0) 1 false now
          "outbox max attempts exhausted" (item.attempts + 1)
          (update_item item.id (mark_failed (item.attempts + 1) now) db)
          (update_item-IsFramed item.id (mark_failed (item.attempts + 1) now) db (λ o. refl) h))
    | inr more ↦
        rw more (update_item-IsFramed item.id (mark_retry (item.attempts + 1) now) db (λ o. refl) h)
  ]

  attempt_item-IsFramed :
      (sub : Option Subscription) (reply : Reply) (db : Database)
      → IsFramed db
      → IsFramed (attempt_item item sub reply now db)
  unfolding attempt_item
  attempt_item-IsFramed none reply db h =
      update_item-IsFramed item.id (mark_orphan now) db (λ o. refl) h
  attempt_item-IsFramed (some sub) reply db h =
      let sent = deliver_with_retry (delivery_of item sub) (λ attempt. reply) 1 false now db in
      settle-IsFramed sub sent.0 sent.1
        (deliver_with_retry-IsFramed (delivery_of item sub) (λ attempt. reply) 1 false now db h)

  process_item-IsFramed :
      (reply : Reply) (db : Database) → IsFramed db → IsFramed (process_item item reply now db)
  unfolding process_item
  process_item-IsFramed reply db h =
      let db' = update_item item.id (mark_delivering now) db in
      attempt_item-IsFramed (get_subscription item.subscription_id db') reply db'
        (update_item-IsFramed item.id (mark_delivering now) db (λ o. refl) h)

pub process_items-IsFramed :
    (items : List OutboxItem) (replies : OutboxItem → Reply) (now : ℕ) (db : Database)
    → IsFramed db
    → IsFramed (process_items items replies now db)
unfolding process_items
process_items-IsFramed [] replies now db h = h
process_items-IsFramed (item ∷ items) replies now db h =
    process_items-IsFramed items replies now (process_item item (replies item) now db)
      (process_item-IsFramed item now (replies item) db h)
