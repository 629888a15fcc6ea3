-- ===== src/Runtime/Outbox/Polling.antt =====
-- What one poll does to the whole outbox: the loop against one function of each row.
use schema_pilot_api_contrac.Base.{
  ℕ, ◌≤◌, ◌≡◌, ◌≢◌, refl, ◌∙◌, sym, ap, subst, inl, inr, Bool-cases, Bool, true, ◌&&◌, Option, List,
  [], ◌∷◌, map, arith, leb, ◌==◌, nat_eq, if◌then◌else◌,
}
use schema_pilot_api_contrac.Base.Sequence.{
  Elem, filter, find?, Elem-filter, Elem-sort_by, Elem-take, length-take-le, sort_by,
}
use schema_pilot_api_contrac.Base.Keyed.{
  Free, DistinctKeys, has_id, DistinctKeys-query, DistinctKeys-unique, map-agree, map-map, map-same,
}
use schema_pilot_api_contrac.Runtime.Database.{Database, Subscription, OutboxItem}
use schema_pilot_api_contrac.Runtime.Subscriptions.{get_subscription}
use schema_pilot_api_contrac.Runtime.Webhook.{Reply}
use schema_pilot_api_contrac.Runtime.Outbox.{
  is_pending, due_items, on_id, mark_delivering, process_item, process_items, poll_once,
}
use schema_pilot_api_contrac.Runtime.Outbox.Transitions.{
  taken, settled, id-settled, settled-marked, outbox-process_item, subscriptions-process_item,
}

abbrev pub id_of : OutboxItem → ℕ
id_of o = o.id

-- `get_subscription`, as a query of the table.
abbrev pub sub_in : List Subscription → ℕ → Option Subscription
sub_in subs i = find? (λ s. s.id == i) subs

module _ (subs : List Subscription) (replies : OutboxItem → Reply) (now : ℕ) where
  -- The row that a delivery of it leaves.
  abbrev pub done : OutboxItem → OutboxItem → OutboxItem
  done item =
      settled item (sub_in subs item.subscription_id)
        (taken (sub_in subs item.subscription_id) (replies item)) now

  abbrev step : OutboxItem → OutboxItem → OutboxItem
  step item o = on_id item.id (done item) (on_id item.id (mark_delivering now) o)

  run : List OutboxItem → OutboxItem → OutboxItem
  run [] o = o
  run (item ∷ items) o = run items (step item o)

  -- A row is delivered if it is one of the items, and else left alone.
  unfoldable pub polled : List OutboxItem → OutboxItem → OutboxItem
  polled items o = if has_id id_of o.id items then done o o else o

  step-other : (item o : OutboxItem) → item.id ≢ o.id → step item o ≡ o
  step-other item o ne = ground arith

  step-same : (o : OutboxItem) → step o o ≡ done o o
  step-same o = ground (
    arith,
    settled-marked o (sub_in subs o.subscription_id)
        (taken (sub_in subs o.subscription_id) (replies o)) now o,
  )

  run-Free : (items : List OutboxItem) (o : OutboxItem) → Free id_of o.id items → run items o ≡ o
  unfolding run
  run-Free [] o h = refl
  run-Free (item ∷ items) o h = ap (run items) (step-other item o h.0) ∙ run-Free items o h.1

  run-polled :
      (items : List OutboxItem) (o : OutboxItem)
      → DistinctKeys id_of items
      → ((item : OutboxItem) → Elem item items → item.id ≡ o.id → item ≡ o)
      → run items o ≡ polled items o
  unfolding run polled
  run-polled [] o h u = refl
  run-polled (item ∷ items) o h u = elim (Bool-cases (item.id == o.id)) [
    | inl same ↦
        let e : item ≡ o = u item (inl refl) (ground arith) in
        let free : Free id_of o.id items =
          subst (λ (i : OutboxItem). Free id_of i.id items) e h.0 in
        let kept : (done o o).id ≡ o.id =
          id-settled o (sub_in subs o.subscription_id)
            (taken (sub_in subs o.subscription_id) (replies o)) now o in
        ap (λ i. run items (step i o)) e
        ∙ ap (run items) (step-same o)
        ∙ run-Free items (done o o) (subst (λ i. Free id_of i items) (sym kept) free)
        ∙ rw same refl
    | inr other ↦
        ap (run items) (step-other item o (ground arith))
        ∙ run-polled items o h.1 (λ i later. u i (inr later))
        ∙ rw other refl
  ]

  process_items-run :
      (items : List OutboxItem) (db : Database)
      → db.subscriptions ≡ subs
      → (process_items items replies now db).outbox ≡ map (run items) db.outbox
  unfolding process_items run get_subscription
  process_items-run [] db h = sym (map-same (run []) db.outbox (λ o. refl))
  process_items-run (item ∷ items) db h =
      process_items-run items (process_item item (replies item) now db)
        (subscriptions-process_item item (replies item) now db ∙ h)
      ∙ ap (map (run items)) (outbox-process_item item (replies item) now db)
      ∙ ap
          (λ s. map (run items) (
            map (on_id item.id (settled item s (taken s (replies item)) now))
              (map (on_id item.id (mark_delivering now)) db.outbox)))
          (ap (λ s. sub_in s item.subscription_id) h)
      ∙ ap (map (run items))
          (map-map (on_id item.id (done item)) (on_id item.id (mark_delivering now)) db.outbox)
      ∙ map-map (run items) (step item) db.outbox

-- A due row stands in the outbox and is due.
abbrev pub is_due : ℕ → OutboxItem → Bool
is_due now o = is_pending o && leb o.next_retry_at now

pub due_items-due :
    (n now : ℕ) (db : Database) (o : OutboxItem)
    → Elem o (due_items n now db)
    → Elem o db.outbox × (is_due now o ≡ true)
unfolding due_items
due_items-due n now db o h = Elem-filter (is_due now) o db.outbox (
    Elem-sort_by (λ i. i.created_at) o (filter (is_due now) db.outbox)
      (Elem-take n o (sort_by (λ i. i.created_at) (filter (is_due now) db.outbox)) h))

due_items-DistinctKeys :
    (n now : ℕ) (db : Database)
    → DistinctKeys id_of db.outbox
    → DistinctKeys id_of (due_items n now db)
unfolding due_items
due_items-DistinctKeys n now db h =
    DistinctKeys-query id_of (λ o. o.created_at) n (is_due now) db.outbox h

pub due_items-row :
    (n now : ℕ) (db : Database) (item o : OutboxItem)
    → DistinctKeys id_of db.outbox
    → Elem o db.outbox
    → Elem item (due_items n now db)
    → item.id ≡ o.id
    → item ≡ o
due_items-row n now db item o h there listed same =
    DistinctKeys-unique id_of item o db.outbox h (due_items-due n now db item listed).0 there same

-- Where no two rows have one id, a poll takes at most a batch, and what it leaves is each due row of the
-- batch as its delivery left it, once, with the subscription and the reply of that row, and every other row
-- as it was.
pub poll_once-polled :
    (batch_size : ℕ) (replies : OutboxItem → Reply) (now : ℕ) (db : Database)
    → DistinctKeys id_of db.outbox
    → ((poll_once batch_size replies now db).1.outbox
        ≡ map (polled db.subscriptions replies now (due_items batch_size now db)) db.outbox)
      × ((poll_once batch_size replies now db).0 ≤ batch_size)
unfolding poll_once due_items
poll_once-polled n replies now db h = (
  process_items-run db.subscriptions replies now (due_items n now db) db refl
      ∙ map-agree (run db.subscriptions replies now (due_items n now db))
          (polled db.subscriptions replies now (due_items n now db)) db.outbox
          (λ o there.
            run-polled db.subscriptions replies now (due_items n now db) o
              (due_items-DistinctKeys n now db h)
              (λ item listed same. due_items-row n now db item o h there listed same)),
  length-take-le n (sort_by (λ o. o.created_at) (filter (is_due now) db.outbox)),
)
