-- ===== src/Runtime/Outbox/Invariant.antt =====
-- What holds of the outbox between polls, and what a poll brings forward.
use schema_pilot_api_contrac.Base.{
  ℕ, ◌+◌, ◌≤◌, ◌≡◌, refl, ◌∙◌, sym, ap, subst, inl, inr, Bool-cases, Bool, true, false, ◌&&◌,
  Option, none, some, List, [], map, arith, leb, ltb, nat_eq,
}
use schema_pilot_api_contrac.Base.Sequence.{
  Elem, length, filter, sort_by, Elem-filter_of, Elem-sort_by_of, Elem-take_of, length-sort_by,
}
use schema_pilot_api_contrac.Base.Keyed.{
  DistinctKeys, has_id, has_id-Elem, Elem-has_id, Elem-map, Elem-map_of, DistinctKeys-map,
  filter-empty,
}
use schema_pilot_api_contrac.Runtime.Database.{
  Database, Subscription, OutboxItem, pending, delivering, failed, delivered,
}
use schema_pilot_api_contrac.Runtime.Webhook.{Reply}
use schema_pilot_api_contrac.Runtime.Outbox.{is_pending, due_items, mark_retry, poll_once}
use schema_pilot_api_contrac.Runtime.Outbox.Backoff.{backoff_seconds_bounds}
use schema_pilot_api_contrac.Runtime.Outbox.Transitions.{taken, settled, id-settled}
use schema_pilot_api_contrac.Runtime.Outbox.Polling.{
  id_of, sub_in, done, polled, is_due, due_items-due, due_items-row, poll_once-polled,
}

-- A pending row has an attempt left, none is being delivered, and no row has more attempts than its limit.
unfoldable pub sound : OutboxItem → Bool
sound o = elim o.status [
  | pending ↦ ltb o.attempts o.max_attempts
  | delivering ↦ false
  | failed ↦ leb o.attempts o.max_attempts
  | delivered ↦ leb 1 o.attempts && leb o.attempts o.max_attempts
]

pub record IsSound (db : Database) : Type 0 where
  pub distinct : DistinctKeys id_of db.outbox
  pub rows : (o : OutboxItem) → Elem o db.outbox → sound o ≡ true

sound-settled :
    (o : OutboxItem) (sub : Option Subscription) (ok : Bool) (now : ℕ)
    → sound o ≡ true
    → is_pending o ≡ true
    → sound (settled o sub ok now o) ≡ true
unfolding sound settled mark_retry
sound-settled o none ok now h p = ground arith
sound-settled o (some sub) true now h p = ground arith
sound-settled o (some sub) false now h p = ground arith

is_due-settled :
    (o : OutboxItem) (sub : Option Subscription) (ok : Bool) (now : ℕ)
    → is_due now (settled o sub ok now o) ≡ false
unfolding settled mark_retry
is_due-settled o none ok now = refl
is_due-settled o (some sub) true now = refl
is_due-settled o (some sub) false now = ground (arith, backoff_seconds_bounds (o.attempts + 1))

module _ (n : ℕ) (replies : OutboxItem → Reply) (now : ℕ) (db : Database) where
  abbrev items : List OutboxItem
  items = due_items n now db

  abbrev next : OutboxItem → OutboxItem
  next = polled db.subscriptions replies now items

  next_listed :
      (o : OutboxItem)
      → has_id id_of o.id items ≡ true
      → next o ≡ done db.subscriptions replies now o o
  unfolding polled
  next_listed o h = rw h refl

  next_unlisted : (o : OutboxItem) → has_id id_of o.id items ≡ false → next o ≡ o
  unfolding polled
  next_unlisted o h = rw h refl

  abbrev sub_of : OutboxItem → Option Subscription
  sub_of o = sub_in db.subscriptions o.subscription_id

  id-next : (o : OutboxItem) → (next o).id ≡ o.id
  id-next o = elim (Bool-cases (has_id id_of o.id items)) [
    | inl e ↦
        ap id_of (next_listed o e) ∙ id-settled o (sub_of o) (taken (sub_of o) (replies o)) now o
    | inr e ↦ ap id_of (next_unlisted o e)
  ]

  -- A row with the id of an item of the batch is that item, and due.
  listed-is_due :
      (o : OutboxItem)
      → DistinctKeys id_of db.outbox
      → Elem o db.outbox
      → has_id id_of o.id items ≡ true
      → is_due now o ≡ true
  listed-is_due o d there e =
      let (item, listed, same) = has_id-Elem id_of o.id items e in
      subst (λ i. is_due now i ≡ true) (due_items-row n now db item o d there listed same)
        (due_items-due n now db item listed).1

  sound-next :
      (o : OutboxItem)
      → DistinctKeys id_of db.outbox
      → Elem o db.outbox
      → sound o ≡ true
      → sound (next o) ≡ true
  sound-next o d there h = elim (Bool-cases (has_id id_of o.id items)) [
    | inl e ↦
        ap sound (next_listed o e)
        ∙ sound-settled o (sub_of o) (taken (sub_of o) (replies o)) now h
            (ground (arith, listed-is_due o d there e))
    | inr e ↦ ap sound (next_unlisted o e) ∙ h
  ]

  -- A poll keeps the outbox sound, whatever the replies are: ids stay distinct, a pending row has an attempt
  -- left, no row stays marked as being delivered, and none has more attempts than its limit.
  pub poll_once-IsSound : IsSound db → IsSound (poll_once n replies now db).1
  poll_once-IsSound s =
      let e = (poll_once-polled n replies now db s.distinct).0 in
      record {
        distinct =
            subst (DistinctKeys id_of) (sym e)
              (DistinctKeys-map id_of next id-next db.outbox s.distinct);
        rows = λ o there.
            let (old, here, made) = Elem-map next o db.outbox (subst (Elem o) e there) in
            subst (λ r. sound r ≡ true) made (sound-next old s.distinct here (s.rows old here));
      }

  due-listed :
      (o : OutboxItem)
      → length (filter (is_due now) db.outbox) ≤ n
      → Elem o db.outbox
      → is_due now o ≡ true
      → has_id id_of o.id items ≡ true
  unfolding due_items
  due-listed o small there due =
      let found = filter (is_due now) db.outbox in
      Elem-has_id id_of o items (
        Elem-take_of n o (sort_by (λ i. i.created_at) found)
          (omega (arith, length-sort_by (λ (i : OutboxItem). i.created_at) found))
          (Elem-sort_by_of (λ i. i.created_at) o found
            (Elem-filter_of (is_due now) o db.outbox there due)))

  not_due-next :
      (o : OutboxItem)
      → length (filter (is_due now) db.outbox) ≤ n
      → Elem o db.outbox
      → is_due now (next o) ≡ false
  not_due-next o small there = elim (Bool-cases (has_id id_of o.id items)) [
    | inl e ↦
        ap (is_due now) (next_listed o e)
        ∙ is_due-settled o (sub_of o) (taken (sub_of o) (replies o)) now
    | inr e ↦ ap (is_due now) (next_unlisted o e) ∙ (elim (Bool-cases (is_due now o)) [
      | inl due ↦ let l = due-listed o small there due in cc
      | inr not_due ↦ not_due
    ])
  ]

  -- Where no two rows have one id and the due rows fit in one batch, no row is due after the poll at the
  -- same time: each was delivered, has failed, or waits.
  pub poll_once-drains :
      DistinctKeys id_of db.outbox
      → length (filter (is_due now) db.outbox) ≤ n
      → filter (is_due now) (poll_once n replies now db).1.outbox ≡ []
  poll_once-drains d small =
      ap (filter (is_due now)) (poll_once-polled n replies now db d).0
      ∙ filter-empty (is_due now) (map next db.outbox) (λ o there.
        let (old, here, made) = Elem-map next o db.outbox there in
        subst (λ r. is_due now r ≡ false) made (not_due-next old small here))

  unlisted :
      (o : OutboxItem)
      → DistinctKeys id_of db.outbox
      → Elem o db.outbox
      → is_due now o ≡ false
      → has_id id_of o.id items ≡ false
  unlisted o d there late = elim (Bool-cases (has_id id_of o.id items)) [
    | inl e ↦ let due = listed-is_due o d there e in cc
    | inr e ↦ e
  ]

  -- Where no two rows have one id, a row that is not due stays as it is: one that waits, one that was
  -- delivered or has failed, and also one that is marked as being delivered.
  pub poll_once-not_due :
      (o : OutboxItem)
      → DistinctKeys id_of db.outbox
      → Elem o db.outbox
      → is_due now o ≡ false
      → Elem o (poll_once n replies now db).1.outbox
  poll_once-not_due o d there late = subst (Elem o) (sym (poll_once-polled n replies now db d).0) (
      subst (λ r. Elem r (map next db.outbox)) (next_unlisted o (unlisted o d there late))
        (Elem-map_of next o db.outbox there))
