-- ===== src/Runtime/System/Requests.antt =====
-- What a request to POST /track keeps of the whole database.
use schema_pilot_api_contrac.Base.{
  ℕ, ◌+◌, ◌<◌, ◌≢◌, ◌≡◌, refl, sym, subst, inl, inr, Bool-cases, Bool, true, false, List, [], ◌∷◌,
  arith, ◌==◌, nat_eq,
}
use schema_pilot_api_contrac.Base.Sequence.{Elem, All-every}
use schema_pilot_api_contrac.Base.Keyed.{
  DistinctKeys, DistinctKeys-map, DistinctKeys-unique, Elem-map,
}
use schema_pilot_api_contrac.Runtime.Database.{Database, Subscription, EventPayload, OutboxItem}
use schema_pilot_api_contrac.Runtime.Webhook.{Reply, deliver_with_retry}
use schema_pilot_api_contrac.Runtime.Webhook.Delivering.{outbox-deliver_with_retry}
use schema_pilot_api_contrac.Runtime.Outbox.{on_id, update_item, mark_delivered}
use schema_pilot_api_contrac.Runtime.Outbox.Polling.{id_of}
use schema_pilot_api_contrac.Runtime.Outbox.Invariant.{sound, IsSound}
use schema_pilot_api_contrac.Runtime.Service.{
  outbox_row, inline_delivery_of, mark_inline_failed, enqueue, enqueue_all,
}
use schema_pilot_api_contrac.Runtime.System.Frame.{
  IsFramed, deliver_with_retry-IsFramed, update_item-IsFramed,
}

-- The frame and the outbox, as they are before and after each row that a request adds.
pub record IsReady (db : Database) : Type 0 where
  pub framed : IsFramed db
  pub sound : IsSound db

-- Soundness looks at the outbox alone.
pub IsSound-outbox : (db db' : Database) → db'.outbox ≡ db.outbox → IsSound db → IsSound db'
IsSound-outbox db db' e s = record {
  distinct = subst (DistinctKeys id_of) (sym e) s.distinct;
  rows = λ o there. s.rows o (subst (Elem o) e there);
}

-- An update of one row that leaves it sound.
update_item-IsSound :
    (row : OutboxItem) (f : OutboxItem → OutboxItem) (db : Database)
    → IsSound db
    → Elem row db.outbox
    → ((o : OutboxItem) → (f o).id ≡ o.id)
    → sound (f row) ≡ true
    → IsSound (update_item row.id f db)
unfolding update_item
update_item-IsSound row f db s here same good = record {
  distinct = DistinctKeys-map id_of (on_id row.id f) kept db.outbox s.distinct;
  rows = λ o there.
      let (old, was, made) = Elem-map (on_id row.id f) o db.outbox there in
      subst (λ r. sound r ≡ true) made (stays old was);
}
  where
    kept : (o : OutboxItem) → (on_id row.id f o).id ≡ o.id
    kept o = elim (Bool-cases (o.id == row.id)) [ inl e ↦ rw e (same o) | inr e ↦ rw e refl ]

    stays : (old : OutboxItem) → Elem old db.outbox → sound (on_id row.id f old) ≡ true
    stays old was = elim (Bool-cases (old.id == row.id)) [
      | inl e ↦
          let it : old ≡ row =
            DistinctKeys-unique id_of old row db.outbox s.distinct was here (ground arith) in
          rw e (subst (λ r. sound (f r) ≡ true) (sym it) good)
      | inr e ↦ rw e (s.rows old was)
    ]

module _ (inline_delivery : Bool) (replies : Subscription → Reply) (payload : EventPayload)
    (now : ℕ) where
  abbrev row_for : Subscription → Database → OutboxItem
  row_for sub db = outbox_row db.next_id sub payload now

  abbrev added : Subscription → Database → Database
  added sub db = record db { next_id = db.next_id + 1; outbox = row_for sub db ∷ db.outbox }

  added-IsReady : (sub : Subscription) (db : Database) → IsReady db → IsReady (added sub db)
  unfolding sound
  added-IsReady sub db h = record {
    framed = record {
      lineages = h.framed.lineages;
      spent = λ o there. elim there [
        | inl e ↦ subst (λ (r : OutboxItem). r.id < db.next_id + 1) e (omega arith)
        | inr old ↦ omega (arith, h.framed.spent o old)
      ];
      letters = h.framed.letters;
      gauge = h.framed.gauge;
    };
    sound = record {
      distinct = (
        All-every (λ (o : OutboxItem). o.id ≢ db.next_id) db.outbox
            (λ o old same. omega (arith, h.framed.spent o old, same)),
        h.sound.distinct,
      );
      rows = λ o there. elim there [
        | inl e ↦ subst (λ r. sound r ≡ true) e refl
        | inr old ↦ h.sound.rows o old
      ];
    };
  }

  abbrev mark : Bool → OutboxItem → OutboxItem
  mark true = mark_delivered now
  mark false = mark_inline_failed now

  id-mark : (b : Bool) (o : OutboxItem) → (mark b o).id ≡ o.id
  id-mark true o = refl
  id-mark false o = refl

  sound-mark :
      (b : Bool) (sub : Subscription) (db : Database) → sound (mark b (row_for sub db)) ≡ true
  unfolding sound
  sound-mark true sub db = refl
  sound-mark false sub db = refl

  sent-IsReady :
      (sub : Subscription) (db : Database) (b : Bool)
      → IsReady db
      → IsReady (
          update_item db.next_id
            (mark b)
            (deliver_with_retry
              (inline_delivery_of sub payload)
              (λ attempt. replies sub)
              1
              true
              now
              (added sub db)).1)
  sent-IsReady sub db b h =
      let d = inline_delivery_of sub payload in
      let ready = added-IsReady sub db h in
      let after = (deliver_with_retry d (λ attempt. replies sub) 1 true now (added sub db)).1 in
      let same : after.outbox ≡ row_for sub db ∷ db.outbox =
        outbox-deliver_with_retry d (λ attempt. replies sub) 1 true now (added sub db) in
      record {
        framed = update_item-IsFramed db.next_id (mark b) after (id-mark b) (
            deliver_with_retry-IsFramed d (λ attempt. replies sub) 1 true now (added sub db)
              ready.framed);
        sound =
            update_item-IsSound (row_for sub db) (mark b) after
              (IsSound-outbox (added sub db) after same ready.sound)
              (subst (Elem (row_for sub db)) (sym same) (inl refl)) (id-mark b)
              (sound-mark b sub db);
      }

  enqueue-IsReady :
      (sub : Subscription) (db : Database)
      → IsReady db
      → IsReady (enqueue inline_delivery replies payload now sub db)
  unfolding enqueue
  enqueue-IsReady sub db h =
      let sent =
        deliver_with_retry (inline_delivery_of sub payload) (λ attempt. replies sub) 1 true now
          (added sub db) in
      elim (Bool-cases inline_delivery) [
        | inl on ↦ elim (Bool-cases sent.0) [
          | inl good ↦ rw (on, good) (sent-IsReady sub db true h)
          | inr bad ↦ rw (on, bad) (sent-IsReady sub db false h)
        ]
        | inr off ↦ rw off (added-IsReady sub db h)
      ]

  pub enqueue_all-IsReady :
      (subs : List Subscription) (db : Database)
      → IsReady db
      → IsReady (enqueue_all inline_delivery replies payload now subs db)
  unfolding enqueue_all
  enqueue_all-IsReady [] db h = h
  enqueue_all-IsReady (sub ∷ subs) db h =
      enqueue_all-IsReady subs (enqueue inline_delivery replies payload now sub db)
        (enqueue-IsReady sub db h)
