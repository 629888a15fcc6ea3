-- ===== src/Runtime/System/Reachable.antt =====
-- What holds of every database that the runtime's steps lead to.
use schema_pilot_api_contrac.Base.{
  ℕ, ◌+◌, ◌≡◌, refl, ◌∙◌, sym, ap, subst, inl, inr, Bool-cases, Option-cases, String, Bool, Option,
  none, some, false, List, ◌∷◌, arith, ◌==◌, nat_eq,
}
use schema_pilot_api_contrac.Base.Result.{
  Result, ok, raised, integrity_error, ◌>>=◌, >>=-eq-ok, ok-injective,
}
use schema_pilot_api_contrac.Base.Sequence.{Elem, length, find?}
use schema_pilot_api_contrac.Json.{Json}
use schema_pilot_api_contrac.Schema.{Schema}
use schema_pilot_api_contrac.Runtime.Models.{name}
use schema_pilot_api_contrac.Runtime.Canonical.{canonicalize}
use schema_pilot_api_contrac.Runtime.Classifier.{
  DiffItem, diff_and_classify, summarize_classification,
}
use schema_pilot_api_contrac.Runtime.Database.{
  Database, Endpoint, SchemaVersionRecord, Subscription, EventPayload, DlqEntry, OutboxItem,
}
use schema_pilot_api_contrac.Runtime.Registry.{EndpointKey, one}
use schema_pilot_api_contrac.Runtime.Registry.Registration.{upsert_schema_version-Registers}
use schema_pilot_api_contrac.Runtime.Subscriptions.{
  NewSubscription, Patch, is_empty, create_subscription, update_subscription,
  select_affected_subscriptions,
}
use schema_pilot_api_contrac.Runtime.Webhook.{
  Reply, deliver_with_retry, get_dlq_entry, newest_subscription, replay_with, replay_dlq_entry,
}
use schema_pilot_api_contrac.Runtime.Webhook.DeadLetters.{DistinctEntries}
use schema_pilot_api_contrac.Runtime.Webhook.Delivering.{
  outbox-deliver_with_retry, outbox_pending-deliver_with_retry,
}
use schema_pilot_api_contrac.Runtime.Webhook.Replaying.{redelivery}
use schema_pilot_api_contrac.Runtime.Outbox.{count_pending, due_items, poll_once}
use schema_pilot_api_contrac.Runtime.Outbox.Invariant.{IsSound, poll_once-IsSound}
use schema_pilot_api_contrac.Runtime.Service.{
  Tracked, unchanged, enqueue_webhook_outbox, set_classification, announce, compared_with,
  follow_up, track_contract,
}
use schema_pilot_api_contrac.Runtime.Service.Lineages.{
  HasLineages-classified, track_contract-follow_up,
}
use schema_pilot_api_contrac.Runtime.System.{
  Step, tracks, subscribes, patches, replays, polls, Reach, starts, steps,
}
use schema_pilot_api_contrac.Runtime.System.Frame.{
  IsFramed, deliver_with_retry-IsFramed, process_items-IsFramed,
}
use schema_pilot_api_contrac.Runtime.System.Requests.{IsReady, IsSound-outbox, enqueue_all-IsReady}
use schema_pilot_api_contrac.Runtime.System.Registered.{upsert_schema_version-Left}

-- Frame, outbox, and the gauge of its pending rows.
pub record IsConsistent (db : Database) : Type 0 where
  pub framed : IsFramed db
  pub sound : IsSound db
  pub counted : db.outbox_pending ≡ count_pending db.outbox

-- A result that is returned, and its database.
returned :
    {A : Type 0} (made : A × Database) (a : A) (db' : Database)
    → ok made ≡ ok (a, db')
    → IsConsistent made.1
    → IsConsistent db'
returned {A} made a db' e h =
    subst IsConsistent (ap (λ (p : A × Database). p.1) (ok-injective made (a, db') e)) h

module _ (inline_delivery : Bool) (replies : Subscription → Reply) (now : ℕ) where
  enqueue_webhook_outbox-IsConsistent :
      (payload : EventPayload) (db : Database)
      → IsReady db
      → IsConsistent (enqueue_webhook_outbox inline_delivery replies payload now db).1
  unfolding enqueue_webhook_outbox
  enqueue_webhook_outbox-IsConsistent payload db h =
      let affected =
        select_affected_subscriptions payload.endpoint_id payload.new_version payload.classification
          db in
      let ready = enqueue_all-IsReady inline_delivery replies payload now affected db h in
      record {
        framed = record {
          lineages = ready.framed.lineages;
          spent = ready.framed.spent;
          letters = ready.framed.letters;
          gauge = ready.framed.gauge;
        };
        sound = record { distinct = ready.sound.distinct; rows = ready.sound.rows };
        counted = refl;
      }

  announce-IsConsistent :
      (e : Endpoint) (row prior : SchemaVersionRecord) (fp : String) (diffs : List DiffItem)
      (db : Database)
      → IsConsistent db
      → IsConsistent (announce inline_delivery replies e row prior fp diffs now db).1
  unfolding announce set_classification
  announce-IsConsistent e row prior fp diffs db h =
      let classification = name (summarize_classification diffs) in
      let payload : EventPayload = record {
        event_id = db.next_id;
        endpoint_id = e.id;
        classification = classification;
        new_version = row.version;
        diffs = diffs;
      } in
      let db' : Database = record (set_classification row.id classification db) {
        next_id = db.next_id + 1;
      } in
      enqueue_webhook_outbox-IsConsistent payload db' (record {
        framed = record {
          lineages = HasLineages-classified row.id classification db h.framed.lineages;
          spent = λ o there. omega (arith, h.framed.spent o there);
          letters = h.framed.letters;
          gauge = h.framed.gauge;
        };
        sound = IsSound-outbox db db' refl h.sound;
      })

  follow_up-IsConsistent :
      (e : Endpoint) (row : SchemaVersionRecord) (inserted : Bool) (fp : String) (schema : Schema)
      (db db' : Database) (t : Tracked)
      → IsConsistent db
      → follow_up inline_delivery replies e row inserted fp schema now db ≡ ok (t, db')
      → IsConsistent db'
  unfolding follow_up
  follow_up-IsConsistent e row inserted fp schema db db' t h out =
      elim (Option-cases (compared_with inserted row)) [
        | inl alone ↦
            returned (unchanged e row fp inserted, db) t db' (rw (alone, follow_up) at out) h
        | inr (previous, behind) ↦
            let conclude : SchemaVersionRecord → List DiffItem → Result (Tracked × Database) =
              λ prior diffs. ok (announce inline_delivery replies e row prior fp diffs now db) in
            let compare : SchemaVersionRecord → Result (Tracked × Database) =
              λ prior. diff_and_classify prior.canonical_schema schema >>= conclude prior in
            let found = one (find? (λ v. v.id == previous) db.versions) in
            let out' : (found >>= compare) ≡ ok (t, db') = rw (behind, follow_up) at out in
            let (prior, there, rest) = >>=-eq-ok found compare out' in
            let (diffs, judged, end) =
              >>=-eq-ok (diff_and_classify prior.canonical_schema schema) (conclude prior) rest in
            returned (announce inline_delivery replies e row prior fp diffs now db) t db' end
              (announce-IsConsistent e row prior fp diffs db h)
      ]

  track_contract-IsConsistent :
      (fingerprint : Schema → String) (k : EndpointKey) (payload : Json) (db db' : Database)
      (t : Tracked)
      → IsConsistent db
      → track_contract fingerprint inline_delivery replies k payload now db ≡ ok (t, db')
      → IsConsistent db'
  track_contract-IsConsistent fingerprint k payload db db' t h out =
      let schema = canonicalize payload in
      let fp = fingerprint schema in
      let r = upsert_schema_version-Registers k fp schema "SAFE" db h.framed.lineages in
      let aside =
        upsert_schema_version-Left fp schema "SAFE" k db (r.endpoint, r.row, r.inserted) r.db'
          r.returned in
      let registered : IsConsistent r.db' = record {
        framed = record {
          lineages = r.registered.lineages;
          spent = λ o there.
              omega (arith, h.framed.spent o (subst (Elem o) aside.outbox there), aside.drawn);
          letters = subst DistinctEntries (sym aside.dlq) h.framed.letters;
          gauge = aside.dlq_size ∙ h.framed.gauge ∙ ap length (sym aside.dlq);
        };
        sound = IsSound-outbox db r.db' aside.outbox h.sound;
        counted = aside.outbox_pending ∙ h.counted ∙ ap count_pending (sym aside.outbox);
      } in
      follow_up-IsConsistent r.endpoint r.row r.inserted fp schema r.db' db' t registered (
        sym (
          track_contract-follow_up inline_delivery replies now fingerprint k payload db r.db'
            r.endpoint r.row r.inserted r.returned)
        ∙ out)

abbrev subscription_row : NewSubscription → ℕ → ℕ → Subscription
subscription_row new now id = record {
  id = id;
  consumer_id = new.consumer_id;
  endpoint_id = new.endpoint_id;
  target_url = new.target_url;
  severity_threshold = new.severity_threshold;
  schema_version = new.schema_version;
  active = new.active;
  created_at = now;
  updated_at = now;
}

create_subscription-IsConsistent :
    (new : NewSubscription) (now : ℕ) (sub : Subscription) (db db' : Database)
    → IsConsistent db
    → create_subscription new now db ≡ ok (sub, db')
    → IsConsistent db'
unfolding create_subscription
create_subscription-IsConsistent new now sub db db' h out =
    elim (Option-cases (find? (λ e. e.id == new.endpoint_id) db.endpoints)) [
      | inl absent ↦
          let refused : ◌≡◌ {A = Result (Subscription × Database)} (raised integrity_error)
              (ok (sub, db')) =
            rw (absent, create_subscription) at out in
          ground arith
      | inr (e, there) ↦
          let row = subscription_row new now db.next_id in
          let db'' : Database = record db {
            next_id = db.next_id + 1;
            subscriptions = row ∷ db.subscriptions;
          } in
          returned (row, db'') sub db' (rw (there, create_subscription) at out)
            (record {
              framed = record {
                lineages = h.framed.lineages;
                spent = λ o there. omega (arith, h.framed.spent o there);
                letters = h.framed.letters;
                gauge = h.framed.gauge;
              };
              sound = record { distinct = h.sound.distinct; rows = h.sound.rows };
              counted = h.counted;
            })
    ]

update_subscription-IsConsistent :
    (i : ℕ) (p : Patch) (now : ℕ) (db : Database)
    → IsConsistent db
    → IsConsistent (update_subscription i p now db).1
unfolding update_subscription
update_subscription-IsConsistent i p now db h = elim (Bool-cases (is_empty p)) [
  | inl e ↦ rw e h
  | inr e ↦ rw e (record {
    framed = record {
      lineages = h.framed.lineages;
      spent = h.framed.spent;
      letters = h.framed.letters;
      gauge = h.framed.gauge;
    };
    sound = record { distinct = h.sound.distinct; rows = h.sound.rows };
    counted = h.counted;
  })
]

replay_with-IsConsistent :
    (entry : DlqEntry) (sub : Option Subscription) (reply : Reply) (now : ℕ) (db : Database)
    → IsConsistent db
    → IsConsistent (replay_with entry sub reply now db).1
unfolding replay_with
replay_with-IsConsistent entry none reply now db h = h
replay_with-IsConsistent entry (some sub) reply now db h =
    let d = redelivery entry sub in
    let after = (deliver_with_retry d (λ attempt. reply) 1 false now db).1 in
    let same : after.outbox ≡ db.outbox =
      outbox-deliver_with_retry d (λ attempt. reply) 1 false now db in
    record {
      framed = deliver_with_retry-IsFramed d (λ attempt. reply) 1 false now db h.framed;
      sound = IsSound-outbox db after same h.sound;
      counted =
          outbox_pending-deliver_with_retry d (λ attempt. reply) 1 false now db
          ∙ h.counted
          ∙ ap count_pending (sym same);
    }

replay_dlq_entry-IsConsistent :
    (i : ℕ) (reply : Reply) (now : ℕ) (db : Database)
    → IsConsistent db
    → IsConsistent (replay_dlq_entry i reply now db).1
unfolding replay_dlq_entry
replay_dlq_entry-IsConsistent i reply now db h = elim (Option-cases (get_dlq_entry i db)) [
  | inl absent ↦ rw (absent, replay_dlq_entry) h
  | inr (entry, there) ↦
      rw (there, replay_dlq_entry)
        (replay_with-IsConsistent entry (newest_subscription entry.endpoint_id entry.consumer_id db)
          reply now db h)
]

poll_once-IsConsistent :
    (n : ℕ) (replies : OutboxItem → Reply) (now : ℕ) (db : Database)
    → IsConsistent db
    → IsConsistent (poll_once n replies now db).1
unfolding poll_once
poll_once-IsConsistent n replies now db h =
    let framed = process_items-IsFramed (due_items n now db) replies now db h.framed in
    record {
      framed = record {
        lineages = framed.lineages;
        spent = framed.spent;
        letters = framed.letters;
        gauge = framed.gauge;
      };
      sound = poll_once-IsSound n replies now db h.sound;
      counted = refl;
    }

Step-IsConsistent : {db db' : Database} → Step db db' → IsConsistent db → IsConsistent db'
Step-IsConsistent {db} {db'} (tracks fingerprint inline_delivery replies k payload now t e) h =
    track_contract-IsConsistent inline_delivery replies now fingerprint k payload db db' t h e
Step-IsConsistent {db} {db'} (subscribes new now sub e) h =
    create_subscription-IsConsistent new now sub db db' h e
Step-IsConsistent {db} (patches i p now e) h =
    subst IsConsistent e (update_subscription-IsConsistent i p now db h)
Step-IsConsistent {db} (replays i reply now e) h =
    subst IsConsistent e (replay_dlq_entry-IsConsistent i reply now db h)
Step-IsConsistent {db} (polls n replies now e) h =
    subst IsConsistent e (poll_once-IsConsistent n replies now db h)

-- In every database that requests, polls, replays and changes of subscriptions lead to from empty tables, in
-- any order: each endpoint's versions count down to 1, each linked to the one before it, no fingerprint twice,
-- and the newest alone current; no two outbox rows have one id, none is left marked as being delivered, a
-- pending one has an attempt left and none has more attempts than its limit; no event and consumer has two
-- dead letters; and the gauges show the number of pending rows and of dead letters.
pub Reach-IsConsistent : {db : Database} → Reach db → IsConsistent db
Reach-IsConsistent starts = record {
  framed = record {
    lineages = λ e. record { chain = tt; current = tt; distinct = tt };
    spent = λ o there. elim there [ ];
    letters = tt;
    gauge = refl;
  };
  sound = record { distinct = tt; rows = λ o there. elim there [ ] };
  counted = refl;
}
Reach-IsConsistent (steps before step) = Step-IsConsistent step (Reach-IsConsistent before)
