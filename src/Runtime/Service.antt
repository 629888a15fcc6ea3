-- ===== src/Runtime/Service.antt =====
-- app/runtime/service.py: what the runtime does with the payload of one request, in one transaction.
-- The document store and the publisher are told of the result and do not change it: the event that is
-- published is part of the model's result.
pub mod Enqueued
pub mod Known
pub mod Lineages
use schema_pilot_api_contrac.Base.{
  ℕ, ◌+◌, String, Bool, true, false, Option, none, some, List, [], ◌∷◌, map, ◌==◌, nat_eq,
  if◌then◌else◌,
}
use schema_pilot_api_contrac.Base.Result.{Result, ok, ◌>>=◌}
use schema_pilot_api_contrac.Base.Sequence.{length, find?}
use schema_pilot_api_contrac.Json.{Json}
use schema_pilot_api_contrac.Schema.{Schema}
use schema_pilot_api_contrac.Runtime.Models.{name}
use schema_pilot_api_contrac.Runtime.Canonical.{canonicalize}
use schema_pilot_api_contrac.Runtime.Classifier.{
  DiffItem, diff_and_classify, summarize_classification,
}
use schema_pilot_api_contrac.Runtime.Database.{
  Database, Endpoint, SchemaVersionRecord, Subscription, EventPayload, OutboxItem, pending, failed,
}
use schema_pilot_api_contrac.Runtime.Registry.{EndpointKey, one, upsert_schema_version}
use schema_pilot_api_contrac.Runtime.Subscriptions.{select_affected_subscriptions}
use schema_pilot_api_contrac.Runtime.Webhook.{Reply, Delivery, deliver_with_retry}
use schema_pilot_api_contrac.Runtime.Outbox.{update_item, mark_delivered, count_pending}

-- INSERT INTO webhook_outbox
abbrev pub outbox_row : ℕ → Subscription → EventPayload → ℕ → OutboxItem
outbox_row id sub payload now = record {
  id = id;
  subscription_id = sub.id;
  endpoint_id = payload.endpoint_id;
  payload = payload;
  status = pending;
  attempts = 0;
  max_attempts = 5;
  next_retry_at = now;
  created_at = now;
  updated_at = now;
}

abbrev pub inline_delivery_of : Subscription → EventPayload → Delivery
inline_delivery_of sub payload = record {
  event_id = payload.event_id;
  endpoint_id = payload.endpoint_id;
  subscription = sub;
  payload = payload;
}

-- SET status = 'FAILED', attempts = attempts + 1
abbrev pub mark_inline_failed : ℕ → OutboxItem → OutboxItem
mark_inline_failed now o = record o { status = failed; attempts = o.attempts + 1; updated_at = now }

module _ (inline_delivery : Bool) (replies : Subscription → Reply) (payload : EventPayload)
    (now : ℕ) where
  -- The body of the loop over the affected subscriptions.
  unfoldable pub enqueue : Subscription → Database → Database
  unfolding deliver_with_retry update_item
  enqueue sub db =
      let row = outbox_row db.next_id sub payload now in
      let db' : Database = record db { next_id = db.next_id + 1; outbox = row ∷ db.outbox } in
      let sent =
        deliver_with_retry (inline_delivery_of sub payload) (λ attempt. replies sub) 1 true now
          db' in
      if inline_delivery
      then update_item row.id (if sent.0 then mark_delivered now else mark_inline_failed now) sent.1
      else db'

  unfoldable pub enqueue_all : List Subscription → Database → Database
  unfolding enqueue
  enqueue_all [] db = db
  enqueue_all (sub ∷ subs) db = enqueue_all subs (enqueue sub db)

  -- `_enqueue_webhook_outbox`
  unfoldable pub enqueue_webhook_outbox : Database → ℕ × Database
  unfolding enqueue_all select_affected_subscriptions
  enqueue_webhook_outbox db =
      let affected =
        select_affected_subscriptions payload.endpoint_id payload.new_version payload.classification
          db in
      let db' = enqueue_all affected db in
      (length affected, record db' { outbox_pending = count_pending db'.outbox })

-- `DriftEvent`
pub record DriftEvent : Type 0 where
  pub event_id : ℕ
  pub endpoint_id : ℕ
  pub endpoint_name : String
  pub namespace : String
  pub old_fingerprint : String
  pub new_fingerprint : String
  pub old_version : ℕ
  pub new_version : ℕ
  pub severity : String
  pub compatibility_classification : String
  pub timestamp : ℕ
  pub schema_diff_summary : List DiffItem
  pub affected_consumer_count : ℕ

-- What `track_contract` returns, less its latency and an empty list, and the event that it publishes.
pub record Tracked : Type 0 where
  pub endpoint_id : ℕ
  pub endpoint_name : String
  pub namespace : String
  pub schema_version : ℕ
  pub fingerprint : String
  pub inserted : Bool
  pub compatibility_classification : String
  pub diff_count : ℕ
  pub affected_consumer_count : ℕ
  pub published : Option DriftEvent

-- The result where nothing is compared.
abbrev pub unchanged : Endpoint → SchemaVersionRecord → String → Bool → Tracked
unchanged e row fp inserted = record {
  endpoint_id = e.id;
  endpoint_name = e.endpoint_name;
  namespace = e.namespace;
  schema_version = row.version;
  fingerprint = fp;
  inserted = inserted;
  compatibility_classification = "SAFE";
  diff_count = 0;
  affected_consumer_count = 0;
  published = none;
}

abbrev pub classified : ℕ → String → SchemaVersionRecord → SchemaVersionRecord
classified i classification v =
    if v.id == i then record v { compatibility_classification = classification } else v

-- UPDATE contract_schema_versions SET compatibility_classification = ... WHERE id = ...
unfoldable pub set_classification : ℕ → String → Database → Database
set_classification i classification db = record db {
  versions = map (classified i classification) db.versions;
}

-- The branch for a new version behind an older one.
unfoldable pub announce :
    Bool
    → (Subscription → Reply)
    → Endpoint
    → SchemaVersionRecord
    → SchemaVersionRecord
    → String
    → List DiffItem
    → ℕ
    → Database
    → Tracked × Database
unfolding summarize_classification name set_classification enqueue_webhook_outbox
announce inline_delivery replies e row prior new_fingerprint diffs now db =
    let classification = name (summarize_classification diffs) in
    let event_id = db.next_id in
    let payload : EventPayload = record {
      event_id = event_id;
      endpoint_id = e.id;
      classification = classification;
      new_version = row.version;
      diffs = diffs;
    } in
    let db' : Database = record (set_classification row.id classification db) {
      next_id = event_id + 1;
    } in
    let (affected_count, db'') = enqueue_webhook_outbox inline_delivery replies payload now db' in
    (
      record {
        endpoint_id = e.id;
        endpoint_name = e.endpoint_name;
        namespace = e.namespace;
        schema_version = row.version;
        fingerprint = new_fingerprint;
        inserted = true;
        compatibility_classification = classification;
        diff_count = length diffs;
        affected_consumer_count = affected_count;
        published = some (record {
          event_id = event_id;
          endpoint_id = e.id;
          endpoint_name = e.endpoint_name;
          namespace = e.namespace;
          old_fingerprint = prior.fingerprint;
          new_fingerprint = new_fingerprint;
          old_version = prior.version;
          new_version = row.version;
          severity = classification;
          compatibility_classification = classification;
          timestamp = now;
          schema_diff_summary = diffs;
          affected_consumer_count = affected_count;
        });
      },
      db'',
    )

-- `inserted and new_record.previous_version_id`
abbrev pub compared_with : Bool → SchemaVersionRecord → Option ℕ
compared_with inserted row = if inserted then row.previous_version_id else none

-- What follows the registration.
unfoldable pub follow_up :
    Bool
    → (Subscription → Reply)
    → Endpoint
    → SchemaVersionRecord
    → Bool
    → String
    → Schema
    → ℕ
    → Database
    → Result (Tracked × Database)
unfolding diff_and_classify announce
follow_up inline_delivery replies e row inserted new_fingerprint canonical_schema now db =
    elim (compared_with inserted row) [
      | none ↦ ok (unchanged e row new_fingerprint inserted, db)
      | some previous ↦ do
        prior ← one (find? (λ v. v.id == previous) db.versions)
        diffs ← diff_and_classify prior.canonical_schema canonical_schema
        ok (announce inline_delivery replies e row prior new_fingerprint diffs now db)
    ]

-- `fingerprint` is app/runtime/canonical.py's, the SHA-256 of the schema's JSON text.
unfoldable pub track_contract :
    (Schema → String)
    → Bool
    → (Subscription → Reply)
    → EndpointKey
    → Json
    → ℕ
    → Database
    → Result (Tracked × Database)
unfolding canonicalize upsert_schema_version follow_up
track_contract fingerprint inline_delivery replies k payload now db =
    let canonical_schema = canonicalize payload in
    let new_fingerprint = fingerprint canonical_schema in
    do
      ((e, row, inserted), db') ← upsert_schema_version k new_fingerprint canonical_schema "SAFE" db
      follow_up inline_delivery replies e row inserted new_fingerprint canonical_schema now db'
