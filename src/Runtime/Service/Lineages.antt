-- ===== src/Runtime/Service/Lineages.antt =====
-- What `track_contract` leaves in the registry.
use schema_pilot_api_contrac.Base.{
  ℕ, ◌+◌, ◌≡◌, refl, ◌∙◌, ap, sym, subst, inl, inr, Bool-cases, Option-cases, String, Bool, true,
  some, List, [], ◌∷◌, map, arith, ◌==◌, nat_eq,
}
use schema_pilot_api_contrac.Base.Result.{Result, ok, ◌>>=◌, >>=-eq-ok}
use schema_pilot_api_contrac.Base.Sequence.{All, length, find?}
use schema_pilot_api_contrac.Json.{Json}
use schema_pilot_api_contrac.Schema.{Schema}
use schema_pilot_api_contrac.Runtime.Canonical.{canonicalize}
use schema_pilot_api_contrac.Runtime.Classifier.{DiffItem, diff_and_classify}
use schema_pilot_api_contrac.Runtime.Database.{
  Database, Endpoint, SchemaVersionRecord, Subscription, EventPayload,
}
use schema_pilot_api_contrac.Runtime.Registry.{
  EndpointKey, one, rows_of, previous_id, upsert_schema_version,
}
use schema_pilot_api_contrac.Runtime.Registry.Lineage.{
  head?, IsChain, IsRetired, HeadIsCurrent, Lacks, DistinctFingerprints, IsLineage,
}
use schema_pilot_api_contrac.Runtime.Registry.Upsert.{HasLineages}
use schema_pilot_api_contrac.Runtime.Registry.Registration.{upsert_schema_version-Registers}
use schema_pilot_api_contrac.Runtime.Models.{name}
use schema_pilot_api_contrac.Runtime.Classifier.{summarize_classification}
use schema_pilot_api_contrac.Runtime.Subscriptions.{select_affected_subscriptions}
use schema_pilot_api_contrac.Runtime.Webhook.{Reply}
use schema_pilot_api_contrac.Runtime.Webhook.Delivering.{versions-deliver_with_retry}
use schema_pilot_api_contrac.Runtime.Outbox.{update_item}
use schema_pilot_api_contrac.Runtime.Service.{
  Tracked, unchanged, outbox_row, inline_delivery_of, enqueue, enqueue_all, enqueue_webhook_outbox,
  classified, set_classification, announce, compared_with, follow_up, track_contract,
}

module _ (i : ℕ) (c : String) where
  kept :
      (v : SchemaVersionRecord)
      → ((classified i c v).version ≡ v.version)
        × ((classified i c v).previous_version_id ≡ v.previous_version_id)
        × ((classified i c v).is_current ≡ v.is_current)
        × ((classified i c v).fingerprint ≡ v.fingerprint)
        × ((classified i c v).id ≡ v.id)
        × ((classified i c v).endpoint_id ≡ v.endpoint_id)
  kept v = elim (Bool-cases (v.id == i)) [
    | inl e ↦ rw e (refl, refl, refl, refl, refl, refl)
    | inr e ↦ rw e (refl, refl, refl, refl, refl, refl)
  ]

  rows_of-classified :
      (e : ℕ) (vs : List SchemaVersionRecord)
      → rows_of e (map (classified i c) vs) ≡ map (classified i c) (rows_of e vs)
  rows_of-classified e [] = refl
  rows_of-classified e (v ∷ vs) = ground (arith, rows_of-classified e vs, kept v)

  length-classified : (vs : List SchemaVersionRecord) → length (map (classified i c) vs) ≡ length vs
  length-classified [] = refl
  length-classified (v ∷ vs) = omega (arith, length-classified vs)

  previous_id-classified :
      (vs : List SchemaVersionRecord)
      → previous_id (head? (map (classified i c) vs)) ≡ previous_id (head? vs)
  previous_id-classified [] = refl
  previous_id-classified (v ∷ vs) = ap some (kept v).4

  IsChain-classified :
      (vs : List SchemaVersionRecord) → IsChain vs → IsChain (map (classified i c) vs)
  IsChain-classified [] h = tt
  IsChain-classified (v ∷ vs) h = (
    omega (arith, h.0, (kept v).0, length-classified vs),
    (kept v).1 ∙ h.1 ∙ sym (previous_id-classified vs),
    IsChain-classified vs h.2,
  )

  All-IsRetired-classified :
      (vs : List SchemaVersionRecord) → All IsRetired vs → All IsRetired (map (classified i c) vs)
  All-IsRetired-classified [] h = tt
  All-IsRetired-classified (v ∷ vs) h = ((kept v).2 ∙ h.0, All-IsRetired-classified vs h.1)

  HeadIsCurrent-classified :
      (vs : List SchemaVersionRecord) → HeadIsCurrent vs → HeadIsCurrent (map (classified i c) vs)
  HeadIsCurrent-classified [] h = tt
  HeadIsCurrent-classified (v ∷ vs) h = ((kept v).2 ∙ h.0, All-IsRetired-classified vs h.1)

  Lacks-classified :
      (fp : String) (vs : List SchemaVersionRecord)
      → Lacks fp vs
      → Lacks fp (map (classified i c) vs)
  Lacks-classified fp [] h = tt
  Lacks-classified fp (v ∷ vs) h = ((λ e. h.0 (sym (kept v).3 ∙ e)), Lacks-classified fp vs h.1)

  DistinctFingerprints-classified :
      (vs : List SchemaVersionRecord)
      → DistinctFingerprints vs
      → DistinctFingerprints (map (classified i c) vs)
  DistinctFingerprints-classified [] h = tt
  DistinctFingerprints-classified (v ∷ vs) h = (
    subst (λ fp. Lacks fp (map (classified i c) vs)) (sym (kept v).3)
        (Lacks-classified v.fingerprint vs h.0),
    DistinctFingerprints-classified vs h.1,
  )

  pub HasLineages-classified :
      (db : Database) → HasLineages db → HasLineages (set_classification i c db)
  unfolding set_classification
  HasLineages-classified db h e = subst IsLineage (sym (rows_of-classified e db.versions)) (record {
    chain = IsChain-classified (rows_of e db.versions) (h e).chain;
    current = HeadIsCurrent-classified (rows_of e db.versions) (h e).current;
    distinct = DistinctFingerprints-classified (rows_of e db.versions) (h e).distinct;
  })

second_of :
    (t u : Tracked) (db db' : Database)
    → ◌≡◌ {A = Result (Tracked × Database)} (ok (t, db)) (ok (u, db'))
    → db ≡ db'
second_of t u db db' h = ground arith

module _ (inline_delivery : Bool) (replies : Subscription → Reply) (now : ℕ) where
  versions-enqueue :
      (payload : EventPayload) (sub : Subscription) (db : Database)
      → (enqueue inline_delivery replies payload now sub db).versions ≡ db.versions
  unfolding enqueue update_item
  versions-enqueue payload sub db = elim (Bool-cases inline_delivery) [
    | inl e ↦ rw e (
        versions-deliver_with_retry (inline_delivery_of sub payload) (λ attempt. replies sub) 1 true
          now
          (record db {
            next_id = db.next_id + 1;
            outbox = outbox_row db.next_id sub payload now ∷ db.outbox;
          }))
    | inr e ↦ rw e refl
  ]

  versions-enqueue_all :
      (payload : EventPayload) (subs : List Subscription) (db : Database)
      → (enqueue_all inline_delivery replies payload now subs db).versions ≡ db.versions
  unfolding enqueue_all
  versions-enqueue_all payload [] db = refl
  versions-enqueue_all payload (sub ∷ subs) db =
      versions-enqueue_all payload subs (enqueue inline_delivery replies payload now sub db)
      ∙ versions-enqueue payload sub db

  versions-enqueue_webhook_outbox :
      (payload : EventPayload) (db : Database)
      → (enqueue_webhook_outbox inline_delivery replies payload now db).1.versions ≡ db.versions
  unfolding enqueue_webhook_outbox
  versions-enqueue_webhook_outbox payload db =
      versions-enqueue_all payload
        (select_affected_subscriptions payload.endpoint_id payload.new_version
          payload.classification db)
        db

  announce-HasLineages :
      (e : Endpoint) (row prior : SchemaVersionRecord) (fp : String) (diffs : List DiffItem)
      (db : Database)
      → HasLineages db
      → HasLineages (announce inline_delivery replies e row prior fp diffs now db).1
  unfolding announce
  announce-HasLineages e row prior fp diffs db h d =
      let classification = name (summarize_classification diffs) in
      let payload : EventPayload = record {
        event_id = db.next_id;
        endpoint_id = e.id;
        classification = classification;
        new_version = row.version;
        diffs = diffs;
      } in
      let db' : Database = record (set_classification row.id classification db) {
        next_id = db.next_id + 1;
      } in
      subst (λ vs. IsLineage (rows_of d vs)) (sym (versions-enqueue_webhook_outbox payload db'))
        (HasLineages-classified row.id classification db h d)

  follow_up-HasLineages :
      (e : Endpoint) (row : SchemaVersionRecord) (inserted : Bool) (fp : String) (schema : Schema)
      (db db' : Database) (t : Tracked)
      → HasLineages db
      → follow_up inline_delivery replies e row inserted fp schema now db ≡ ok (t, db')
      → HasLineages db'
  unfolding follow_up
  follow_up-HasLineages e row inserted fp schema db db' t h out =
      elim (Option-cases (compared_with inserted row)) [
        | inl alone ↦
            let out' : ok (unchanged e row fp inserted, db) ≡ ok (t, db') =
              rw (alone, follow_up) at out in
            subst HasLineages (second_of (unchanged e row fp inserted) t db db' out') h
        | inr (previous, behind) ↦
            let conclude : SchemaVersionRecord → List DiffItem → Result (Tracked × Database) =
              λ prior diffs. ok (announce inline_delivery replies e row prior fp diffs now db) in
            let compare : SchemaVersionRecord → Result (Tracked × Database) =
              λ prior. diff_and_classify prior.canonical_schema schema >>= conclude prior in
            let found = one (find? (λ v. v.id == previous) db.versions) in
            let out' : (found >>= compare) ≡ ok (t, db') = rw (behind, follow_up) at out in
            let (prior, there, rest) = >>=-eq-ok found compare out' in
            let (diffs, judged, end) =
              >>=-eq-ok (diff_and_classify prior.canonical_schema schema) (conclude prior) rest in
            let made = announce inline_delivery replies e row prior fp diffs now db in
            subst HasLineages (second_of made.0 t made.1 db' end)
              (announce-HasLineages e row prior fp diffs db h)
      ]

  pub track_contract-follow_up :
      (fingerprint : Schema → String) (k : EndpointKey) (payload : Json) (db db₁ : Database)
      (e : Endpoint) (row : SchemaVersionRecord) (inserted : Bool)
      → upsert_schema_version k
          (fingerprint (canonicalize payload))
          (canonicalize payload)
          "SAFE"
          db
        ≡ ok ((e, row, inserted), db₁)
      → track_contract fingerprint inline_delivery replies k payload now db
        ≡ follow_up inline_delivery replies e row inserted
            (fingerprint (canonicalize payload))
            (canonicalize payload)
            now
            db₁
  unfolding track_contract
  track_contract-follow_up fingerprint k payload db db₁ e row inserted h = rw h refl

  -- From a database with lineages, whatever the payload is and whatever consumers answer: when
  -- `track_contract` returns, every endpoint's versions are a lineage again.
  pub track_contract-HasLineages :
      (fingerprint : Schema → String) (k : EndpointKey) (payload : Json) (db db' : Database)
      (t : Tracked)
      → HasLineages db
      → track_contract fingerprint inline_delivery replies k payload now db ≡ ok (t, db')
      → HasLineages db'
  track_contract-HasLineages fingerprint k payload db db' t h out =
      let schema = canonicalize payload in
      let fp = fingerprint schema in
      let r = upsert_schema_version-Registers k fp schema "SAFE" db h in
      follow_up-HasLineages r.endpoint r.row r.inserted fp schema r.db' db' t r.registered.lineages
        (sym (
            track_contract-follow_up fingerprint k payload db r.db' r.endpoint r.row r.inserted
              r.returned)
          ∙ out)
