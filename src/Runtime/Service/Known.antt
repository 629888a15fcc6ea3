-- ===== src/Runtime/Service/Known.antt =====
-- A payload whose shape is registered already.
use schema_pilot_api_contrac.Base.{◌≡◌, refl, sym, subst, String, Bool, false, some, ℕ, arith}
use schema_pilot_api_contrac.Base.Result.{ok}
use schema_pilot_api_contrac.Json.{Json}
use schema_pilot_api_contrac.Schema.{Schema}
use schema_pilot_api_contrac.Runtime.Canonical.{canonicalize}
use schema_pilot_api_contrac.Runtime.Canonical.Shape.{SameShape, canonicalize-SameShape}
use schema_pilot_api_contrac.Runtime.Database.{
  Database, Endpoint, SchemaVersionRecord, Subscription,
}
use schema_pilot_api_contrac.Runtime.Registry.{
  EndpointKey, find_endpoint, ensure_endpoint, find_fingerprint, upsert_schema_version,
}
use schema_pilot_api_contrac.Runtime.Webhook.{Reply}
use schema_pilot_api_contrac.Runtime.Service.{unchanged, track_contract}

upsert_known :
    (k : EndpointKey) (fp : String) (schema : Schema) (db : Database) (e : Endpoint)
    (row : SchemaVersionRecord)
    → find_endpoint k db ≡ some e
    → find_fingerprint e.id fp db ≡ some row
    → upsert_schema_version k fp schema "SAFE" db ≡ ok ((e, row, false), db)
unfolding upsert_schema_version ensure_endpoint
upsert_known k fp schema db e row found here = ground arith

module _ (fingerprint : Schema → String) (inline_delivery : Bool) (replies : Subscription → Reply)
    (k : EndpointKey) (now : ℕ) where
  track_known :
      (payload : Json) (db : Database) (e : Endpoint) (row : SchemaVersionRecord)
      → upsert_schema_version k
          (fingerprint (canonicalize payload))
          (canonicalize payload)
          "SAFE"
          db
        ≡ ok ((e, row, false), db)
      → track_contract fingerprint inline_delivery replies k payload now db
        ≡ ok (unchanged e row (fingerprint (canonicalize payload)) false, db)
  unfolding track_contract
  track_known payload db e row h = rw h refl

  -- A payload of the same shape as one whose fingerprint the endpoint has, among its current or older
  -- versions, changes nothing: the database stays as it is, no consumer is told, no event is published, and the
  -- version found is returned with the class SAFE.
  pub track_contract-SameShape :
      (a b : Json) (db : Database) (e : Endpoint) (row : SchemaVersionRecord)
      → SameShape a b
      → find_endpoint k db ≡ some e
      → find_fingerprint e.id (fingerprint (canonicalize a)) db ≡ some row
      → track_contract fingerprint inline_delivery replies k b now db
        ≡ ok (unchanged e row (fingerprint (canonicalize a)) false, db)
  track_contract-SameShape a b db e row s found here =
      let same : canonicalize a ≡ canonicalize b = canonicalize-SameShape s in
      subst
        (λ c.
          track_contract fingerprint inline_delivery replies k b now db
          ≡ ok (unchanged e row (fingerprint c) false, db))
        (sym same)
        (track_known b db e row (
          upsert_known k (fingerprint (canonicalize b)) (canonicalize b) db e row found
            (subst (λ c. find_fingerprint e.id (fingerprint c) db ≡ some row) same here)))
