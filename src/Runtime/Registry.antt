-- ===== src/Runtime/Registry.antt =====
-- app/runtime/registry.py: endpoints and the versions of their schemas.
pub mod Lineage
pub mod Upsert
pub mod Registration
use schema_pilot_api_contrac.Base.{
  ℕ, ◌+◌, String, ◌<>◌, Bool, true, false, ◌&&◌, ◌||◌, Option, none, some, List, [], ◌∷◌, map, ltb,
  ◌==◌, nat_eq, string_eq, if◌then◌else◌,
}
use schema_pilot_api_contrac.Base.Result.{
  Result, ok, raised, integrity_error, no_result_found, ◌>>=◌,
}
use schema_pilot_api_contrac.Base.Sequence.{filter, find?}
use schema_pilot_api_contrac.Schema.{Schema}
use schema_pilot_api_contrac.Runtime.Database.{Database, Endpoint, SchemaVersionRecord}

-- The four columns that identify an endpoint.
pub record EndpointKey : Type 0 where
  pub namespace : String
  pub service_name : String
  pub http_method : String
  pub route_path : String

abbrev pub has_key : EndpointKey → Endpoint → Bool
has_key k e =
    e.namespace == k.namespace
    && (e.service_name == k.service_name
        && (e.http_method == k.http_method && e.route_path == k.route_path))

abbrev pub endpoint_name_of : EndpointKey → String
endpoint_name_of k = k.service_name <> " " <> k.http_method <> " " <> k.route_path

-- SELECT ... FROM contract_registry_endpoints WHERE ... LIMIT 1
abbrev pub find_endpoint : EndpointKey → Database → Option Endpoint
find_endpoint k db = find? (has_key k) db.endpoints

-- INSERT ... ON CONFLICT (namespace, service_name, http_method, route_path) DO NOTHING
unfoldable pub insert_endpoint : EndpointKey → Database → Database
insert_endpoint k db = elim (find_endpoint k db) [
  | some e ↦ db
  | none ↦ record db {
    next_id = db.next_id + 1;
    endpoints =
        record {
          id = db.next_id;
          namespace = k.namespace;
          service_name = k.service_name;
          http_method = k.http_method;
          route_path = k.route_path;
          endpoint_name = endpoint_name_of k;
        }
        ∷ db.endpoints;
  }
]

-- `.one()`
abbrev pub one {ℓ} : {A : Type ℓ} → Option A → Result A
one none = raised no_result_found
one (some a) = ok a

unfoldable pub ensure_endpoint : EndpointKey → Database → Result (Endpoint × Database)
ensure_endpoint k db = elim (find_endpoint k db) [
  | some e ↦ ok (e, db)
  | none ↦ let db' = insert_endpoint k db in do e ← one (find_endpoint k db'); ok (e, db')
]

-- The rows of one endpoint.
abbrev pub rows_of : ℕ → List SchemaVersionRecord → List SchemaVersionRecord
rows_of e = filter (λ v. v.endpoint_id == e)

-- ORDER BY version DESC LIMIT 1
abbrev pub newer : SchemaVersionRecord → Option SchemaVersionRecord → SchemaVersionRecord
newer v none = v
newer v (some w) = if ltb v.version w.version then w else v

unfoldable pub latest : List SchemaVersionRecord → Option SchemaVersionRecord
latest [] = none
latest (v ∷ vs) = some (newer v (latest vs))

unfoldable pub get_current_schema : ℕ → Database → Option SchemaVersionRecord
unfolding latest
get_current_schema e db = latest (filter (λ v. v.is_current) (rows_of e db.versions))

-- SELECT ... WHERE endpoint_id = :endpoint_id AND fingerprint = :fingerprint LIMIT 1
unfoldable pub find_fingerprint : ℕ → String → Database → Option SchemaVersionRecord
find_fingerprint e fp db = find? (λ v. v.endpoint_id == e && v.fingerprint == fp) db.versions

-- UPDATE contract_schema_versions SET is_current = FALSE WHERE endpoint_id = :endpoint_id
abbrev pub retire : ℕ → SchemaVersionRecord → SchemaVersionRecord
retire e v = if v.endpoint_id == e then record v { is_current = false } else v

unfoldable pub retire_all : ℕ → Option SchemaVersionRecord → Database → Database
retire_all e none db = db
retire_all e (some current) db = record db { versions = map (retire e) db.versions }

-- UNIQUE(endpoint_id, version) and UNIQUE(endpoint_id, fingerprint)
abbrev pub conflicts : SchemaVersionRecord → SchemaVersionRecord → Bool
conflicts row v =
    v.endpoint_id == row.endpoint_id
    && (v.version == row.version || v.fingerprint == row.fingerprint)

-- INSERT INTO contract_schema_versions
unfoldable pub insert_version :
    SchemaVersionRecord → Database → Result (SchemaVersionRecord × Database)
insert_version row db = elim (find? (conflicts row) db.versions) [
  | some v ↦ raised integrity_error
  | none ↦ ok (row, record db { next_id = db.next_id + 1; versions = row ∷ db.versions })
]

abbrev pub next_version : Option SchemaVersionRecord → ℕ
next_version none = 1
next_version (some current) = current.version + 1

abbrev pub previous_id : Option SchemaVersionRecord → Option ℕ
previous_id none = none
previous_id (some current) = some current.id

abbrev pub new_row :
    ℕ → ℕ → String → Schema → String → Option SchemaVersionRecord → SchemaVersionRecord
new_row id e fp schema classification current = record {
  id = id;
  endpoint_id = e;
  version = next_version current;
  fingerprint = fp;
  canonical_schema = schema;
  compatibility_classification = classification;
  previous_version_id = previous_id current;
  is_current = true;
}

-- What `upsert_schema_version` returns, beside the endpoint: the record, and whether it is new.
abbrev pub Upsert : Type 0
Upsert = Endpoint × SchemaVersionRecord × Bool

-- The part behind the advisory lock: a new version unless the fingerprint has appeared since.
unfoldable pub register_version :
    Endpoint → String → Schema → String → Database → Result (Upsert × Database)
register_version e fp schema classification db =
    let current = get_current_schema e.id db in
    elim (find_fingerprint e.id fp db) [
      | some found ↦ ok ((e, found, false), db)
      | none ↦ do
        (row, db') ←
            insert_version (new_row db.next_id e.id fp schema classification current)
              (retire_all e.id current db)
        ok ((e, row, true), db')
    ]

unfoldable pub upsert_schema_version :
    EndpointKey → String → Schema → String → Database → Result (Upsert × Database)
upsert_schema_version k fp schema classification db = do
  (e, db') ← ensure_endpoint k db
  elim (find_fingerprint e.id fp db') [
    | some fast_row ↦ ok ((e, fast_row, false), db')
    | none ↦ register_version e fp schema classification db'
  ]
