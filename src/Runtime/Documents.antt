-- ===== src/Runtime/Documents.antt =====
-- app/runtime/document_store.py: the documents, and the store that keeps them in memory.
pub mod Stored
pub mod Newest
pub mod Mongo
pub mod Collections
pub mod Calls
pub mod Returns
pub mod Alike
use Prim.Native.Nat.{Ordering}
use Prim.Native.String.{compare}
use schema_pilot_api_contrac.Base.{
  ℕ, String, Bool, Option, none, some, List, [], ◌∷◌, ◌==◌, string_eq, if◌then◌else◌,
}
use schema_pilot_api_contrac.Base.Sequence.{take}
use schema_pilot_api_contrac.Base.Dict.{Dict, get, put}
use schema_pilot_api_contrac.Base.Result.{Result, ok, raised, key_error}
use schema_pilot_api_contrac.Json.{
  Json, ℤ, Fields, null, integer, text, object, end, field, get_field,
}

-- `d[k] = v` and `d.update(e)` on a payload's dict
unfoldable pub put_field : String → Json → Fields → Fields
put_field k v end = field k v end
put_field k v (field j w fs) = if k == j then field j v fs else field j w (put_field k v fs)

unfoldable pub update_fields : Fields → Fields → Fields
unfolding put_field
update_fields d end = d
update_fields d (field k v fs) = update_fields (put_field k v d) fs

-- `_document`, given its fresh identifier and the time
unfoldable pub document : String → String → String → Fields → Fields
unfolding update_fields
document id now kind fields =
    update_fields
      (field "_id" (text id) (
        field "document_id" (text id)
          (field "kind" (text kind) (field "created_at" (text now) end))))
      fields

-- The keys of `_collections`.
pub data Collection : Type 0 where
  payload_snapshots schema_diffs validation_errors replay_artifacts : Collection

-- `InMemoryDocumentStore`: each collection maps identifiers to documents.
pub record Store : Type 0 where
  pub snapshots : Dict Fields
  pub diffs : Dict Fields
  pub errors : Dict Fields
  pub artifacts : Dict Fields

abbrev pub new_store : Store
new_store = record { snapshots = []; diffs = []; errors = []; artifacts = [] }

abbrev pub collection : Collection → Store → Dict Fields
collection payload_snapshots store = store.snapshots
collection schema_diffs store = store.diffs
collection validation_errors store = store.errors
collection replay_artifacts store = store.artifacts

abbrev pub with_collection : Collection → Dict Fields → Store → Store
with_collection payload_snapshots docs store = record store { snapshots = docs }
with_collection schema_diffs docs store = record store { diffs = docs }
with_collection validation_errors docs store = record store { errors = docs }
with_collection replay_artifacts docs store = record store { artifacts = docs }

-- `_insert`. Documents are values here, so a copy is the document itself.
unfoldable pub insert : Collection → Fields → Store → Result (Fields × Store)
unfolding get_field put
insert c doc store = elim (get_field "_id" doc) [
  | some (text id) ↦ ok (doc, with_collection c (put id doc (collection c store)) store)
  | _ ↦ raised (key_error "_id")
]

abbrev pub values : Dict Fields → List Fields
values [] = []
values ((_, doc) ∷ docs) = doc ∷ values docs

-- `item["created_at"]`, which every document has
unfoldable pub created_at : Fields → String
unfolding get_field
created_at doc = elim (get_field "created_at" doc) [ some (text now) ↦ now | _ ↦ "" ]

-- `docs.sort(key=..., reverse=True)`: documents of one time keep their order.
unfoldable pub insert_newest : Fields → List Fields → List Fields
unfolding created_at
insert_newest doc [] = doc ∷ []
insert_newest doc (other ∷ docs) =
    let rest = insert_newest doc docs in
    elim (compare (created_at doc) (created_at other)) [
      | Ordering.lt ↦ other ∷ rest
      | _ ↦ doc ∷ other ∷ docs
    ]

unfoldable pub sort_newest : List Fields → List Fields
unfolding insert_newest
sort_newest [] = []
sort_newest (doc ∷ docs) = insert_newest doc (sort_newest docs)

-- `_list`
unfoldable pub list_documents : Collection → ℕ → Store → List Fields
unfolding sort_newest
list_documents c limit store = take limit (sort_newest (values (collection c store)))

-- `metadata or {}`
abbrev metadata_or : Option Fields → Json
metadata_or none = object end
metadata_or (some fields) = object fields

abbrev version_or : Option ℤ → Json
version_or none = null
version_or (some n) = integer n

-- the keyword arguments of `store_payload_snapshot`
pub record PayloadSnapshot : Type 0 where
  pub namespace : String
  pub service_name : String
  pub http_method : String
  pub route_path : String
  pub payload : Json
  pub fingerprint : String
  pub classification : String
  pub source : String
  pub schema_version : Option ℤ
  pub metadata : Option Fields

abbrev pub payload_fields : PayloadSnapshot → Fields
payload_fields p = field "namespace" (text p.namespace) (
    field "service_name" (text p.service_name) (
      field "http_method" (text p.http_method) (
        field "route_path" (text p.route_path) (
          field "payload" p.payload (
            field "fingerprint" (text p.fingerprint) (
              field "classification" (text p.classification) (
                field "source" (text p.source) (
                  field "schema_version" (version_or p.schema_version)
                    (field "metadata" (metadata_or p.metadata) end)))))))))

unfoldable pub store_payload_snapshot :
    String → String → PayloadSnapshot → Store → Result (Fields × Store)
unfolding insert document
store_payload_snapshot id now p store =
    insert payload_snapshots (document id now "payload_snapshot" (payload_fields p)) store

-- the keyword arguments of `store_schema_diff`
pub record DriftDocument : Type 0 where
  pub endpoint_id : String
  pub endpoint_name : String
  pub namespace : String
  pub service_name : String
  pub http_method : String
  pub route_path : String
  pub old_fingerprint : String
  pub new_fingerprint : String
  pub old_version : ℤ
  pub new_version : ℤ
  pub classification : String
  pub diffs : Json
  pub source : String

abbrev pub drift_fields : DriftDocument → Fields
drift_fields d = field "endpoint_id" (text d.endpoint_id) (
    field "endpoint_name" (text d.endpoint_name) (
      field "namespace" (text d.namespace) (
        field "service_name" (text d.service_name) (
          field "http_method" (text d.http_method) (
            field "route_path" (text d.route_path) (
              field "old_fingerprint" (text d.old_fingerprint) (
                field "new_fingerprint" (text d.new_fingerprint) (
                  field "old_version" (integer d.old_version) (
                    field "new_version" (integer d.new_version) (
                      field "classification" (text d.classification)
                        (field "diffs" d.diffs (field "source" (text d.source) end))))))))))))

unfoldable pub store_schema_diff : String → String → DriftDocument → Store → Result (Fields × Store)
unfolding insert document
store_schema_diff id now d store =
    insert schema_diffs (document id now "schema_diff" (drift_fields d)) store

-- the arguments of `store_validation_error`
abbrev pub error_fields : String → String → Json → String → Option Fields → Fields
error_fields source path errors raw_body metadata = field "source" (text source) (
    field "path" (text path) (
      field "errors" errors
        (field "raw_body" (text raw_body) (field "metadata" (metadata_or metadata) end))))

unfoldable pub store_validation_error :
    String
    → String
    → String
    → String
    → Json
    → String
    → Option Fields
    → Store
    → Result (Fields × Store)
unfolding insert document
store_validation_error id now source path errors raw_body metadata store =
    insert validation_errors
      (document id now "validation_error" (error_fields source path errors raw_body metadata)) store

-- the arguments of `store_replay_artifact`
abbrev pub artifact_fields : String → String → Json → Option Fields → Fields
artifact_fields source artifact_type payload metadata = field "source" (text source) (
    field "artifact_type" (text artifact_type)
      (field "payload" payload (field "metadata" (metadata_or metadata) end)))

unfoldable pub store_replay_artifact :
    String → String → String → String → Json → Option Fields → Store → Result (Fields × Store)
unfolding insert document
store_replay_artifact id now source artifact_type payload metadata store =
    insert replay_artifacts
      (document id now "replay_artifact" (artifact_fields source artifact_type payload metadata))
      store

unfoldable pub get_payload_snapshot : String → Store → Option Fields
unfolding get
get_payload_snapshot id store = get id store.snapshots
