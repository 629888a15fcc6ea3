-- ===== src/Runtime/Documents/Stored.antt =====
-- A stored document can be read back, whatever is stored after it.
use schema_pilot_api_contrac.Base.{
  String, ◌≡◌, ◌≢◌, refl, ◌∙◌, Option, none, some, List, [], ◌∷◌, ◌==◌, string_eq, if◌then◌else◌,
}
use schema_pilot_api_contrac.Base.Dict.{put, get-put, get-put_self}
use schema_pilot_api_contrac.Base.Result.{ok}
use schema_pilot_api_contrac.Base.Sequence.{All}
use schema_pilot_api_contrac.Json.{Json, ℤ, Fields, null, integer, text, object, end, get_field}
use schema_pilot_api_contrac.Runtime.Documents.{
  payload_snapshots, Store, PayloadSnapshot, payload_fields, with_collection, insert, version_or,
  metadata_or, store_payload_snapshot, get_payload_snapshot, document, update_fields, put_field,
}
use schema_pilot_api_contrac.Runtime.Documents.Calls.{Call, id_of, left_by}
use schema_pilot_api_contrac.Runtime.Documents.Returns.{memory-Returns}

-- The JSON of an optional version, and of optional metadata.
abbrev pub version_json : Option ℤ → Json
version_json none = null
version_json (some n) = integer n

abbrev pub metadata_json : Option Fields → Json
metadata_json none = object end
metadata_json (some fields) = object fields

-- The document holds its identifier, its kind, its time, and each argument under the argument's name.
pub record HasArguments (id now : String) (p : PayloadSnapshot) (doc : Fields) : Type 0 where
  pub id_field : get_field "_id" doc ≡ some (text id)
  pub document_id : get_field "document_id" doc ≡ some (text id)
  pub kind : get_field "kind" doc ≡ some (text "payload_snapshot")
  pub created_at : get_field "created_at" doc ≡ some (text now)
  pub namespace : get_field "namespace" doc ≡ some (text p.namespace)
  pub service_name : get_field "service_name" doc ≡ some (text p.service_name)
  pub http_method : get_field "http_method" doc ≡ some (text p.http_method)
  pub route_path : get_field "route_path" doc ≡ some (text p.route_path)
  pub payload : get_field "payload" doc ≡ some p.payload
  pub fingerprint : get_field "fingerprint" doc ≡ some (text p.fingerprint)
  pub classification : get_field "classification" doc ≡ some (text p.classification)
  pub source : get_field "source" doc ≡ some (text p.source)
  pub schema_version : get_field "schema_version" doc ≡ some (version_json p.schema_version)
  pub metadata : get_field "metadata" doc ≡ some (metadata_json p.metadata)

-- Calls that do not draw the identifier return, and leave what is read under it.
left_by-kept :
    (id : String) (calls : List Call) (store : Store)
    → All (λ call. id_of call ≢ some id) calls
    → (final : Store) × (left_by calls store ≡ ok final)
      × (get_payload_snapshot id final ≡ get_payload_snapshot id store)
unfolding left_by get_payload_snapshot
left_by-kept id [] store h = (store, refl, refl)
left_by-kept id (call ∷ calls) store h =
    let r = memory-Returns call store in
    let (final, e, same) = left_by-kept id calls r.store' h.1 in
    (final, rw (r.returned) e, same ∙ r.kept payload_snapshots id h.0)

-- What storing a payload snapshot gives, and what is read after some more calls.
pub record IsStored (id now : String) (p : PayloadSnapshot) (store : Store) (calls : List Call)
    : Type 0 where
  pub doc : Fields
  pub after : Store
  pub final : Store
  pub returned : store_payload_snapshot id now p store ≡ ok (doc, after)
  pub arguments : HasArguments id now p doc
  pub others :
      (j : String)
      → get_payload_snapshot j after ≡ (if j == id then some doc else get_payload_snapshot j store)
  pub continued : left_by calls after ≡ ok final
  pub read : get_payload_snapshot id final ≡ some doc

version_or-version_json : (o : Option ℤ) → some (version_or o) ≡ some (version_json o)
version_or-version_json none = refl
version_or-version_json (some n) = refl

metadata_or-metadata_json : (o : Option Fields) → some (metadata_or o) ≡ some (metadata_json o)
metadata_or-metadata_json none = refl
metadata_or-metadata_json (some fields) = refl

document-HasArguments :
    (id now : String) (p : PayloadSnapshot)
    → HasArguments id now p (document id now "payload_snapshot" (payload_fields p))
unfolding document update_fields put_field get_field string_eq
document-HasArguments id now p = record {
  id_field = refl;
  document_id = refl;
  kind = refl;
  created_at = refl;
  namespace = refl;
  service_name = refl;
  http_method = refl;
  route_path = refl;
  payload = refl;
  fingerprint = refl;
  classification = refl;
  source = refl;
  schema_version = version_or-version_json p.schema_version;
  metadata = metadata_or-metadata_json p.metadata;
}

-- Storing a payload snapshot returns a document with the identifier, the kind, the time and every argument
-- under its own name, and does not change what any other identifier reads. After any calls that do not draw
-- the identifier, all of which return, reading it still gives that document.
pub store_payload_snapshot-get :
    (id now : String) (p : PayloadSnapshot) (store : Store) (calls : List Call)
    → All (λ call. id_of call ≢ some id) calls
    → IsStored id now p store calls
unfolding store_payload_snapshot insert document update_fields put_field get_field string_eq
    get_payload_snapshot
store_payload_snapshot-get id now p store calls h =
    let doc = document id now "payload_snapshot" (payload_fields p) in
    let after = with_collection payload_snapshots (put id doc store.snapshots) store in
    let (final, e, same) = left_by-kept id calls after h in
    record {
      doc = doc;
      after = after;
      final = final;
      returned = refl;
      arguments = document-HasArguments id now p;
      others = λ j. get-put j id doc store.snapshots;
      continued = e;
      read = same ∙ get-put_self id doc store.snapshots;
    }
