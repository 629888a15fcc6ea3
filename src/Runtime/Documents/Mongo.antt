-- ===== src/Runtime/Documents/Mongo.antt =====
-- app/runtime/document_store.py: the store over a MongoDB client, and the choice between the two stores.
use schema_pilot_api_contrac.Base.{
  ℕ, String, ◌<>◌, Bool, true, false, ◌||◌, ◌&&◌, ◌≡◌, Option, none, some, List, ◌==◌, string_eq,
  if◌then◌else◌,
}
use schema_pilot_api_contrac.Base.Result.{Result, ok, raised, runtime_error, value_error, ◌>>=◌}
use schema_pilot_api_contrac.Json.{Json, Fields, text, get_field}
use schema_pilot_api_contrac.Runtime.Documents.{
  Collection, payload_snapshots, schema_diffs, validation_errors, replay_artifacts, PayloadSnapshot,
  DriftDocument, document, payload_fields, drift_fields, error_fields, artifact_fields,
}

abbrev pub same_collection : Collection → Collection → Bool
same_collection payload_snapshots payload_snapshots = true
same_collection schema_diffs schema_diffs = true
same_collection validation_errors validation_errors = true
same_collection replay_artifacts replay_artifacts = true
same_collection _ _ = false

-- What the store asks of its client: a database with the calls of pymongo that it makes. An insertion may be
-- refused, for whatever reason; one that is acknowledged can be read back, and changes no other document.
pub record Client : Type 1 where
  pub State : Type 0
  pub insert_one : Collection → Fields → State → Result State
  pub find_one : Collection → String → State → Option Fields
  pub find_newest : Collection → ℕ → State → List Fields
  pub find_one-insert_one :
      (c : Collection) (id : String) (doc : Fields) (s s' : State)
      → get_field "_id" doc ≡ some (text id)
      → insert_one c doc s ≡ ok s'
      → (c' : Collection) (j : String)
      → find_one c' j s' ≡ (if same_collection c c' && j == id then some doc else find_one c' j s)

module _ (client : Client) where
  open client use {State, insert_one, find_one, find_newest}

  -- `_insert`
  unfoldable pub insert : Collection → Fields → State → Result (Fields × State)
  insert c doc s = do s' ← insert_one c doc s; ok (doc, s')

  unfoldable pub store_payload_snapshot :
      String → String → PayloadSnapshot → State → Result (Fields × State)
  unfolding insert document
  store_payload_snapshot id now p s =
      insert payload_snapshots (document id now "payload_snapshot" (payload_fields p)) s

  unfoldable pub store_schema_diff :
      String → String → DriftDocument → State → Result (Fields × State)
  unfolding insert document
  store_schema_diff id now d s =
      insert schema_diffs (document id now "schema_diff" (drift_fields d)) s

  unfoldable pub store_validation_error :
      String
      → String
      → String
      → String
      → Json
      → String
      → Option Fields
      → State
      → Result (Fields × State)
  unfolding insert document
  store_validation_error id now source path errors raw_body metadata s =
      insert validation_errors
        (document id now "validation_error" (error_fields source path errors raw_body metadata)) s

  unfoldable pub store_replay_artifact :
      String → String → String → String → Json → Option Fields → State → Result (Fields × State)
  unfolding insert document
  store_replay_artifact id now source artifact_type payload metadata s =
      insert replay_artifacts
        (document id now "replay_artifact" (artifact_fields source artifact_type payload metadata))
        s

  unfoldable pub get_payload_snapshot : String → State → Option Fields
  get_payload_snapshot id s = find_one payload_snapshots id s

  -- `_list`: the client sorts and cuts.
  unfoldable pub list_documents : Collection → ℕ → State → List Fields
  list_documents c limit s = find_newest c limit s

-- Which store `build_document_store` makes.
pub data Choice : Type 0 where
  in_memory : Choice
  mongo : String → String → Choice

-- `build_document_store`, given the backend's name as it is read, stripped and in lower case, and the two
-- other variables. An empty address is no address.
unfoldable pub build_document_store : String → Option String → String → Result Choice
build_document_store backend uri database =
    if backend == "memory" || (backend == "noop" || backend == "none")
    then ok in_memory
    else if backend == "mongo" || (backend == "cosmos" || backend == "cosmos_mongo")
    then elim uri [
      | none ↦
          raised
            (runtime_error "DOCUMENT_STORE_URI is required when DOCUMENT_STORE_BACKEND uses Mongo")
      | some address ↦
          if address == ""
          then raised (
              runtime_error "DOCUMENT_STORE_URI is required when DOCUMENT_STORE_BACKEND uses Mongo")
          else ok (mongo address database)
    ]
    else raised (value_error ("Unsupported DOCUMENT_STORE_BACKEND: " <> backend))
