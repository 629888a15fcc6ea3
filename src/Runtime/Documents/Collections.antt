-- ===== src/Runtime/Documents/Collections.antt =====
-- What a look-up finds after a document was put into a collection.
use schema_pilot_api_contrac.Base.{
  String, ◌&&◌, ◌≡◌, refl, some, none, ◌==◌, string_eq, if◌then◌else◌,
}
use schema_pilot_api_contrac.Base.Dict.{get, put, get-put}
use schema_pilot_api_contrac.Json.{Fields}
use schema_pilot_api_contrac.Runtime.Documents.{
  Collection, payload_snapshots, schema_diffs, validation_errors, replay_artifacts, Store,
  new_store, collection, with_collection,
}
use schema_pilot_api_contrac.Runtime.Documents.Mongo.{same_collection}

module _ (j id : String) (doc : Fields) (store : Store) where
  pub get-with_collection :
      (c c' : Collection)
      → get j (collection c' (with_collection c (put id doc (collection c store)) store))
        ≡ (if same_collection c c' && j == id then some doc else get j (collection c' store))
  get-with_collection payload_snapshots payload_snapshots =
      get-put j id doc (collection payload_snapshots store)
  get-with_collection payload_snapshots schema_diffs = refl
  get-with_collection payload_snapshots validation_errors = refl
  get-with_collection payload_snapshots replay_artifacts = refl
  get-with_collection schema_diffs payload_snapshots = refl
  get-with_collection schema_diffs schema_diffs = get-put j id doc (collection schema_diffs store)
  get-with_collection schema_diffs validation_errors = refl
  get-with_collection schema_diffs replay_artifacts = refl
  get-with_collection validation_errors payload_snapshots = refl
  get-with_collection validation_errors schema_diffs = refl
  get-with_collection validation_errors validation_errors =
      get-put j id doc (collection validation_errors store)
  get-with_collection validation_errors replay_artifacts = refl
  get-with_collection replay_artifacts payload_snapshots = refl
  get-with_collection replay_artifacts schema_diffs = refl
  get-with_collection replay_artifacts validation_errors = refl
  get-with_collection replay_artifacts replay_artifacts =
      get-put j id doc (collection replay_artifacts store)

pub get-new : (c : Collection) (i : String) → get i (collection c new_store) ≡ none
unfolding get
get-new payload_snapshots i = refl
get-new schema_diffs i = refl
get-new validation_errors i = refl
get-new replay_artifacts i = refl
