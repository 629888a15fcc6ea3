-- ===== src/Tests/Documents.antt =====
-- Runs of the document store at small data.
use mathlib.Core.Option.{none-ne-some}
use schema_pilot_api_contrac.Base.{
  ℕ, Option, List, ◌&&◌, ap, ◌∙◌, ◌≤◌, ◌≡◌, refl, ◌⊎◌, [], ◌∷◌, map, some, none, String, string_eq,
  if◌then◌else◌, ◌==◌, sym, inl, inr, Option-cases, arith,
}
use schema_pilot_api_contrac.Base.Sequence.{All, Elem, filter, length, take}
use schema_pilot_api_contrac.Base.Result.{Result, ok, raised, runtime_error, ok-injective}
use schema_pilot_api_contrac.Json.{Fields, pos, integer, text, object, end, field, get_field}
use schema_pilot_api_contrac.Runtime.Documents.{
  Collection, sort_newest, Store, new_store, PayloadSnapshot, payload_snapshots, collection, values,
  list_documents,
}
use schema_pilot_api_contrac.Runtime.Documents.Stored.{IsStored, store_payload_snapshot-get}
use schema_pilot_api_contrac.Runtime.Documents.Mongo
use schema_pilot_api_contrac.Runtime.Documents.Mongo.{
  Client, same_collection, build_document_store, in_memory, mongo,
}
use schema_pilot_api_contrac.Runtime.Documents.Calls.{Call, payload, error, read, remote, answers}
use schema_pilot_api_contrac.Runtime.Documents.Newest.{
  IsNewestFirst, NotNewer, list_documents_newest,
}

abbrev order : PayloadSnapshot
order = record {
  namespace = "shop";
  service_name = "orders";
  http_method = "GET";
  route_path = "/orders";
  payload = object (field "id" (integer (pos 7)) end);
  fingerprint = "f1";
  classification = "SAFE";
  source = "track";
  schema_version = some (pos 1);
  metadata = none;
}

abbrev dated : String → String → String × Fields
dated id now = (id, field "_id" (text id) (field "created_at" (text now) end))

abbrev three : Store
three = record new_store {
  snapshots = dated "a" "2026-01-02" ∷ dated "b" "2026-01-03" ∷ dated "c" "2026-01-01" ∷ [];
}

list_documents_newest_example :
    IsNewestFirst (list_documents payload_snapshots 2 three)
    × (length (list_documents payload_snapshots 2 three) ≤ 2)
    × All
        (λ doc. Elem doc (values (collection payload_snapshots three)))
        (list_documents payload_snapshots 2 three)
    × All
        (λ doc.
          Elem doc (list_documents payload_snapshots 2 three)
          ⊎ All (NotNewer doc) (list_documents payload_snapshots 2 three))
        (values (collection payload_snapshots three))
list_documents_newest_example = list_documents_newest payload_snapshots 2 three

newest_two :
    map (λ doc. get_field "_id" doc) (list_documents payload_snapshots 2 three)
    ≡ some (text "b") ∷ some (text "a") ∷ []
unfolding list_documents get_field string_eq
newest_two = refl

-- A client that keeps a log of what was inserted.
abbrev Log : Type 0
Log = List (Collection × Fields)

abbrev id_in : Fields → String
id_in doc = elim (get_field "_id" doc) [ some (text i) ↦ i | _ ↦ "" ]

abbrev find_in : Collection → String → Log → Option Fields
find_in c i [] = none
find_in c i ((d, doc) ∷ log) =
    if same_collection d c && i == id_in doc then some doc else find_in c i log

abbrev insert_in : Collection → Fields → Log → Result Log
insert_in c doc log = elim (find_in c (id_in doc) log) [
  | some old ↦ raised (runtime_error "duplicate key")
  | none ↦ ok ((c, doc) ∷ log)
]

abbrev newest_in : Collection → ℕ → Log → List Fields
newest_in c limit log =
    take limit (sort_newest (map (λ e. e.1) (filter (λ e. same_collection e.0 c) log)))

id_in-named : (id : String) (doc : Fields) → get_field "_id" doc ≡ some (text id) → id_in doc ≡ id
id_in-named id doc h = rw (h, id_in) refl

insert_in-free :
    (c : Collection) (doc : Fields) (log log' : Log)
    → insert_in c doc log ≡ ok log'
    → ◌≡◌ {A = Log} ((c, doc) ∷ log) log'
insert_in-free c doc log log' h = elim (Option-cases (find_in c (id_in doc) log)) [
  | inl absent ↦ ok-injective ((c, doc) ∷ log) log' (rw (absent, insert_in) at h)
  | inr (old, there) ↦
      let refused : ◌≡◌ {A = Result Log} (raised (runtime_error "duplicate key")) (ok log') =
        rw (there, insert_in) at h in
      ground arith
]

find_in-insert_in :
    (c : Collection) (id : String) (doc : Fields) (log log' : Log)
    → get_field "_id" doc ≡ some (text id)
    → insert_in c doc log ≡ ok log'
    → (c' : Collection) (j : String)
    → find_in c' j log' ≡ (if same_collection c c' && j == id then some doc else find_in c' j log)
find_in-insert_in c id doc log log' named h c' j =
    ap (find_in c' j) (sym (insert_in-free c doc log log' h))
    ∙ ap (λ i. if same_collection c c' && j == i then some doc else find_in c' j log)
        (id_in-named id doc named)

abbrev log_client : Client
log_client = record {
  State = Log;
  insert_one = insert_in;
  find_one = find_in;
  find_newest = newest_in;
  find_one-insert_one = find_in-insert_in;
}

abbrev traffic : List Call
traffic =
    payload "d1" "2026-01-01T00:00:00+00:00" order
    ∷ read "d1"
    ∷ error "d2" "2026-01-02T00:00:00+00:00" "fastapi-validation" "/track" (object end) "{}" none
    ∷ read "d2"
    ∷ []

-- The log refuses a second document of one identifier, where the store in memory overwrites the first.
abbrev repeated : List Call
repeated = payload "d1" "2026-01-01T00:00:00+00:00" order ∷ payload "d1" "2026-01-02" order ∷ []

repeated_refused : answers (remote log_client) repeated [] ≡ raised (runtime_error "duplicate key")
unfolding answers remote Mongo.store_payload_snapshot string_eq get_field
repeated_refused = refl

abbrev later_calls : List Call
later_calls =
    payload "d003" "2026-01-03T00:00:00+00:00" order
    ∷ error "d02" "2026-01-02T00:00:00+00:00" "fastapi-validation" "/track" (object end) "{}" none
    ∷ read "d003"
    ∷ []

store_payload_snapshot-get_example :
    IsStored "d1" "2026-01-01T00:00:00+00:00" order new_store later_calls
store_payload_snapshot-get_example =
    store_payload_snapshot-get "d1" "2026-01-01T00:00:00+00:00" order new_store later_calls
      ((λ e. cc), ((λ e. cc), ((λ e. none-ne-some "d1" e), tt)))

-- The names of the variable are tried in turn.
build_document_store_memory : build_document_store "noop" none "db" ≡ ok in_memory
unfolding build_document_store string_eq
build_document_store_memory = refl

build_document_store_mongo :
    build_document_store "cosmos" (some "mongodb://db") "guard" ≡ ok (mongo "mongodb://db" "guard")
unfolding build_document_store string_eq
build_document_store_mongo = refl
