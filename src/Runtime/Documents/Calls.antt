-- ===== src/Runtime/Documents/Calls.antt =====
-- Sequences of calls of a document store, in memory or over a client.
use schema_pilot_api_contrac.Base.{String, Option, none, some, List, [], ◌∷◌, string_eq}
use schema_pilot_api_contrac.Base.Result.{Result, ok, ◌>>=◌}
use schema_pilot_api_contrac.Json.{Json, Fields}
use schema_pilot_api_contrac.Runtime.Documents
use schema_pilot_api_contrac.Runtime.Documents.{Store, PayloadSnapshot, DriftDocument}
use schema_pilot_api_contrac.Runtime.Documents.Mongo
use schema_pilot_api_contrac.Runtime.Documents.Mongo.{Client}

-- The writes of a store, each with the identifier and the time that it draws, and the read of a payload
-- snapshot by its identifier. The listings are left out: of documents of one time, two stores may list
-- different ones.
pub data Call : Type 0 where
  payload : (id now : String) → PayloadSnapshot → Call
  drift : (id now : String) → DriftDocument → Call
  error : (id now source path : String) → Json → String → Option Fields → Call
  artifact : (id now source artifact_type : String) → Json → Option Fields → Call
  read : String → Call

-- What a write answers: its document.
abbrev pub written {ℓ} : {S : Type ℓ} → Result (Fields × S) → Result (Option Fields × S)
written call = do made ← call; ok (some made.0, made.1)

-- A call of the store in memory.
unfoldable pub memory : Call → Store → Result (Option Fields × Store)
memory (payload id now p) store = written (Documents.store_payload_snapshot id now p store)
memory (drift id now d) store = written (Documents.store_schema_diff id now d store)
memory (error id now source path errors raw_body metadata) store =
    written (Documents.store_validation_error id now source path errors raw_body metadata store)
memory (artifact id now source kind value metadata) store =
    written (Documents.store_replay_artifact id now source kind value metadata store)
memory (read id) store = ok (Documents.get_payload_snapshot id store, store)

-- The same call of the store over a client.
unfoldable pub remote :
    (client : Client) → Call → client.State → Result (Option Fields × client.State)
remote client (payload id now p) s = written (Mongo.store_payload_snapshot client id now p s)
remote client (drift id now d) s = written (Mongo.store_schema_diff client id now d s)
remote client (error id now source path errors raw_body metadata) s =
    written (Mongo.store_validation_error client id now source path errors raw_body metadata s)
remote client (artifact id now source kind value metadata) s =
    written (Mongo.store_replay_artifact client id now source kind value metadata s)
remote client (read id) s = ok (Mongo.get_payload_snapshot client id s, s)

-- The answers to a sequence of calls.
unfoldable pub answers {ℓ} :
    {S : Type ℓ}
    → (Call → S → Result (Option Fields × S))
    → List Call
    → S
    → Result (List (Option Fields))
answers step [] s = ok []
answers step (call ∷ calls) s = do
  made ← step call s
  rest ← answers step calls made.1
  ok (made.0 ∷ rest)

-- The identifier that a write draws.
abbrev pub id_of : Call → Option String
id_of (payload id now p) = some id
id_of (drift id now d) = some id
id_of (error id now source path errors raw_body metadata) = some id
id_of (artifact id now source kind value metadata) = some id
id_of (read id) = none

-- The store that a sequence of calls leaves in memory.
unfoldable pub left_by : List Call → Store → Result Store
unfolding memory
left_by [] store = ok store
left_by (call ∷ calls) store = do made ← memory call store; left_by calls made.1
