-- ===== src/Runtime/Documents/Alike.antt =====
-- The MongoDB store against the store in memory: the same answers, up to an insertion that the client refuses.
use schema_pilot_api_contrac.Base.{String, ◌≡◌, ◌⊎◌, Option, List, ◌∷◌}
use schema_pilot_api_contrac.Base.Result.{Result, Exception, ok, raised}
use schema_pilot_api_contrac.Base.Dict.{get}
use schema_pilot_api_contrac.Json.{Fields}
use schema_pilot_api_contrac.Runtime.Documents
use schema_pilot_api_contrac.Runtime.Documents.{
  Collection, Store, collection, PayloadSnapshot, DriftDocument,
}
use schema_pilot_api_contrac.Runtime.Documents.Calls.{Call, written, memory, remote, answers}
use schema_pilot_api_contrac.Runtime.Documents.Mongo
use schema_pilot_api_contrac.Runtime.Documents.Mongo.{Client}

module _ (client : Client) where
  open client use {State, insert_one, find_one, find_one-insert_one}

  -- The client's database holds what the store in memory holds.
  abbrev Holds : Store → State → Type 0
  Holds store s = (c : Collection) (i : String) → find_one c i s ≡ get i (collection c store)

  -- A call is a write whose insertion the client refuses.
  pub record IsRefused (call : Call) (s : State) (exception : Exception) : Type 0 where
    pub into : Collection
    pub doc : Fields
    pub writes : remote client call s ≡ written (Mongo.insert client into doc s)
    pub refused : insert_one into doc s ≡ raised exception

  -- The calls are answered up to one that is refused.
  pub data Stops : List Call → State → Exception → Type 0 where
    here :
        (call : Call) (calls : List Call) (s : State) (exception : Exception)
        → IsRefused call s exception
        → Stops (call ∷ calls) s exception
    later :
        (call : Call) (calls : List Call) (s s' : State) (a : Option Fields) (exception : Exception)
        → remote client call s ≡ ok (a, s')
        → Stops calls s' exception
        → Stops (call ∷ calls) s exception

  -- One call of both stores: refused over the client, or the same answer, and stores that go on alike.
  record IsAnswered (call : Call) (store : Store) (s : State) : Type 0 where
    answer : Option Fields
    store' : Store
    in_memory : memory call store ≡ ok (answer, store')
    over_client :
        ((s' : State) × (remote client call s ≡ ok (answer, s')) × Holds store' s')
        ⊎ ((exception : Exception) × IsRefused call s exception)

  -- The answers over the client: those in memory, or the exception of an insertion that is refused.
  abbrev pub Follows : List Call → State → List (Option Fields) → Type 0
  Follows calls s found =
      (answers (remote client) calls s ≡ ok found)
      ⊎ ((exception : Exception) × (answers (remote client) calls s ≡ raised exception)
          × Stops calls s exception)
