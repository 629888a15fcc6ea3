-- ===== src/Runtime/Documents/Returns.antt =====
-- The store in memory answers every call, and a call touches no document but the one that it writes.
use schema_pilot_api_contrac.Base.{
  inl, inr, Bool-cases, String, false, ◌≡◌, ◌≢◌, refl, ◌∙◌, sym, ap, arith, Option, some, List, [],
  ◌∷◌, ◌==◌, string_eq,
}
use schema_pilot_api_contrac.Base.Result.{Result, ok, ◌>>=◌}
use schema_pilot_api_contrac.Base.Dict.{get, put, key_eq}
use schema_pilot_api_contrac.Json.{Fields, text, get_field}
use schema_pilot_api_contrac.Runtime.Documents
use schema_pilot_api_contrac.Runtime.Documents.{
  Collection, payload_snapshots, schema_diffs, validation_errors, replay_artifacts, Store,
  collection, with_collection, document, update_fields, put_field, payload_fields, drift_fields,
  error_fields, artifact_fields,
}
use schema_pilot_api_contrac.Runtime.Documents.Collections.{get-with_collection}
use schema_pilot_api_contrac.Runtime.Documents.Calls.{
  Call, payload, drift, error, artifact, read, written, memory, answers, id_of,
}

pub record Returns (call : Call) (store : Store) : Type 0 where
  pub answer : Option Fields
  pub store' : Store
  pub returned : memory call store ≡ ok (answer, store')
  pub kept :
      (c : Collection) (j : String)
      → id_of call ≢ some j
      → get j (collection c store') ≡ get j (collection c store)

write-Returns :
    (call : Call) (c : Collection) (id : String) (doc : Fields) (store : Store)
    → id_of call ≡ some id
    → memory call store ≡ written (Documents.insert c doc store)
    → get_field "_id" doc ≡ some (text id)
    → Returns call store
unfolding Documents.insert
write-Returns call c id doc store named e has =
    let after = with_collection c (put id doc (collection c store)) store in
    let inserted : Documents.insert c doc store ≡ ok (doc, after) =
      rw (has, Documents.insert) refl in
    record {
      answer = some doc;
      store' = after;
      returned = e ∙ ap written inserted;
      kept = λ c' j other.
          let differ : (j == id) ≡ false = elim (Bool-cases (j == id)) [
            | inl same ↦ absurd (other (named ∙ ap (λ k. some k) (sym (key_eq j id same))))
            | inr d ↦ d
          ] in
          get-with_collection j id doc store c c' ∙ ground (arith, differ);
    }

pub memory-Returns : (call : Call) (store : Store) → Returns call store
unfolding memory document update_fields put_field get_field string_eq
    Documents.store_payload_snapshot Documents.store_schema_diff Documents.store_validation_error
    Documents.store_replay_artifact Documents.get_payload_snapshot
memory-Returns (payload id now p) store =
    write-Returns (payload id now p) payload_snapshots id
      (document id now "payload_snapshot" (payload_fields p)) store refl refl refl
memory-Returns (drift id now d) store =
    write-Returns (drift id now d) schema_diffs id (document id now "schema_diff" (drift_fields d))
      store refl refl refl
memory-Returns (error id now source path errors raw_body metadata) store =
    write-Returns (error id now source path errors raw_body metadata) validation_errors id
      (document id now "validation_error" (error_fields source path errors raw_body metadata)) store
      refl refl refl
memory-Returns (artifact id now source kind value metadata) store =
    write-Returns (artifact id now source kind value metadata) replay_artifacts id
      (document id now "replay_artifact" (artifact_fields source kind value metadata)) store refl
      refl refl
memory-Returns (read id) store = record {
  answer = get id store.snapshots;
  store' = store;
  returned = refl;
  kept = λ c j other. refl;
}

pub answers-cons :
    {S : Type 0} (step : Call → S → Result (Option Fields × S)) (call : Call) (calls : List Call)
    (s s' : S) (a : Option Fields)
    → step call s ≡ ok (a, s')
    → answers step (call ∷ calls) s ≡ (answers step calls s' >>= (λ rest. ok (a ∷ rest)))
unfolding answers
answers-cons step call calls s s' a h = rw h refl

pub answers-cons_ok :
    {S : Type 0} (step : Call → S → Result (Option Fields × S)) (call : Call) (calls : List Call)
    (s s' : S) (a : Option Fields) (found : List (Option Fields))
    → step call s ≡ ok (a, s')
    → answers step calls s' ≡ ok found
    → answers step (call ∷ calls) s ≡ ok (a ∷ found)
answers-cons_ok step call calls s s' a found h k =
    let keep : List (Option Fields) → Result (List (Option Fields)) = λ rest. ok (a ∷ rest) in
    answers-cons step call calls s s' a h ∙ ap (λ r. r >>= keep) k

pub answers-memory :
    (calls : List Call) (store : Store)
    → (found : List (Option Fields)) × (answers memory calls store ≡ ok found)
unfolding answers
answers-memory [] store = ([], refl)
answers-memory (call ∷ calls) store =
    let r = memory-Returns call store in
    let (found, e) = answers-memory calls r.store' in
    (r.answer ∷ found, answers-cons_ok memory call calls store r.store' r.answer found r.returned e)
