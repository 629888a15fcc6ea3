-- ===== src/Monitor/Infer/Steps.antt =====
-- Every step of the inference keeps one node per path, and each node sound.
use schema_pilot_api_contrac.Base.{
  ℕ, String, refl, ◌≢◌, inl, inr, Bool, true, false, some, [], ◌∷◌, arith, ltb, Option-cases,
}
use schema_pilot_api_contrac.Json.{Json, null, boolean, integer, float, text, array, object}
use schema_pilot_api_contrac.Monitor.Types.{JsonType, json_type_eq, NodeState, new_state}
use schema_pilot_api_contrac.Monitor.States.{
  States, note_null, note_scalar, scalar_type, ensure, ensure_node, set_item_type, emit_scalar,
  join_path,
}
use schema_pilot_api_contrac.Base.Dict.{
  Dict, get, put, NodupKeys, Entries, get-Entries, put-Entries, put-NodupKeys,
}
use schema_pilot_api_contrac.Monitor.Infer.{mark_optional, relax, walk}
use schema_pilot_api_contrac.Monitor.Infer.Nodes.{Sound, note_scalar-Sound}
use schema_pilot_api_contrac.Monitor.Infer.Walks.{walk_keeps}

-- The whole states: one node per path, and each node sound.
abbrev pub IsSound : States → Type 0
IsSound states = NodupKeys states × Entries Sound states

put-IsSound :
    (k : String) (s : NodeState) (states : States)
    → Sound k s
    → IsSound states
    → IsSound (put k s states)
put-IsSound k s states h (u, e) = (put-NodupKeys k s states u, put-Entries Sound k s states h e)

new_state-Sound : (k : String) (t : JsonType) → t ≢ JsonType.null → Sound k (new_state k t)
new_state-Sound k t ne = (refl, inl ne, inl refl, omega arith, tt)

ensure_node-Sound :
    (k : String) (t : JsonType) (states : States)
    → t ≢ JsonType.null
    → IsSound states
    → Sound k (ensure_node k t states)
unfolding ensure_node
ensure_node-Sound k t states ne h = elim (Option-cases (get k states)) [
  | inl missing ↦ rw (missing, ensure_node) (new_state-Sound k t ne)
  | inr (s, found) ↦ rw (found, ensure_node) (get-Entries Sound k states h.1 found)
]

ensure-IsSound :
    (k : String) (t : JsonType) (states : States)
    → t ≢ JsonType.null
    → IsSound states
    → IsSound (ensure k t states)
unfolding ensure
ensure-IsSound k t states ne h = elim (Option-cases (get k states)) [
  | inl missing ↦
      rw (missing, ensure) (put-IsSound k (new_state k t) states (new_state-Sound k t ne) h)
  | inr (s, found) ↦ rw (found, ensure) h
]

set_item_type-IsSound :
    (k : String) (t : JsonType) (states : States)
    → IsSound states
    → IsSound (set_item_type k t states)
unfolding set_item_type
set_item_type-IsSound k t states h = elim (Option-cases (get k states)) [
  | inl missing ↦ rw (missing, set_item_type) h
  | inr (s, found) ↦
      rw (found, set_item_type)
        (put-IsSound k (record s { array_item_type = some t }) states
          (get-Entries Sound k states h.1 found) h)
]

note_null-Sound :
    (k : String) (states : States)
    → IsSound states
    → Sound k (note_null (ensure_node k JsonType.null states))
unfolding note_null ensure_node
note_null-Sound k states h = elim (Option-cases (get k states)) [
  | inl missing ↦ rw (missing, ensure_node) (refl, inr refl, inl refl, omega arith, tt)
  | inr (s, found) ↦
      let e = get-Entries Sound k states h.1 found in
      rw (found, ensure_node) (e.0, inr refl, e.2, e.3, e.4)
]

emit_other-IsSound :
    (k : String) (v : Json) (states : States)
    → scalar_type v ≢ JsonType.null
    → IsSound states
    → IsSound (put k (note_scalar v (ensure_node k (scalar_type v) states)) states)
emit_other-IsSound k v states ne h =
    let node = ensure_node k (scalar_type v) states in
    put-IsSound k (note_scalar v node) states
      (note_scalar-Sound v ne k node (ensure_node-Sound k (scalar_type v) states ne h)) h

emit_scalar-IsSound :
    (k : String) (v : Json) (states : States) → IsSound states → IsSound (emit_scalar k v states)
unfolding emit_scalar scalar_type
emit_scalar-IsSound k null states h =
    put-IsSound k (note_null (ensure_node k JsonType.null states)) states
      (note_null-Sound k states h) h
emit_scalar-IsSound k (boolean b) states h = emit_other-IsSound k (boolean b) states (λ e. cc) h
emit_scalar-IsSound k (integer b) states h = emit_other-IsSound k (integer b) states (λ e. cc) h
emit_scalar-IsSound k (float b) states h = emit_other-IsSound k (float b) states (λ e. cc) h
emit_scalar-IsSound k (text b) states h = emit_other-IsSound k (text b) states (λ e. cc) h
emit_scalar-IsSound k (array b) states h = emit_other-IsSound k (array b) states (λ e. cc) h
emit_scalar-IsSound k (object b) states h = emit_other-IsSound k (object b) states (λ e. cc) h

relax-IsSound :
    (k : String) (fewer : Bool) (states : States) → IsSound states → IsSound (relax k fewer states)
unfolding relax
relax-IsSound k true states h = elim (Option-cases (get k states)) [
  | inl missing ↦ rw (missing, relax) h
  | inr (s, found) ↦
      rw (found, relax)
        (put-IsSound k (record s { required = false }) states (get-Entries Sound k states h.1 found)
          h)
]
relax-IsSound k false states h = elim (Option-cases (get k states)) [
  | inl missing ↦ rw (missing, relax) h
  | inr (s, found) ↦ rw (found, relax) h
]

mark_optional-IsSound :
    (path : String) (items : ℕ) (seen : Dict ℕ) (states : States)
    → IsSound states
    → IsSound (mark_optional path items seen states)
unfolding mark_optional
mark_optional-IsSound path items [] states h = h
mark_optional-IsSound path items ((key, count) ∷ seen) states h =
    mark_optional-IsSound path items seen _
      (relax-IsSound (join_path path key) (ltb count items) states h)

pub walk-IsSound : (body : Json) → IsSound (walk body "" [])
walk-IsSound body =
    walk_keeps IsSound (λ k states. ensure-IsSound k JsonType.object states (λ e. cc))
      (λ k states. ensure-IsSound k JsonType.array states (λ e. cc)) emit_scalar-IsSound
      set_item_type-IsSound mark_optional-IsSound body "" [] (tt, tt)
