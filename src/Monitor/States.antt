-- ===== src/Monitor/States.antt =====
-- backend/app/core/schema_infer.py: the accumulators by path, and what a scalar does to the one of its path.
use schema_pilot_api_contrac.Base.{
  ℕ, zero, suc, String, ◌<>◌, true, none, some, List, [], ◌∷◌, ◌++◌, ltb, ◌==◌, contains, string_eq,
  nat_eq, if◌then◌else◌,
}
use schema_pilot_api_contrac.Base.Sequence.{length}
use schema_pilot_api_contrac.Base.Dict.{Dict, get, put}
use schema_pilot_api_contrac.Json.{Json, null, boolean, integer, float, text}
use schema_pilot_api_contrac.Monitor.Types.{JsonType, json_type_eq, NodeState, new_state}

abbrev pub enum_threshold : ℕ
enum_threshold = 10

abbrev pub example_max_len : ℕ
example_max_len = 200

unfoldable pub scalar_type : Json → JsonType
scalar_type null = JsonType.null
scalar_type (boolean b) = JsonType.boolean
scalar_type (integer n) = JsonType.integer
scalar_type (float x) = JsonType.number
scalar_type (text s) = JsonType.string
scalar_type _ = JsonType.unknown

-- `s[:n]` and `len(s)`, in characters
unfoldable pub take_chars : ℕ → String → String
take_chars zero s = ""
take_chars (suc n) String.[] = ""
take_chars (suc n) (String.◌∷◌ c s) = String.◌∷◌ c (take_chars n s)

unfoldable pub count_chars : String → ℕ
count_chars String.[] = 0
count_chars (String.◌∷◌ c s) = suc (count_chars s)

unfoldable pub truncate_example : Json → Json
unfolding take_chars count_chars
truncate_example (text s) =
    if ltb example_max_len (count_chars s) then text (take_chars example_max_len s) else text s
truncate_example v = v

unfoldable pub join_path : String → String → String
join_path parent key = if parent == "" then key else parent <> "." <> key

unfoldable pub array_path : String → String
array_path parent = if parent == "" then "[*]" else parent <> "[*]"

-- `states`
abbrev pub States : Type 0
States = Dict NodeState

-- `_ensure`: the node of a path, new if the path has none yet, and the states with it
unfoldable pub ensure_node : String → JsonType → States → NodeState
unfolding get
ensure_node path type states = elim (get path states) [
  | some state ↦ state
  | none ↦ new_state path type
]

unfoldable pub ensure : String → JsonType → States → States
unfolding get put
ensure path type states = elim (get path states) [
  | some state ↦ states
  | none ↦ put path (new_state path type) states
]

-- `set.add`
unfoldable pub add_value : String → List String → List String
add_value value values = if contains values value then values else values ++ (value ∷ [])

-- What `_emit_value` does to the node of a path whose value is None.
unfoldable pub note_null : NodeState → NodeState
note_null state = record state { nullable = true }

-- What it does to the node of a path with another scalar `value` of type `t`: first to the type,
unfoldable pub note_type : JsonType → NodeState → NodeState
unfolding json_type_eq
note_type t state =
    if state.type == JsonType.null
    then record state { type = t; nullable = true }
    else if state.type == t
    then state
    else record state { type = JsonType.mixed }

-- then to the example,
unfoldable pub note_example : Json → NodeState → NodeState
unfolding truncate_example
note_example value state = elim (state.example_value) [
  | none ↦ record state { example_value = some (truncate_example value) }
  | some _ ↦ state
]

-- and, for a text, to the set of enum values.
unfoldable pub note_text : String → NodeState → NodeState
unfolding add_value
note_text value state =
    let values = add_value value state.enum_values in
    if state.enum_disabled
    then record state { is_string_leaf = true }
    else if ltb enum_threshold (length values)
    then record state { is_string_leaf = true; enum_disabled = true; enum_values = [] }
    else record state { is_string_leaf = true; enum_values = values }

unfoldable pub note_scalar : Json → NodeState → NodeState
unfolding note_type note_example note_text scalar_type
note_scalar (text s) state = note_text s (note_example (text s) (note_type JsonType.string state))
note_scalar v state = note_example v (note_type (scalar_type v) state)

-- `_emit_value` on a scalar
unfoldable pub emit_scalar : String → Json → States → States
unfolding put ensure_node note_null note_scalar scalar_type
emit_scalar path null states = put path (note_null (ensure_node path JsonType.null states)) states
emit_scalar path v states =
    put path (note_scalar v (ensure_node path (scalar_type v) states)) states

-- `state.array_item_type = type` on the node that `_ensure` returned for the path
unfoldable pub set_item_type : String → JsonType → States → States
unfolding get put
set_item_type path type states = elim (get path states) [
  | some state ↦ put path (record state { array_item_type = some type }) states
  | none ↦ states
]
