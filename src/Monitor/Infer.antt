-- ===== src/Monitor/Infer.antt =====
-- backend/app/core/schema_infer.py: the schema that is inferred from an observed payload.
pub mod Walks
pub mod Nodes
pub mod Steps
pub mod Sorted
use Prim.Native.String.{compare}
use Prim.Native.Nat.{Ordering}
use schema_pilot_api_contrac.Base.{
  ℕ, suc, ◌+◌, String, Bool, true, false, not, ◌&&◌, none, some, List, [], ◌∷◌, ◌++◌, ltb, ◌==◌,
  contains, string_eq, nat_eq, if◌then◌else◌,
}
use schema_pilot_api_contrac.Base.Sequence.{length}
use schema_pilot_api_contrac.Base.Dict.{Dict, get, put}
use schema_pilot_api_contrac.Base.TextOrder.{sorted_set}
use schema_pilot_api_contrac.Json.{Json, Items, Fields, null, array, object, nil, cons, end, field}
use schema_pilot_api_contrac.Monitor.Types.{JsonType, json_type_eq, NodeState, SchemaNode}
use schema_pilot_api_contrac.Monitor.States.{
  States, scalar_type, join_path, array_path, ensure, emit_scalar, set_item_type,
}

-- `all(isinstance(item, dict) for item in data)`
unfoldable pub all_objects : Items → Bool
all_objects nil = true
all_objects (cons (object fs) xs) = all_objects xs
all_objects (cons _ xs) = false

abbrev pub count_items : Items → ℕ
count_items nil = 0
count_items (cons x xs) = suc (count_items xs)

-- `keys_seen[k] = keys_seen.get(k, 0) + 1`
unfoldable pub see_key : String → Dict ℕ → Dict ℕ
unfolding get put
see_key k seen = elim (get k seen) [ none ↦ put k 1 seen | some n ↦ put k (n + 1) seen ]

unfoldable pub see_fields : Fields → Dict ℕ → Dict ℕ
unfolding see_key
see_fields end seen = seen
see_fields (field k v fs) seen = see_fields fs (see_key k seen)

unfoldable pub keys_seen : Items → Dict ℕ → Dict ℕ
unfolding see_fields
keys_seen nil seen = seen
keys_seen (cons (object fs) xs) seen = keys_seen xs (see_fields fs seen)
keys_seen (cons _ xs) seen = keys_seen xs seen

-- `if node and count < len(data): node.required = False`
unfoldable pub relax : String → Bool → States → States
unfolding get put
relax path fewer states = elim (get path states) [
  | none ↦ states
  | some node ↦ if fewer then put path (record node { required = false }) states else states
]

-- The loop over `keys_seen`: keys that some item lacks are not required.
unfoldable pub mark_optional : String → ℕ → Dict ℕ → States → States
unfolding relax join_path
mark_optional item_path items [] states = states
mark_optional item_path items ((key, count) ∷ seen) states =
    mark_optional item_path items seen (relax (join_path item_path key) (ltb count items) states)

-- `item_types`: the types of the items that are not None
unfoldable pub item_types : Items → List JsonType → List JsonType
unfolding scalar_type json_type_eq
item_types nil seen = seen
item_types (cons null xs) seen = item_types xs seen
item_types (cons v xs) seen =
    let t = scalar_type v in item_types xs (if contains seen t then seen else seen ++ (t ∷ []))

-- the type of the items of an array that are not all objects
unfoldable pub item_type_of : List JsonType → JsonType
item_type_of [] = JsonType.null
item_type_of (t ∷ []) = t
item_type_of _ = JsonType.mixed

-- `_walk` on a dict, before its items: the root has no node.
unfoldable pub open_object : String → States → States
unfolding ensure
open_object parent states = if parent == "" then states else ensure parent JsonType.object states

-- `_walk` on a list, given its two loops over the items: over those of a list of dicts, and over those of
-- any other list.
unfoldable pub walk_array :
    Items → (objects others : String → States → States) → String → States → States
unfolding ensure set_item_type all_objects keys_seen mark_optional item_types item_type_of
    array_path
walk_array nil objects others parent states =
    let path = (if parent == "" then "[*]" else parent) in
    set_item_type path JsonType.unknown (ensure path JsonType.array states)
walk_array (cons x xs) objects others parent states =
    let path = (if parent == "" then "[*]" else parent) in
    let item_path = array_path parent in
    let opened = ensure path JsonType.array states in
    if all_objects (cons x xs)
    then mark_optional item_path (count_items (cons x xs)) (keys_seen (cons x xs) [])
        (objects item_path (set_item_type path JsonType.object opened))
    else set_item_type path (item_type_of (item_types (cons x xs) [])) (others item_path opened)

-- `_emit_value`, with `_walk` written out at its calls, and the loops of `_walk`
unfoldable mutual
  unfolding ensure emit_scalar open_object walk_array join_path

  pub emit_value : String → Json → States → States
  emit_value path (object fs) states =
      emit_fields fs path (open_object path (ensure path JsonType.object states))
  emit_value path (array xs) states = walk_array xs (emit_objects xs) (emit_items xs) path states
  emit_value path v states = emit_scalar path v states

  pub emit_fields : Fields → String → States → States
  emit_fields end parent states = states
  emit_fields (field key v fs) parent states =
      emit_fields fs parent (emit_value (join_path parent key) v states)

  pub emit_objects : Items → String → States → States
  emit_objects nil item_path states = states
  emit_objects (cons (object fs) xs) item_path states =
      emit_objects xs item_path (emit_fields fs item_path states)
  emit_objects (cons _ xs) item_path states = emit_objects xs item_path states

  pub emit_items : Items → String → States → States
  emit_items nil item_path states = states
  emit_items (cons x xs) item_path states = emit_items xs item_path (emit_value item_path x states)

-- `_walk`
unfoldable pub walk : Json → String → States → States
unfolding open_object walk_array emit_value
walk (object fs) parent states = emit_fields fs parent (open_object parent states)
walk (array xs) parent states = walk_array xs (emit_objects xs) (emit_items xs) parent states
walk v parent states = emit_value (if parent == "" then "[root]" else parent) v states

-- `_finalize`
unfoldable pub finalize : NodeState → SchemaNode
finalize state = record {
  path = state.path;
  type = state.type;
  required = state.required;
  nullable = state.nullable;
  array_item_type = state.array_item_type;
  enum_values =
      if state.is_string_leaf && not state.enum_disabled && not (length state.enum_values == 0)
      then some (sorted_set state.enum_values)
      else none;
  example_value = state.example_value;
}

-- `sorted(..., key=lambda n: n.path)`: one node more is put in its place.
unfoldable pub insert_node : SchemaNode → List SchemaNode → List SchemaNode
insert_node node [] = node ∷ []
insert_node node (other ∷ nodes) =
    let rest = insert_node node nodes in
    elim (compare node.path other.path) [ Ordering.gt ↦ other ∷ rest | _ ↦ node ∷ other ∷ nodes ]

unfoldable pub sort_nodes : List SchemaNode → List SchemaNode
unfolding insert_node
sort_nodes [] = []
sort_nodes (node ∷ nodes) = insert_node node (sort_nodes nodes)

unfoldable pub finalize_all : States → List SchemaNode
unfolding finalize
finalize_all [] = []
finalize_all ((_, state) ∷ states) = finalize state ∷ finalize_all states

unfoldable pub infer_schema : Json → List SchemaNode
unfolding walk sort_nodes finalize_all
infer_schema body = sort_nodes (finalize_all (walk body "" []))
