-- ===== src/Monitor/Infer/Walks.antt =====
-- Induction over the walk of a payload: what every step on the states keeps, the whole walk keeps.
use schema_pilot_api_contrac.Base.{ℕ, String, Bool, true, false, [], ◌==◌, string_eq, if◌then◌else◌}
use schema_pilot_api_contrac.Base.Dict.{Dict}
use schema_pilot_api_contrac.Json.{
  Json, Items, Fields, null, boolean, integer, float, text, array, object, nil, cons, end, field,
}
use schema_pilot_api_contrac.Monitor.Types.{JsonType}
use schema_pilot_api_contrac.Monitor.States.{
  States, array_path, ensure, emit_scalar, set_item_type, join_path,
}
use schema_pilot_api_contrac.Monitor.Infer.{
  all_objects, keys_seen, mark_optional, item_types, item_type_of, count_items, open_object,
  walk_array, emit_value, emit_fields, emit_objects, emit_items, walk,
}

module _ (Q : States → Type 0)
    (object_kept : (path : String) (states : States)
      → Q states
      → Q (ensure path JsonType.object states))
    (array_kept : (path : String) (states : States)
      → Q states
      → Q (ensure path JsonType.array states))
    (scalar_kept : (path : String) (v : Json) (states : States)
      → Q states
      → Q (emit_scalar path v states))
    (item_kept : (path : String) (type : JsonType) (states : States)
      → Q states
      → Q (set_item_type path type states))
    (optional_kept : (path : String) (items : ℕ) (seen : Dict ℕ) (states : States)
      → Q states
      → Q (mark_optional path items seen states)) where
  branch_keeps : (b : Bool) {left right : States} → Q left → Q right → Q (if b then left else right)
  branch_keeps true l r = l
  branch_keeps false l r = r

  open_object_keeps : (path : String) (states : States) → Q states → Q (open_object path states)
  unfolding open_object
  open_object_keeps path states q = branch_keeps (path == "") q (object_kept path states q)

  walk_array_keeps :
      (xs : Items) (objects others : String → States → States)
      → ((path : String) (states : States) → Q states → Q (objects path states))
      → ((path : String) (states : States) → Q states → Q (others path states))
      → (parent : String) (states : States) → Q states
      → Q (walk_array xs objects others parent states)
  unfolding walk_array
  walk_array_keeps nil objects others keep_objects keep_others parent states q =
      item_kept _ JsonType.unknown _ (array_kept _ states q)
  walk_array_keeps (cons x xs) objects others keep_objects keep_others parent states q =
      let path = (if parent == "" then "[*]" else parent) in
      let deeper = array_path parent in
      let opened = ensure path JsonType.array states in
      let opened_kept = array_kept path states q in
      let typed = set_item_type path JsonType.object opened in
      branch_keeps (all_objects (cons x xs))
        (optional_kept deeper (count_items (cons x xs)) (keys_seen (cons x xs) [])
          (objects deeper typed)
          (keep_objects deeper typed (item_kept path JsonType.object opened opened_kept)))
        (item_kept path (item_type_of (item_types (cons x xs) [])) (others deeper opened)
          (keep_others deeper opened opened_kept))

  mutual
    unfolding emit_value

    emit_value_keeps :
        (path : String) (v : Json) (states : States) → Q states → Q (emit_value path v states)
    emit_value_keeps path (object fs) states q =
        emit_fields_keeps fs path _ (open_object_keeps path _ (object_kept path states q))
    emit_value_keeps path (array xs) states q =
        walk_array_keeps xs (emit_objects xs) (emit_items xs) (emit_objects_keeps xs)
          (emit_items_keeps xs) path states q
    emit_value_keeps path null states q = scalar_kept path null states q
    emit_value_keeps path (boolean b) states q = scalar_kept path (boolean b) states q
    emit_value_keeps path (integer n) states q = scalar_kept path (integer n) states q
    emit_value_keeps path (float x) states q = scalar_kept path (float x) states q
    emit_value_keeps path (text s) states q = scalar_kept path (text s) states q

    emit_fields_keeps :
        (fs : Fields) (parent : String) (states : States)
        → Q states
        → Q (emit_fields fs parent states)
    emit_fields_keeps end parent states q = q
    emit_fields_keeps (field key v fs) parent states q =
        emit_fields_keeps fs parent _ (emit_value_keeps (join_path parent key) v states q)

    emit_objects_keeps :
        (xs : Items) (path : String) (states : States) → Q states → Q (emit_objects xs path states)
    emit_objects_keeps nil path states q = q
    emit_objects_keeps (cons (object fs) xs) path states q =
        emit_objects_keeps xs path _ (emit_fields_keeps fs path states q)
    emit_objects_keeps (cons (array ys) xs) path states q = emit_objects_keeps xs path states q
    emit_objects_keeps (cons null xs) path states q = emit_objects_keeps xs path states q
    emit_objects_keeps (cons (boolean b) xs) path states q = emit_objects_keeps xs path states q
    emit_objects_keeps (cons (integer n) xs) path states q = emit_objects_keeps xs path states q
    emit_objects_keeps (cons (float x) xs) path states q = emit_objects_keeps xs path states q
    emit_objects_keeps (cons (text s) xs) path states q = emit_objects_keeps xs path states q

    emit_items_keeps :
        (xs : Items) (path : String) (states : States) → Q states → Q (emit_items xs path states)
    emit_items_keeps nil path states q = q
    emit_items_keeps (cons x xs) path states q =
        emit_items_keeps xs path _ (emit_value_keeps path x states q)

  pub walk_keeps :
      (v : Json) (parent : String) (states : States) → Q states → Q (walk v parent states)
  unfolding walk
  walk_keeps (object fs) parent states q =
      emit_fields_keeps fs parent _ (open_object_keeps parent states q)
  walk_keeps (array xs) parent states q =
      walk_array_keeps xs (emit_objects xs) (emit_items xs) (emit_objects_keeps xs)
        (emit_items_keeps xs) parent states q
  walk_keeps null parent states q = emit_value_keeps _ null states q
  walk_keeps (boolean b) parent states q = emit_value_keeps _ (boolean b) states q
  walk_keeps (integer n) parent states q = emit_value_keeps _ (integer n) states q
  walk_keeps (float x) parent states q = emit_value_keeps _ (float x) states q
  walk_keeps (text s) parent states q = emit_value_keeps _ (text s) states q
