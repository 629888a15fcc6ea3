-- ===== src/Monitor/Changes.antt =====
-- backend/app/core/schema_diff.py: the change between two nodes of one path, and its message.
pub mod Mirror
use schema_pilot_api_contrac.Base.{
  String, ◌<>◌, Bool, true, not, ◌&&◌, Option, none, some, List, [], ◌∷◌, ◌==◌, contains, string_eq,
  bool_eq, option_eq, if◌then◌else◌,
}
use schema_pilot_api_contrac.Base.TextOrder.{sorted_set}
use schema_pilot_api_contrac.Schema.{SchemaItems, literal, list, no_items, item, repr}
use schema_pilot_api_contrac.Monitor.Types.{JsonType, json_type_eq, type_name, SchemaNode}
use schema_pilot_api_contrac.Monitor.Severity.{ChangeType}

-- `f"{kwargs.get(...)}"` of an optional type
unfoldable pub type_text : Option JsonType → String
unfolding type_name
type_text none = "None"
type_text (some t) = type_name t

abbrev pub literals : List String → SchemaItems
literals [] = no_items
literals (s ∷ ss) = item (literal s) (literals ss)

-- `f"{sorted(values)}"` of a list of different texts
unfoldable pub values_text : List String → String
unfolding repr sorted_set
values_text values = repr (list (literals (sorted_set values)))

-- `_msg`, given its keyword arguments
unfoldable pub msg :
    ChangeType
    → String
    → (old_type new_type : Option JsonType) → (added removed : List String) → String
unfolding type_text values_text
msg ChangeType.removed_field path old_type new_type added removed =
    "Field " <> path <> " was removed from the response schema."
msg ChangeType.added_field path old_type new_type added removed =
    "Field " <> path <> " was added to the response schema."
msg ChangeType.type_changed path old_type new_type added removed =
    "Field "
    <> path
    <> " type changed from "
    <> type_text old_type
    <> " to "
    <> type_text new_type
    <> "."
msg ChangeType.int_to_number path old_type new_type added removed =
    "Field " <> path <> " type widened from integer to number "
    <> "(consumers may receive floating-point values)."
msg ChangeType.number_to_int path old_type new_type added removed =
    "Field " <> path <> " type narrowed from number to integer "
    <> "(decimal values no longer returned)."
msg ChangeType.nullable_added path old_type new_type added removed =
    "Field " <> path <> " is now nullable (consumers may receive null)."
msg ChangeType.nullable_removed path old_type new_type added removed =
    "Field " <> path <> " is no longer nullable (null values no longer returned)."
msg ChangeType.enum_expanded path old_type new_type added removed =
    "Field " <> path <> " enum expanded; new values: " <> values_text added <> "."
msg ChangeType.enum_narrowed path old_type new_type added removed =
    "Field " <> path <> " enum narrowed; removed values: " <> values_text removed <> "."
msg ChangeType.enum_changed path old_type new_type added removed =
    "Field "
    <> path
    <> " enum values changed; added: "
    <> values_text added
    <> ", removed: "
    <> values_text removed
    <> "."
msg ChangeType.nested_object_removed path old_type new_type added removed =
    "Nested object " <> path <> " was removed."
msg ChangeType.array_item_type_changed path old_type new_type added removed =
    "Array "
    <> path
    <> " item type changed from "
    <> type_text old_type
    <> " to "
    <> type_text new_type
    <> "."

-- `a <= b` on sets of texts
unfoldable pub subset : List String → List String → Bool
subset [] ys = true
subset (x ∷ xs) ys = contains ys x && subset xs ys

-- The change of two sets of enum values; none if they are equal.
unfoldable pub pick_enum_change : List String → List String → Option ChangeType
unfolding subset
pick_enum_change old_set new_set =
    if subset old_set new_set
    then if subset new_set old_set then none else some ChangeType.enum_expanded
    else if subset new_set old_set
    then some ChangeType.enum_narrowed
    else some ChangeType.enum_changed

unfoldable pub pick_enums : Option (List String) → Option (List String) → Option ChangeType
unfolding pick_enum_change
pick_enums (some old) (some new) = pick_enum_change old new
pick_enums _ _ = none

unfoldable pub pick_item_change : SchemaNode → SchemaNode → Option ChangeType
unfolding json_type_eq option_eq
pick_item_change old new =
    if old.type == JsonType.array
      && new.type == JsonType.array
      && not (old.array_item_type == new.array_item_type)
    then some ChangeType.array_item_type_changed
    else none

-- `_pick_change_type`
unfoldable pub pick_change_type : SchemaNode → SchemaNode → Option ChangeType
unfolding json_type_eq bool_eq pick_enums pick_item_change
pick_change_type old new =
    if not (old.type == new.type)
    then if old.type == JsonType.integer && new.type == JsonType.number
      then some ChangeType.int_to_number
      else if old.type == JsonType.number && new.type == JsonType.integer
      then some ChangeType.number_to_int
      else some ChangeType.type_changed
    else if not (old.nullable == new.nullable)
    then if new.nullable then some ChangeType.nullable_added else some ChangeType.nullable_removed
    else elim (pick_enums old.enum_values new.enum_values) [
      | some change ↦ some change
      | none ↦ pick_item_change old new
    ]
