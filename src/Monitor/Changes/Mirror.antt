-- ===== src/Monitor/Changes/Mirror.antt =====
-- The change of a node, seen from either side.
use schema_pilot_api_contrac.Base.{
  String, ◌≡◌, refl, Option, none, some, List, arith, bool_eq, option_eq,
}
use schema_pilot_api_contrac.Monitor.Types.{json_type_eq, SchemaNode}
use schema_pilot_api_contrac.Monitor.Severity.{ChangeType}
use schema_pilot_api_contrac.Monitor.Changes.{
  pick_change_type, pick_enums, pick_enum_change, pick_item_change,
}

-- The change back.
abbrev pub mirror : ChangeType → ChangeType
mirror ChangeType.removed_field = ChangeType.added_field
mirror ChangeType.nested_object_removed = ChangeType.added_field
mirror ChangeType.added_field = ChangeType.removed_field
mirror ChangeType.int_to_number = ChangeType.number_to_int
mirror ChangeType.number_to_int = ChangeType.int_to_number
mirror ChangeType.nullable_added = ChangeType.nullable_removed
mirror ChangeType.nullable_removed = ChangeType.nullable_added
mirror ChangeType.enum_expanded = ChangeType.enum_narrowed
mirror ChangeType.enum_narrowed = ChangeType.enum_expanded
mirror ChangeType.type_changed = ChangeType.type_changed
mirror ChangeType.enum_changed = ChangeType.enum_changed
mirror ChangeType.array_item_type_changed = ChangeType.array_item_type_changed

abbrev pub mirrored : Option ChangeType → Option ChangeType
mirrored none = none
mirrored (some c) = some (mirror c)

pick_enums-mirrored : (a b : Option (List String)) → pick_enums b a ≡ mirrored (pick_enums a b)
unfolding pick_enums pick_enum_change
pick_enums-mirrored none none = refl
pick_enums-mirrored none (some ys) = refl
pick_enums-mirrored (some xs) none = refl
pick_enums-mirrored (some xs) (some ys) = ground arith

pick_item_change-mirrored :
    (a b : SchemaNode) → pick_item_change b a ≡ mirrored (pick_item_change a b)
unfolding pick_item_change
pick_item_change-mirrored a b = ground arith

-- The comparison of two nodes is symmetric: with the nodes exchanged it reports the change back, and nothing
-- just where it reported nothing.
pub pick_change_type-mirrored :
    (old new : SchemaNode) → pick_change_type new old ≡ mirrored (pick_change_type old new)
unfolding pick_change_type
pick_change_type-mirrored old new =
    ground (
      arith,
      pick_enums-mirrored old.enum_values new.enum_values,
      pick_item_change-mirrored old new,
    )
