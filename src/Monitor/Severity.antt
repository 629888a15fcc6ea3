-- ===== src/Monitor/Severity.antt =====
-- backend/app/core/severity.py: the changes of a schema and how grave each is.
use schema_pilot_api_contrac.Base.{◌≡◌, refl, String, ◌<>◌, none, some, ◌∷◌, [], string_eq}
use schema_pilot_api_contrac.Base.Dict.{Dict, get}
use schema_pilot_api_contrac.Base.Result.{Result, ok, raised, value_error}

-- `ChangeType`: the keys of SEVERITY_TABLE
pub data ChangeType : Type 0 where
  removed_field added_field type_changed int_to_number number_to_int nullable_added : ChangeType
  nullable_removed enum_expanded enum_narrowed enum_changed nested_object_removed : ChangeType
  array_item_type_changed : ChangeType

unfoldable pub change_type_name : ChangeType → String
change_type_name removed_field = "removed_field"
change_type_name added_field = "added_field"
change_type_name type_changed = "type_changed"
change_type_name int_to_number = "int_to_number"
change_type_name number_to_int = "number_to_int"
change_type_name nullable_added = "nullable_added"
change_type_name nullable_removed = "nullable_removed"
change_type_name enum_expanded = "enum_expanded"
change_type_name enum_narrowed = "enum_narrowed"
change_type_name enum_changed = "enum_changed"
change_type_name nested_object_removed = "nested_object_removed"
change_type_name array_item_type_changed = "array_item_type_changed"

-- `SEVERITY_TABLE`
unfoldable pub severity_table : Dict String
severity_table =
    ("removed_field", "breaking")
    ∷ ("added_field", "safe")
    ∷ ("type_changed", "breaking")
    ∷ ("int_to_number", "risky")
    ∷ ("number_to_int", "breaking")
    ∷ ("nullable_added", "risky")
    ∷ ("nullable_removed", "safe")
    ∷ ("enum_expanded", "risky")
    ∷ ("enum_narrowed", "safe")
    ∷ ("enum_changed", "risky")
    ∷ ("nested_object_removed", "breaking")
    ∷ ("array_item_type_changed", "breaking")
    ∷ []

unfoldable pub classify : String → Result String
unfolding get severity_table
classify change_type = elim (get change_type severity_table) [
  | none ↦ raised (value_error ("unknown change_type: " <> change_type))
  | some severity ↦ ok severity
]

-- the severity of a change that is in the table
unfoldable pub severity_of : ChangeType → String
severity_of removed_field = "breaking"
severity_of added_field = "safe"
severity_of type_changed = "breaking"
severity_of int_to_number = "risky"
severity_of number_to_int = "breaking"
severity_of nullable_added = "risky"
severity_of nullable_removed = "safe"
severity_of enum_expanded = "risky"
severity_of enum_narrowed = "safe"
severity_of enum_changed = "risky"
severity_of nested_object_removed = "breaking"
severity_of array_item_type_changed = "breaking"

-- Every change that a comparison of schemas can report is in the table.
pub classify-change_type_name :
    (c : ChangeType) → classify (change_type_name c) ≡ ok (severity_of c)
unfolding classify change_type_name severity_of severity_table get string_eq
classify-change_type_name removed_field = refl
classify-change_type_name added_field = refl
classify-change_type_name type_changed = refl
classify-change_type_name int_to_number = refl
classify-change_type_name number_to_int = refl
classify-change_type_name nullable_added = refl
classify-change_type_name nullable_removed = refl
classify-change_type_name enum_expanded = refl
classify-change_type_name enum_narrowed = refl
classify-change_type_name enum_changed = refl
classify-change_type_name nested_object_removed = refl
classify-change_type_name array_item_type_changed = refl
