-- ===== src/Monitor/Diff.antt =====
-- backend/app/core/schema_diff.py: the changes between two inferred schemas.
pub mod Loops
pub mod Exact
pub mod Unchanged
use schema_pilot_api_contrac.Base.{
  String, not, Option, none, some, List, [], ◌∷◌, ◌++◌, ◌==◌, contains, string_eq, bool_eq,
  option_eq, if◌then◌else◌,
}
use schema_pilot_api_contrac.Base.Sequence.{filter}
use schema_pilot_api_contrac.Base.Dict.{Dict, keys, get, put}
use schema_pilot_api_contrac.Base.TextOrder.{sorted_set}
use schema_pilot_api_contrac.Json.{Json}
use schema_pilot_api_contrac.Monitor.Types.{JsonType, json_type_eq, SchemaNode}
use schema_pilot_api_contrac.Monitor.Severity.{ChangeType, severity_of}
use schema_pilot_api_contrac.Monitor.Changes.{msg, pick_change_type}

-- `Diff`
pub record Diff : Type 0 where
  pub severity : String
  pub change_type : ChangeType
  pub path : String
  pub old_type : Option JsonType
  pub new_type : Option JsonType
  pub old_value : Option Json
  pub new_value : Option Json
  pub message : String

-- `{n.path: n for n in nodes}`
unfoldable pub by_path : List SchemaNode → Dict SchemaNode → Dict SchemaNode
unfolding put
by_path [] nodes = nodes
by_path (n ∷ ns) nodes = by_path ns (put n.path n nodes)

-- `sorted(a.keys() - b.keys())` and `sorted(a.keys() & b.keys())`
unfoldable pub only_in : Dict SchemaNode → Dict SchemaNode → List String
unfolding sorted_set
only_in a b = sorted_set (filter (λ p. not (contains (keys b) p)) (keys a))

unfoldable pub in_both : Dict SchemaNode → Dict SchemaNode → List String
unfolding sorted_set
in_both a b = sorted_set (filter (λ p. contains (keys b) p) (keys a))

-- the entries of the three loops at one path; `[]` for `continue`
unfoldable pub removed_at : Dict SchemaNode → String → List Diff
unfolding get json_type_eq msg severity_of
removed_at old path = elim (get path old) [
  | none ↦ []
  | some node ↦
      let change =
        (if node.type == JsonType.object
          then ChangeType.nested_object_removed
          else ChangeType.removed_field) in
      (record {
        severity = severity_of change;
        change_type = change;
        path = path;
        old_type = some node.type;
        new_type = none;
        old_value = none;
        new_value = none;
        message = msg change path none none [] [];
      })
      ∷ []
]

unfoldable pub added_at : Dict SchemaNode → String → List Diff
unfolding get msg severity_of
added_at new path = elim (get path new) [
  | none ↦ []
  | some node ↦
      (record {
        severity = severity_of ChangeType.added_field;
        change_type = ChangeType.added_field;
        path = path;
        old_type = none;
        new_type = some node.type;
        old_value = none;
        new_value = none;
        message = msg ChangeType.added_field path none none [] [];
      })
      ∷ []
]

abbrev enum_list : Option (List String) → List String
enum_list none = []
enum_list (some values) = values

-- `set(a or []) - set(b or [])`
unfoldable pub minus : Option (List String) → Option (List String) → List String
minus a b = filter (λ v. not (contains (enum_list b) v)) (enum_list a)

-- The message of a change, with the keyword arguments that the loop sets for it.
unfoldable pub message_of : ChangeType → String → SchemaNode → SchemaNode → String
unfolding msg minus
message_of ChangeType.enum_expanded path old new =
    msg ChangeType.enum_expanded path (some old.type) (some new.type)
      (minus new.enum_values old.enum_values) []
message_of ChangeType.enum_narrowed path old new =
    msg ChangeType.enum_narrowed path (some old.type) (some new.type) []
      (minus old.enum_values new.enum_values)
message_of ChangeType.enum_changed path old new =
    msg ChangeType.enum_changed path (some old.type) (some new.type)
      (minus new.enum_values old.enum_values) (minus old.enum_values new.enum_values)
message_of ChangeType.array_item_type_changed path old new =
    msg ChangeType.array_item_type_changed path old.array_item_type new.array_item_type [] []
message_of change path old new = msg change path (some old.type) (some new.type) [] []

unfoldable pub change_entry : String → SchemaNode → SchemaNode → Option ChangeType → List Diff
unfolding message_of severity_of
change_entry path old new none = []
change_entry path old new (some change) =
    (record {
      severity = severity_of change;
      change_type = change;
      path = path;
      old_type = some old.type;
      new_type = some new.type;
      old_value = old.example_value;
      new_value = new.example_value;
      message = message_of change path old new;
    })
    ∷ []

unfoldable pub changed_at : Dict SchemaNode → Dict SchemaNode → String → List Diff
unfolding get change_entry pick_change_type
changed_at old new path = elim (get path old) [
  | none ↦ []
  | some old_n ↦ elim (get path new) [
    | none ↦ []
    | some new_n ↦ change_entry path old_n new_n (pick_change_type old_n new_n)
  ]
]

-- A loop over paths that appends to `diffs`.
abbrev pub collect : (String → List Diff) → List String → List Diff
collect entries [] = []
collect entries (path ∷ paths) = entries path ++ collect entries paths

unfoldable pub diff_schemas : List SchemaNode → List SchemaNode → List Diff
unfolding by_path only_in in_both removed_at added_at changed_at
diff_schemas old new =
    let a = by_path old [] in
    let b = by_path new [] in
    collect (removed_at a) (only_in a b)
    ++ collect (added_at b) (only_in b a)
    ++ collect (changed_at a b) (in_both a b)
