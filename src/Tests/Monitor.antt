-- ===== src/Tests/Monitor.antt =====
-- Runs of the monitor's schemas, comparisons and changelogs at small data.
use mathlib.Core.Option.{or_else}
use native.Mathlib.Decide.{ℕ_discrete}
use schema_pilot_api_contrac.Base.{
  ◌≡◌, refl, ◌≢◌, String, List, [], ◌∷◌, Option, true, false, none, some, map, string_eq, nat_eq,
}
use schema_pilot_api_contrac.Base.Sequence.{All}
use schema_pilot_api_contrac.Base.TextOrder.{IsIncreasing}
use schema_pilot_api_contrac.Json.{
  pos, Json, null, integer, text, array, object, nil, cons, end, field,
}
use schema_pilot_api_contrac.Monitor.Types.{JsonType, SchemaNode}
use schema_pilot_api_contrac.Monitor.Infer.{infer_schema}
use schema_pilot_api_contrac.Monitor.Infer.Sorted.{
  paths, NodeOk, infer_schema-IsIncreasing, infer_schema-NodeOk,
}
use schema_pilot_api_contrac.Monitor.Severity.{ChangeType}
use schema_pilot_api_contrac.Monitor.Changes.{pick_change_type}
use schema_pilot_api_contrac.Monitor.Changes.Mirror.{pick_change_type-mirrored}
use schema_pilot_api_contrac.Monitor.Diff.{diff_schemas}
use schema_pilot_api_contrac.Monitor.Diff.Loops.{changes_at}
use schema_pilot_api_contrac.Monitor.Diff.Exact.{diff_schemas_exact}
use schema_pilot_api_contrac.Monitor.Normalizer.{normalize}
use schema_pilot_api_contrac.Monitor.Normalizer.Reordered.{objects, swapped, normalize-Reordered}

-- {"id": 7, "tags": [{"k": "x"}, {"k": "y", "v": None}], "a": None}
abbrev body : Json
body = object (
    field "id" (integer (pos 7)) (
      field "tags"
        (array (
          cons (object (field "k" (text "x") end))
            (cons (object (field "k" (text "y") (field "v" null end))) nil)))
        (field "a" null end)))

infer_schema-IsIncreasing_example : IsIncreasing (paths (infer_schema body))
infer_schema-IsIncreasing_example = infer_schema-IsIncreasing body

infer_schema-NodeOk_example : All NodeOk (infer_schema body)
infer_schema-NodeOk_example = infer_schema-NodeOk body

-- The path of the first key that some item lacks is not required.
optional_key : map (λ n. n.required) (infer_schema body) ≡ true ∷ true ∷ true ∷ true ∷ false ∷ []
unfolding infer_schema string_eq ℕ_discrete
optional_key = refl

-- What is inferred for the items of an array depends on their order: a text before an object, and after it.
text_first :
    map
      (λ n. n.type)
      (infer_schema (object (field "a" (array (cons (text "x") (cons (object end) nil))) end)))
    ≡ JsonType.array ∷ JsonType.string ∷ []
unfolding infer_schema string_eq ℕ_discrete
text_first = refl

object_first :
    map
      (λ n. n.type)
      (infer_schema (object (field "a" (array (cons (object end) (cons (text "x") nil))) end)))
    ≡ JsonType.array ∷ JsonType.mixed ∷ []
unfolding infer_schema string_eq ℕ_discrete
object_first = refl

abbrev node : String → JsonType → Option (List String) → SchemaNode
node path type enum_values = record {
  path = path;
  type = type;
  required = true;
  nullable = false;
  array_item_type = none;
  enum_values = enum_values;
  example_value = none;
}

abbrev old_nodes : List SchemaNode
old_nodes =
    node "age" JsonType.integer none
    ∷ node "kind" JsonType.string (some ("a" ∷ "b" ∷ []))
    ∷ node "tags" JsonType.object none
    ∷ []

abbrev new_nodes : List SchemaNode
new_nodes =
    node "age" JsonType.number none
    ∷ node "kind" JsonType.string (some ("a" ∷ "b" ∷ "c" ∷ []))
    ∷ node "zip" JsonType.string none
    ∷ []

diff_schemas_exact_example :
    changes_at "kind" (diff_schemas old_nodes new_nodes) ≡ ChangeType.enum_expanded ∷ []
unfolding diff_schemas or_else string_eq ℕ_discrete
diff_schemas_exact_example = diff_schemas_exact "kind" old_nodes new_nodes

all_changes :
    map (λ d. d.change_type) (diff_schemas old_nodes new_nodes)
    ≡ ChangeType.nested_object_removed ∷ ChangeType.added_field ∷ ChangeType.int_to_number
      ∷ ChangeType.enum_expanded ∷ []
unfolding diff_schemas string_eq ℕ_discrete
all_changes = refl

enum_message :
    map
      (λ d. d.message)
      (diff_schemas
        (node "kind" JsonType.string (some ("a" ∷ [])) ∷ [])
        (node "kind" JsonType.string (some ("it's" ∷ "a" ∷ [])) ∷ []))
    ≡ "Field kind enum expanded; new values: [\"it's\"]." ∷ []
unfolding diff_schemas string_eq ℕ_discrete nat_eq
enum_message = refl

pick_change_type-mirrored_example :
    pick_change_type (node "age" JsonType.number none) (node "age" JsonType.integer none)
    ≡ some ChangeType.number_to_int
unfolding pick_change_type ℕ_discrete
pick_change_type-mirrored_example =
    pick_change_type-mirrored (node "age" JsonType.integer none) (node "age" JsonType.number none)

other_keys : ◌≢◌ {A = String} "ab" "a"
other_keys e = cc

normalize-Reordered_example :
    normalize (λ v. 300000) (λ cap v. none) (object (field "ab" null (field "a" null end))) none
    ≡ normalize (λ v. 300000) (λ cap v. none) (object (field "a" null (field "ab" null end))) none
unfolding normalize
normalize-Reordered_example =
    normalize-Reordered (λ v. 300000) (λ cap v. none) (objects (swapped other_keys null null end))
      none
