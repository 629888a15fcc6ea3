-- ===== src/Core/Parser.antt =====
-- app/core/parser.py: the normalized schema of a payload and the text that its fingerprint is made of.
pub mod Sorting
pub mod Alike
use Prim.Native.Nat.{Ordering}
use Prim.Native.String.{compare}
use schema_pilot_api_contrac.Base.{
  String, ◌<>◌, Bool, true, false, ◌&&◌, Option, none, some, List, [], ◌∷◌, ◌++◌, ◌==◌, string_eq,
  if◌then◌else◌,
}
use schema_pilot_api_contrac.Base.Result.{Result, ok, raised, type_error, ◌>>=◌}
use schema_pilot_api_contrac.Base.TextOrder.{sorted_set}
use schema_pilot_api_contrac.Json.{
  Json, Items, Fields, null, boolean, integer, float, text, array, object, nil, cons, end, field,
}
use schema_pilot_api_contrac.Schema.{
  Schema, SchemaItems, SchemaFields, literal, flag, list, dict, no_items, item, no_entries, entry,
  insert_entry,
}

-- `_primitive_type`. Its last branch, for values that are no JSON, is never taken.
unfoldable pub primitive_type : Json → String
primitive_type null = "null"
primitive_type (boolean b) = "bool"
primitive_type (integer n) = "int"
primitive_type (float x) = "float"
primitive_type (text s) = "string"
primitive_type _ = "unknown"

-- `normalize_types`
unfoldable mutual
  unfolding insert_entry primitive_type

  pub normalize_types : Json → Schema
  normalize_types (object fs) = dict (normalize_fields fs)
  normalize_types (array xs) = list (normalize_items xs)
  normalize_types v = literal (primitive_type v)

  pub normalize_items : Items → SchemaItems
  normalize_items nil = no_items
  normalize_items (cons x xs) = item (normalize_types x) (normalize_items xs)

  pub normalize_fields : Fields → SchemaFields
  normalize_fields end = no_entries
  normalize_fields (field k v fs) = insert_entry k (normalize_types v) (normalize_fields fs)

-- `sorted(xs)`, which keeps texts that are there twice
unfoldable pub insert_text : String → List String → List String
insert_text x [] = x ∷ []
insert_text x (y ∷ ys) =
    let rest = insert_text x ys in
    elim (compare x y) [
      | Ordering.lt ↦ x ∷ y ∷ ys
      | Ordering.eq ↦ x ∷ y ∷ ys
      | Ordering.gt ↦ y ∷ rest
    ]

unfoldable pub sort_texts : List String → List String
unfolding insert_text
sort_texts [] = []
sort_texts (x ∷ xs) = insert_text x (sort_texts xs)

-- The items of a list of texts.
abbrev pub literals : List String → SchemaItems
literals [] = no_items
literals (x ∷ xs) = item (literal x) (literals xs)

-- `";".join(parts)`
abbrev pub join : String → List String → String
join glue [] = ""
join glue (x ∷ xs) = elim xs [ [] ↦ x | y ∷ ys ↦ x <> glue <> join glue xs ]

-- `sorted(d.items(), key=...)` puts one more key with its text in its place. Of two equal keys, which no
-- dict has, the later one would win.
unfoldable pub insert_part : String → String → List (String × String) → List (String × String)
insert_part k v [] = (k, v) ∷ []
insert_part k v ((j, w) ∷ ps) =
    let rest = insert_part k v ps in
    elim (compare k j) [
      | Ordering.lt ↦ (k, v) ∷ (j, w) ∷ ps
      | Ordering.eq ↦ (j, w) ∷ ps
      | Ordering.gt ↦ (j, w) ∷ rest
    ]

-- `f"{k}:{v}"`
abbrev pub labelled : List (String × String) → List String
labelled [] = []
labelled ((k, v) ∷ ps) = (k <> ":" <> v) ∷ labelled ps

-- `serialize_ast_to_string`
unfoldable mutual
  unfolding insert_part

  pub serialize : Schema → String
  serialize (literal s) = s
  serialize (dict fs) = "object{" <> join ";" (labelled (serialize_fields fs)) <> "}"
  serialize (list xs) = "array[" <> join "," (serialize_items xs) <> "]"
  serialize (flag b) = "unknown"

  pub serialize_fields : SchemaFields → List (String × String)
  serialize_fields no_entries = []
  serialize_fields (entry k v fs) = insert_part k (serialize v) (serialize_fields fs)

  pub serialize_items : SchemaItems → List String
  serialize_items no_items = []
  serialize_items (item x xs) = serialize x ∷ serialize_items xs

-- `inner_types`, before `set`
abbrev pub inner_types : List Schema → List String
inner_types [] = []
inner_types (literal s ∷ xs) = s ∷ inner_types xs
inner_types (x ∷ xs) = inner_types xs

-- `array_structures`
unfoldable pub array_structures : List Schema → List String
unfolding serialize
array_structures [] = []
array_structures (literal s ∷ xs) = array_structures xs
array_structures (x ∷ xs) = serialize x ∷ array_structures xs

-- the result for a list that is not empty, from what its items resolve to
unfoldable pub array_result : List Schema → Schema
unfolding sorted_set sort_texts array_structures
array_result resolved =
    list (literals (sorted_set (inner_types resolved) ++ sort_texts (array_structures resolved)))

-- `extract_structural_type`
unfoldable mutual
  unfolding insert_entry primitive_type array_result

  pub extract_structural_type : Json → Schema
  extract_structural_type (object fs) = dict (extract_fields fs)
  extract_structural_type (array nil) = list (item (literal "empty_array") no_items)
  extract_structural_type (array (cons x xs)) =
      array_result (extract_structural_type x ∷ resolve_items xs)
  extract_structural_type v = literal (primitive_type v)

  pub resolve_items : Items → List Schema
  resolve_items nil = []
  resolve_items (cons x xs) = extract_structural_type x ∷ resolve_items xs

  pub extract_fields : Fields → SchemaFields
  extract_fields end = no_entries
  extract_fields (field k v fs) = insert_entry k (extract_structural_type v) (extract_fields fs)

abbrev pub all_equal : String → List String → Bool
all_equal first [] = true
all_equal first (t ∷ ts) = t == first && all_equal first ts

-- the text of a list, from the texts of its items
abbrev pub array_text : List String → String
array_text [] = "array_unknown"
array_text (first ∷ rest) = if all_equal first rest then "array_" <> first else "array_mixed"

-- `structural_ast`
unfoldable mutual
  unfolding insert_part primitive_type

  pub structural_ast : Json → String
  structural_ast (object fs) = "object{" <> join ";" (labelled (ast_fields fs)) <> "}"
  structural_ast (array xs) = array_text (ast_items xs)
  structural_ast v = primitive_type v

  pub ast_items : Items → List String
  ast_items nil = []
  ast_items (cons x xs) = structural_ast x ∷ ast_items xs

  pub ast_fields : Fields → List (String × String)
  ast_fields end = []
  ast_fields (field k v fs) = insert_part k (structural_ast v) (ast_fields fs)

-- The parts of `structural_string`.
unfoldable pub structural_parts : Fields → List (String × String)
unfolding insert_part serialize extract_structural_type
structural_parts end = []
structural_parts (field k v fs) =
    insert_part k (serialize (extract_structural_type v)) (structural_parts fs)

abbrev pub terminated : List (String × String) → String
terminated [] = ""
terminated ((k, v) ∷ ps) = k <> ":" <> v <> ";" <> terminated ps

-- `structural_string`
unfoldable pub structural_string : Json → Result String
unfolding structural_parts
structural_string (object fs) = ok (terminated (structural_parts fs))
structural_string _ = raised type_error

-- `fingerprint_schema`, with SHA-256 as `digest`
unfoldable pub fingerprint_schema : (String → String) → Json → Result String
unfolding structural_string
fingerprint_schema digest payload = do
  structural ← structural_string payload
  ok (digest structural)
