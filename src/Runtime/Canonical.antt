-- ===== src/Runtime/Canonical.antt =====
-- app/runtime/canonical.py: the canonical schema of a payload.
pub mod Shape
pub mod Keys
use schema_pilot_api_contrac.Base.{String, Bool, true, false}
use schema_pilot_api_contrac.Json.{
  Json, Items, Fields, null, boolean, integer, float, text, array, object, nil, cons, end, field,
}
use schema_pilot_api_contrac.Schema.{
  Schema, SchemaItems, SchemaFields, literal, flag, list, dict, no_items, item, no_entries, entry,
  insert_entry,
}

-- `{"type": t, "nullable": n}`
abbrev pub leaf : String → Bool → Schema
leaf t n = dict (entry "type" (literal t) (entry "nullable" (flag n) no_entries))

-- The last branch of the source, for values that are no JSON, is never taken.
unfoldable mutual
  unfolding insert_entry

  pub canonicalize : Json → Schema
  canonicalize null = leaf "null" true
  canonicalize (boolean b) = leaf "boolean" false
  canonicalize (integer n) = leaf "integer" false
  canonicalize (float x) = leaf "number" false
  canonicalize (text s) = leaf "string" false
  canonicalize (array xs) = list (canonicalize_items xs)
  canonicalize (object fs) = dict (canonicalize_fields fs)

  pub canonicalize_items : Items → SchemaItems
  canonicalize_items nil = no_items
  canonicalize_items (cons x xs) = item (canonicalize x) (canonicalize_items xs)

  -- The sort compares keys alone, so each value may be made canonical first.
  pub canonicalize_fields : Fields → SchemaFields
  canonicalize_fields end = no_entries
  canonicalize_fields (field k v fs) = insert_entry k (canonicalize v) (canonicalize_fields fs)
