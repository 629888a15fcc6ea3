-- ===== src/Monitor/Canonical.antt =====
-- backend/app/core/canonical.py: the hash of a schema.
use Prim.Native.Nat.{Ordering}
use Prim.Native.String.{compare}
use schema_pilot_api_contrac.Base.{String, Bool, Option, List, [], ◌∷◌, map}
use schema_pilot_api_contrac.Monitor.Types.{JsonType, SchemaNode}

-- `_structural_projection`: the fields of a node that count for the hash
pub record Projection : Type 0 where
  pub path : String
  pub type : JsonType
  pub required : Bool
  pub nullable : Bool
  pub array_item_type : Option JsonType
  pub enum_values : Option (List String)

unfoldable pub structural_projection : SchemaNode → Projection
structural_projection node = record {
  path = node.path;
  type = node.type;
  required = node.required;
  nullable = node.nullable;
  array_item_type = node.array_item_type;
  enum_values = node.enum_values;
}

-- `sorted(..., key=lambda d: d["path"])`
unfoldable pub insert_projection : Projection → List Projection → List Projection
insert_projection p [] = p ∷ []
insert_projection p (q ∷ ps) =
    let rest = insert_projection p ps in
    elim (compare p.path q.path) [ Ordering.gt ↦ q ∷ rest | _ ↦ p ∷ q ∷ ps ]

unfoldable pub sort_projections : List Projection → List Projection
unfolding insert_projection
sort_projections [] = []
sort_projections (p ∷ ps) = insert_projection p (sort_projections ps)

-- `stable_schema_hash`, given the digest of the compact JSON text of the projections
unfoldable pub stable_schema_hash : (List Projection → String) → List SchemaNode → String
unfolding structural_projection sort_projections
stable_schema_hash digest nodes = digest (sort_projections (map structural_projection nodes))
