-- ===== src/Core/Drift/Unchanged.antt =====
-- Payloads of one shape do not drift.
use schema_pilot_api_contrac.Base.{
  String, ◌≡◌, refl, ◌∙◌, ap, ap₂, List, [], ◌∷◌, arith, string_eq, option_eq,
}
use schema_pilot_api_contrac.Base.Dict.{Dict}
use schema_pilot_api_contrac.Json.{Json, Items, Fields}
use schema_pilot_api_contrac.Schema.{Schema, list, dict, item, insert_entry}
use schema_pilot_api_contrac.Runtime.Canonical.Shape.{
  SameShape, SameItems, SameFields, nulls, booleans, integers, floats, texts, arrays, objects, nils,
  conses, ends, fields, swapped, chained, insert_entry_comm,
}
use schema_pilot_api_contrac.Core.Parser.{normalize_types, normalize_items, normalize_fields}
use schema_pilot_api_contrac.Core.Drift.{drift_paths, structural_diff}

mutual
  unfolding normalize_types

  normalize : {a b : Json} → SameShape a b → normalize_types a ≡ normalize_types b
  normalize nulls = refl
  normalize (booleans a b) = refl
  normalize (integers a b) = refl
  normalize (floats a b) = refl
  normalize (texts a b) = refl
  normalize (arrays s) = ap list (normalize_each s)
  normalize (objects s) = ap dict (normalize_all s)

  normalize_each : {xs ys : Items} → SameItems xs ys → normalize_items xs ≡ normalize_items ys
  normalize_each nils = refl
  normalize_each (conses h t) = ap₂ item (normalize h) (normalize_each t)

  normalize_all : {fs gs : Fields} → SameFields fs gs → normalize_fields fs ≡ normalize_fields gs
  normalize_all ends = refl
  normalize_all (fields k h t) = ap₂ (insert_entry k) (normalize h) (normalize_all t)
  normalize_all (swapped {k} {j} ne v w fs) =
      insert_entry_comm k j (normalize_types v) (normalize_types w) (normalize_fields fs) ne
  normalize_all (chained s t) = normalize_all s ∙ normalize_all t

drift_paths-same : (ps : List String) (flat : Dict String) → drift_paths ps flat flat ≡ []
unfolding drift_paths
drift_paths-same [] flat = refl
drift_paths-same (p ∷ ps) flat = ground (arith, drift_paths-same ps flat)

structural_diff-same : (s : Schema) → structural_diff s s ≡ []
unfolding structural_diff
structural_diff-same s = drift_paths-same _ _

-- Payloads of one shape have one normalized schema, and no structural diff.
pub structural_diff-SameShape :
    {a b : Json}
    → SameShape a b
    → (normalize_types a ≡ normalize_types b)
      × (structural_diff (normalize_types a) (normalize_types b) ≡ [])
structural_diff-SameShape {a} {b} s = (
  normalize s,
  ap (λ n. structural_diff n (normalize_types b)) (normalize s)
      ∙ structural_diff-same (normalize_types b),
)
