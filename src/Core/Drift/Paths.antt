-- ===== src/Core/Drift/Paths.antt =====
-- The items of a structural diff: the paths at which two flattened schemas differ, with their types.
use schema_pilot_api_contrac.Base.{
  ◌≡◌, refl, ◌∙◌, inl, inr, Bool-cases, String, Bool, not, ◌&&◌, none, List, [], ◌∷◌, ◌++◌, arith,
  contains, ◌==◌, string_eq, option_eq,
}
use schema_pilot_api_contrac.Base.Dict
use schema_pilot_api_contrac.Base.Dict.{Dict}
use schema_pilot_api_contrac.Base.Sequence.{All}
use schema_pilot_api_contrac.Base.TextOrder.{
  FirstBefore, FirstBefore-trans, IsIncreasing, sorted_set, contains-append, contains-sorted_set,
  sorted_set-IsIncreasing,
}
use schema_pilot_api_contrac.Schema.{Schema}
use schema_pilot_api_contrac.Core.Drift.{Drift, flatten_schema, drift_paths, structural_diff}

abbrev pub drifted : List Drift → List String
drifted [] = []
drifted (d ∷ ds) = d.path ∷ drifted ds

module _ (old new : Dict String) where
  abbrev pub same_type : String → Bool
  same_type p = Dict.get p old == Dict.get p new

  contains-drifted :
      (ps : List String) (p : String)
      → contains (drifted (drift_paths ps old new)) p ≡ (contains ps p && not (same_type p))
  unfolding drift_paths
  contains-drifted [] p = refl
  contains-drifted (q ∷ ps) p = ground (arith, contains-drifted ps p)

  FirstBefore-drifted :
      (q : String) (ps : List String)
      → IsIncreasing ps
      → FirstBefore q ps
      → FirstBefore q (drifted (drift_paths ps old new))
  unfolding drift_paths
  FirstBefore-drifted q [] s f = tt
  FirstBefore-drifted q (p ∷ ps) s f = elim (Bool-cases (same_type p)) [
    | inl same ↦ rw same (FirstBefore-drifted q ps s.1 (FirstBefore-trans q p ps f s.0))
    | inr differ ↦ rw differ f
  ]

  drifted-IsIncreasing :
      (ps : List String) → IsIncreasing ps → IsIncreasing (drifted (drift_paths ps old new))
  unfolding drift_paths
  drifted-IsIncreasing [] s = tt
  drifted-IsIncreasing (p ∷ ps) s = elim (Bool-cases (same_type p)) [
    | inl same ↦ rw same (drifted-IsIncreasing ps s.1)
    | inr differ ↦ rw differ (FirstBefore-drifted p ps s.1 s.0, drifted-IsIncreasing ps s.1)
  ]

  -- The item has the types at its path, and no severity yet.
  abbrev pub IsFound : Drift → Type 0
  IsFound d = (d.old ≡ Dict.get d.path old) × (d.new ≡ Dict.get d.path new) × (d.severity ≡ none)

  drift_paths-IsFound : (ps : List String) → All IsFound (drift_paths ps old new)
  unfolding drift_paths
  drift_paths-IsFound [] = tt
  drift_paths-IsFound (p ∷ ps) = elim (Bool-cases (same_type p)) [
    | inl same ↦ rw same (drift_paths-IsFound ps)
    | inr differ ↦ rw differ ((refl, refl, refl), drift_paths-IsFound ps)
  ]

  -- A path where the types differ is a key of one of the two.
  known :
      (p : String)
      → (contains (sorted_set (Dict.keys old ++ Dict.keys new)) p && not (same_type p))
        ≡ not (same_type p)
  known p =
      rw (contains-sorted_set p (Dict.keys old ++ Dict.keys new), contains-append)
        (ground (arith, Dict.get-eq-none p old, Dict.get-eq-none p new))

pub record IsDrift (baseline incoming : Schema) (ds : List Drift) : Type 0 where
  pub sorted : IsIncreasing (drifted ds)
  pub exact :
      (p : String)
      → contains (drifted ds) p
        ≡ not (same_type (flatten_schema baseline "") (flatten_schema incoming "") p)
  pub found : All (IsFound (flatten_schema baseline "") (flatten_schema incoming "")) ds

-- The paths of a structural diff strictly increase, and are exactly those at which the two flattened schemas
-- have different types or only one has a type; each item has the two types at its path, and no severity.
pub structural_diff-IsDrift :
    (baseline incoming : Schema) → IsDrift baseline incoming (structural_diff baseline incoming)
unfolding structural_diff
structural_diff-IsDrift baseline incoming =
    let a = flatten_schema baseline "" in
    let b = flatten_schema incoming "" in
    let ps = sorted_set (Dict.keys a ++ Dict.keys b) in
    record {
      sorted = drifted-IsIncreasing a b ps (sorted_set-IsIncreasing (Dict.keys a ++ Dict.keys b));
      exact = λ p. contains-drifted a b ps p ∙ known a b p;
      found = drift_paths-IsFound a b ps;
    }
