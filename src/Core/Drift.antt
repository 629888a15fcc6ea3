-- ===== src/Core/Drift.antt =====
-- app/core/engine.py: the structural diff of two normalized schemas, and the severities of its items.
pub mod Severities
pub mod Paths
pub mod Unchanged
use Prim.Native.Char.{code}
use schema_pilot_api_contrac.Base.{
  ℕ, ◌+◌, String, ◌<>◌, Bool, true, false, not, ◌&&◌, ◌||◌, Option, none, some, List, [], ◌∷◌, ◌++◌,
  map, decimal, ◌==◌, contains, nat_eq, string_eq, option_eq, if◌then◌else◌,
}
use schema_pilot_api_contrac.Base.Dict
use schema_pilot_api_contrac.Base.Dict.{Dict}
use schema_pilot_api_contrac.Base.Sequence.{length, filter}
use schema_pilot_api_contrac.Base.TextOrder.{sorted_set}
use schema_pilot_api_contrac.Schema.{
  Schema, SchemaItems, SchemaFields, literal, flag, list, dict, no_items, item, no_entries, entry,
  str,
}

-- The database's type change_severity.
pub data Severity : Type 0 where
  safe risky breaking : Severity

-- One dict of the list that `structural_diff` returns.
pub record Drift : Type 0 where
  pub path : String
  pub old : Option String
  pub new : Option String
  pub severity : Option Severity

abbrev pub sub_path : String → String → String
sub_path prefix k = if prefix == "" then k else prefix <> "." <> k

-- `_flatten_schema`
unfoldable mutual
  unfolding Dict.put Dict.update

  pub flatten_schema : Schema → String → Dict String
  flatten_schema (dict fs) prefix = flatten_dict fs prefix []
  flatten_schema (list xs) prefix = flatten_list xs prefix 0 ((prefix, "array") ∷ [])
  flatten_schema (literal s) prefix = (prefix, str (literal s)) ∷ []
  flatten_schema (flag b) prefix = (prefix, str (flag b)) ∷ []

  pub flatten_dict : SchemaFields → String → Dict String → Dict String
  flatten_dict no_entries prefix out = out
  flatten_dict (entry k v fs) prefix out =
      flatten_dict fs prefix (Dict.update out (flatten_schema v (sub_path prefix k)))

  pub flatten_list : SchemaItems → String → ℕ → Dict String → Dict String
  flatten_list no_items prefix i out = out
  flatten_list (item x xs) prefix i out =
      flatten_list xs prefix (i + 1)
        (Dict.update out (flatten_schema x (prefix <> "[*" <> decimal i <> "]")))

-- the loop of `structural_diff`, over the paths that are left
unfoldable pub drift_paths : List String → Dict String → Dict String → List Drift
unfolding Dict.get
drift_paths [] baseline_flat incoming_flat = []
drift_paths (p ∷ ps) baseline_flat incoming_flat =
    let rest = drift_paths ps baseline_flat incoming_flat in
    let old = Dict.get p baseline_flat in
    let new = Dict.get p incoming_flat in
    if old == new then rest else record { path = p; old = old; new = new; severity = none } ∷ rest

unfoldable pub structural_diff : Schema → Schema → List Drift
unfolding drift_paths flatten_schema sorted_set
structural_diff baseline_schema incoming_schema =
    let baseline_flat = flatten_schema baseline_schema "" in
    let incoming_flat = flatten_schema incoming_schema "" in
    drift_paths (sorted_set (Dict.keys baseline_flat ++ Dict.keys incoming_flat)) baseline_flat
      incoming_flat

unfoldable pub mark_safe : Drift → Drift
mark_safe d = elim d.old [
  | none ↦ elim d.new [ none ↦ d | some new ↦ record d { severity = some safe } ]
  | some old ↦ d
]

unfoldable pub classify_safe_changes : List Drift → List Drift
unfolding mark_safe
classify_safe_changes diffs = map mark_safe diffs

-- `primitive_types`
abbrev pub is_primitive : String → Bool
is_primitive t = contains ("int" ∷ "float" ∷ "string" ∷ "bool" ∷ []) t

-- the severity of a change between two primitive types
abbrev pub mutation : String → String → Severity
mutation old new = if old == "int" && new == "float" then risky else breaking

unfoldable pub mark_risky : Drift → Drift
mark_risky d = elim d.severity [
  | some s ↦ d
  | none ↦ elim d.old [
    | none ↦ d
    | some old ↦ elim d.new [
      | none ↦ d
      | some new ↦
          if is_primitive old && (is_primitive new && not (old == new))
          then record d { severity = some (mutation old new) }
          else d
    ]
  ]
]

unfoldable pub classify_risky_mutations : List Drift → List Drift
unfolding mark_risky
classify_risky_mutations diffs = map mark_risky diffs

-- `s.replace(prefix, "", 1)` where `s.startswith(prefix)`
unfoldable pub strip_prefix : String → String → Option String
strip_prefix String.[] s = some s
strip_prefix (String.◌∷◌ c prefix) String.[] = none
strip_prefix (String.◌∷◌ c prefix) (String.◌∷◌ d s) =
    let rest = strip_prefix prefix s in if code c == code d then rest else none

unfoldable pub mark_breaking : Drift → Drift
unfolding strip_prefix
mark_breaking d = elim d.severity [
  | some s ↦ d
  | none ↦ elim d.old [
    | none ↦ d
    | some old ↦ elim d.new [
      | none ↦ record d { severity = some breaking }
      | some new ↦
          if strip_prefix "nullable_" old == some new
          then record d { severity = some breaking }
          else d
    ]
  ]
]

unfoldable pub classify_breaking_changes : List Drift → List Drift
unfolding mark_breaking
classify_breaking_changes diffs = map mark_breaking diffs

unfoldable pub classify_contract_drift : List Drift → List Drift
unfolding classify_safe_changes classify_risky_mutations classify_breaking_changes
classify_contract_drift diffs =
    classify_breaking_changes (classify_risky_mutations (classify_safe_changes diffs))
