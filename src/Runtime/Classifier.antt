-- ===== src/Runtime/Classifier.antt =====
-- app/runtime/classifier.py: the diff of two canonical schemas and its compatibility classes.
pub mod Summary
pub mod Diff
pub mod Masking
pub mod Returns
pub mod Worst
use mathlib.Core.Option
use schema_pilot_api_contrac.Base.{
  ℕ, ◌+◌, String, ◌<>◌, Bool, true, false, not, ◌&&◌, ◌||◌, Option, none, some, List, [], ◌∷◌, ◌++◌,
  ltb, decimal, ◌==◌, string_eq, bool_eq, option_eq, if◌then◌else◌,
}
use schema_pilot_api_contrac.Base.Dict
use schema_pilot_api_contrac.Base.Dict.{Dict}
use schema_pilot_api_contrac.Base.Result.{Result, ok, raised, type_error, ◌>>=◌}
use schema_pilot_api_contrac.Base.TextOrder.{sorted_set}
use schema_pilot_api_contrac.Runtime.Models.{
  Compatibility, safe, backward_compatible, forward_compatible, risky, breaking, rank,
}
use schema_pilot_api_contrac.Schema.{
  Schema, SchemaItems, SchemaFields, literal, flag, list, dict, no_items, item, no_entries, entry,
  get_entry, str, truthy, schema_eq,
}

-- `DiffItem`
pub record DiffItem : Type 0 where
  pub path : String
  pub old_type : Option String
  pub new_type : Option String
  pub old_nullable : Option Bool
  pub new_nullable : Option Bool
  pub classification : Compatibility
  pub reason : String

-- `_type_of`
unfoldable pub type_of : Option Schema → String
type_of (some (dict fs)) = elim (get_entry "type" fs) [ some t ↦ str t | none ↦ "object" ]
type_of (some (list xs)) = "array"
type_of _ = "unknown"

-- `_nullable_of`
unfoldable pub nullable_of : Option Schema → Option Bool
nullable_of (some (dict fs)) = Option.map truthy (get_entry "nullable" fs)
nullable_of _ = none

abbrev pub or_root : String → String
or_root prefix = if prefix == "" then "[root]" else prefix

abbrev pub child_path : String → String → String
child_path prefix k = if prefix == "" then k else prefix <> "." <> k

abbrev pub item_path : String → ℕ → String
item_path prefix i =
    if prefix == "" then "[*" <> decimal i <> "]" else prefix <> "[*" <> decimal i <> "]"

-- `{"type": t, "nullable": n}`
abbrev pub plain : String → Bool → Schema
plain t n = dict (entry "type" (literal t) (entry "nullable" (flag n) no_entries))

-- `_flatten`. The two loops go on from the dict `flat` that they have filled so far.
unfoldable mutual
  unfolding Dict.put Dict.update

  pub flatten : Schema → String → Dict Schema
  flatten (dict fs) prefix = elim (get_entry "type" fs) [
    | some t ↦ (or_root prefix, dict fs) ∷ []
    | none ↦ flatten_entries fs prefix []
  ]
  flatten (list xs) prefix = flatten_items xs prefix 0 ((or_root prefix, plain "array" false) ∷ [])
  flatten (literal s) prefix = (or_root prefix, plain "unknown" true) ∷ []
  flatten (flag b) prefix = (or_root prefix, plain "unknown" true) ∷ []

  pub flatten_entries : SchemaFields → String → Dict Schema → Dict Schema
  flatten_entries no_entries prefix flat = flat
  flatten_entries (entry k v fs) prefix flat =
      flatten_entries fs prefix (Dict.update flat (flatten v (child_path prefix k)))

  pub flatten_items : SchemaItems → String → ℕ → Dict Schema → Dict Schema
  flatten_items no_items prefix i flat = flat
  flatten_items (item x xs) prefix i flat =
      flatten_items xs prefix (i + 1) (Dict.update flat (flatten x (item_path prefix i)))

-- `set(xs)`: lists and dicts cannot be hashed.
unfoldable pub hashable : Schema → Bool
hashable (literal s) = true
hashable (flag b) = true
hashable _ = false

unfoldable pub set_of : SchemaItems → Result (List Schema)
unfolding hashable
set_of no_items = ok []
set_of (item x xs) =
    let rest = set_of xs in if hashable x then (do s ← rest; ok (x ∷ s)) else raised type_error

unfoldable pub member : Schema → List Schema → Bool
member x [] = false
member x (y ∷ ys) = schema_eq x y || member x ys

unfoldable pub subset : List Schema → List Schema → Bool
unfolding member
subset [] ys = true
subset (x ∷ xs) ys = member x ys && subset xs ys

-- `a < b` on sets
unfoldable pub proper_subset : List Schema → List Schema → Bool
unfolding subset
proper_subset a b = subset a b && not (subset b a)

abbrev pub no_risk : Result (Compatibility × String)
no_risk = ok (safe, "no compatibility risk")

-- the comparison of two enumerations at the end of `_classify`
unfoldable pub classify_sets : List Schema → List Schema → Result (Compatibility × String)
unfolding proper_subset
classify_sets old_set new_set =
    if proper_subset old_set new_set
    then ok (forward_compatible, "enum expansion")
    else if proper_subset new_set old_set
    then ok (breaking, "enum contraction")
    else no_risk

unfoldable pub classify_enums : Option Schema → Option Schema → Result (Compatibility × String)
unfolding classify_sets set_of
classify_enums (some (list old_enum)) (some (list new_enum)) = do
  old_set ← set_of old_enum
  new_set ← set_of new_enum
  classify_sets old_set new_set
classify_enums _ _ = no_risk

unfoldable pub classify_entries : Schema → Schema → Result (Compatibility × String)
unfolding classify_enums
classify_entries (dict old) (dict new) =
    classify_enums (get_entry "enum" old) (get_entry "enum" new)
classify_entries _ _ = no_risk

-- the branch for two types that differ
unfoldable pub classify_types : String → String → Compatibility × String
classify_types old_t new_t =
    if old_t == "integer" && new_t == "number"
    then (risky, "int->float widening")
    else if old_t == "number" && new_t == "integer"
    then (breaking, "float->int narrowing")
    else if old_t == "string" && (new_t == "integer" || new_t == "number")
    then (breaking, "string->number")
    else if old_t == "array" && new_t == "array"
    then (breaking, "array item mutation")
    else (breaking, "type changed " <> old_t <> "->" <> new_t)

-- `isinstance(node, dict) and bool(node.get("required", default))`
unfoldable pub required_of : Schema → Bool → Bool
required_of (dict fs) default = elim (get_entry "required" fs) [
  | some v ↦ truthy v
  | none ↦ default
]
required_of _ default = false

-- the branches for a field that both schemas have
unfoldable pub classify_both : Schema → Schema → Result (Compatibility × String)
unfolding classify_types classify_entries type_of nullable_of
classify_both old new =
    if not (type_of (some old) == type_of (some new))
    then ok (classify_types (type_of (some old)) (type_of (some new)))
    else if nullable_of (some old) == some false && nullable_of (some new) == some true
    then ok (backward_compatible, "required field becomes nullable")
    else if nullable_of (some old) == some true && nullable_of (some new) == some false
    then ok (breaking, "nullable field becomes required")
    else classify_entries old new

-- `_classify`
unfoldable pub classify : Option Schema → Option Schema → Result (Compatibility × String)
unfolding classify_both required_of
classify none none = no_risk
classify none (some new) =
    if required_of new false
    then ok (forward_compatible, "added required field")
    else ok (safe, "added optional field")
classify (some old) none =
    if required_of old true
    then ok (breaking, "removed required field")
    else ok (risky, "removed optional field")
classify (some old) (some new) = classify_both old new

-- `old == new` on what two `get`s return
unfoldable pub same_entry : Option Schema → Option Schema → Bool
same_entry none none = true
same_entry (some a) (some b) = schema_eq a b
same_entry _ _ = false

-- `_type_of(node) if node is not None else None`
abbrev pub optional_type : Option Schema → Option String
optional_type node = Option.map (λ n. type_of (some n)) node

abbrev pub diff_item : String → Option Schema → Option Schema → Compatibility × String → DiffItem
diff_item p old new (c, why) = record {
  path = p;
  old_type = optional_type old;
  new_type = optional_type new;
  old_nullable = nullable_of old;
  new_nullable = nullable_of new;
  classification = c;
  reason = why;
}

-- the loop of `diff_and_classify`, over the paths that are left
unfoldable pub diff_paths : List String → Dict Schema → Dict Schema → Result (List DiffItem)
unfolding classify same_entry Dict.get
diff_paths [] old_flat new_flat = ok []
diff_paths (p ∷ ps) old_flat new_flat =
    let rest = diff_paths ps old_flat new_flat in
    let old = Dict.get p old_flat in
    let new = Dict.get p new_flat in
    if same_entry old new
    then rest
    else (do verdict ← classify old new; items ← rest; ok (diff_item p old new verdict ∷ items))

unfoldable pub diff_and_classify : Schema → Schema → Result (List DiffItem)
unfolding diff_paths flatten sorted_set
diff_and_classify old_schema new_schema =
    let old_flat = flatten old_schema "" in
    let new_flat = flatten new_schema "" in
    diff_paths (sorted_set (Dict.keys old_flat ++ Dict.keys new_flat)) old_flat new_flat

-- `max(..., key=...)` keeps the first of the largest.
abbrev pub worse : Compatibility → Compatibility → Compatibility
unfolding rank
worse best c = if ltb (rank best) (rank c) then c else best

unfoldable pub max_class : Compatibility → List DiffItem → Compatibility
unfolding worse
max_class best [] = best
max_class best (d ∷ ds) = max_class (worse best d.classification) ds

unfoldable pub summarize_classification : List DiffItem → Compatibility
unfolding max_class
summarize_classification [] = safe
summarize_classification (d ∷ ds) = max_class d.classification ds
