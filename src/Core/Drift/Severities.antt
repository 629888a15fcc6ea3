-- ===== src/Core/Drift/Severities.antt =====
-- The three passes over a structural diff against one table of cases.
use schema_pilot_api_contrac.Base.{
  String, Bool, true, ◌&&◌, ◌||◌, ◌≡◌, refl, sym, subst, inl, inr, Bool-cases, ◌∙◌, ap, ap₂, Option,
  none, some, List, [], ◌∷◌, map, arith, ◌==◌, string_eq, nat_eq, option_eq, if◌then◌else◌,
}
use schema_pilot_api_contrac.Base.Sequence.{All}
use schema_pilot_api_contrac.Core.Drift.{
  Severity, safe, risky, breaking, Drift, is_primitive, strip_prefix, mark_safe, mark_risky,
  mark_breaking, classify_safe_changes, classify_risky_mutations, classify_breaking_changes,
  classify_contract_drift,
}

-- The types that a payload's scalar can have, null apart.
abbrev pub is_scalar : String → Bool
is_scalar t = t == "int" || (t == "float" || (t == "string" || t == "bool"))

-- What the severity of a change means: a new path is SAFE, a removed one BREAKING, `int` to `float` RISKY,
-- any other change of a primitive type BREAKING, a type that is no longer nullable BREAKING; no other
-- change has a severity.
unfoldable pub severity_of : Option String → Option String → Option Severity
severity_of none none = none
severity_of none (some new) = some safe
severity_of (some old) none = some breaking
severity_of (some old) (some new) =
    if is_scalar old && is_scalar new
    then if old == new
      then none
      else if old == "int" && new == "float"
      then some risky
      else some breaking
    else if strip_prefix "nullable_" old == some new
    then some breaking
    else none

==-eq : (s t : String) → (s == t) ≡ true → s ≡ t
==-eq s t h = ground arith

is_primitive-cases :
    (P : String → Type 0) (t : String)
    → is_primitive t ≡ true
    → P "int"
    → P "float"
    → P "string"
    → P "bool"
    → P t
is_primitive-cases P t h int float string bool = elim (Bool-cases (t == "int")) [
  | inl e ↦ subst P (sym (==-eq t "int" e)) int
  | inr e1 ↦ elim (Bool-cases (t == "float")) [
    | inl e ↦ subst P (sym (==-eq t "float" e)) float
    | inr e2 ↦ elim (Bool-cases (t == "string")) [
      | inl e ↦ subst P (sym (==-eq t "string" e)) string
      | inr e3 ↦ subst P (sym (==-eq t "bool" (ground arith))) bool
    ]
  ]
]

-- A primitive type is not a nullable one.
strip_prefix-primitive : (t : String) → is_primitive t ≡ true → strip_prefix "nullable_" t ≡ none
unfolding strip_prefix nat_eq
strip_prefix-primitive t h =
    let int : strip_prefix "nullable_" "int" ≡ none = refl in
    let float : strip_prefix "nullable_" "float" ≡ none = refl in
    let string : strip_prefix "nullable_" "string" ≡ none = refl in
    let bool : strip_prefix "nullable_" "bool" ≡ none = refl in
    is_primitive-cases (λ s. strip_prefix "nullable_" s ≡ none) t h int float string bool

abbrev pub graded : Drift → Drift
graded d = record d { severity = severity_of d.old d.new }

abbrev ungraded : String → Option String → Option String → Drift
ungraded p old new = record { path = p; old = old; new = new; severity = none }

grade :
    (p : String) (old new : Option String)
    → mark_breaking (mark_risky (mark_safe (ungraded p old new))) ≡ graded (ungraded p old new)
unfolding mark_breaking mark_risky mark_safe severity_of
grade p none none = refl
grade p none (some new) = refl
grade p (some old) none = refl
grade p (some old) (some new) = ground (arith, strip_prefix-primitive old)

-- The three passes, run in their order over a diff whose items have no severity yet, give each item the
-- severity that its change means, and change nothing else.
pub classify_contract_drift_cases :
    (diffs : List Drift)
    → All (λ d. d.severity ≡ none) diffs
    → classify_contract_drift diffs ≡ map graded diffs
unfolding classify_contract_drift classify_safe_changes classify_risky_mutations
    classify_breaking_changes
classify_contract_drift_cases [] h = refl
classify_contract_drift_cases (d ∷ ds) h =
    let e : d ≡ ungraded d.path d.old d.new = ap (λ s. record d { severity = s }) h.0 in
    ap₂ (λ (x : Drift) (xs : List Drift). x ∷ xs)
      (ap (λ x. mark_breaking (mark_risky (mark_safe x))) e ∙ grade d.path d.old d.new)
      (classify_contract_drift_cases ds h.1)
