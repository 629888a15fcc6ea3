-- ===== src/Monitor/Diff/Unchanged.antt =====
-- Schemas that differ in nothing that is compared have no differences.
use mathlib.Core.Option.{or_else}
use mathlib.Core.List.{cons-ne-nil}
use schema_pilot_api_contrac.Base.{
  String, ◌≡◌, refl, sym, subst, ◌∙◌, ◌⊎◌, inl, inr, Bool-cases, true, false, Option, none, some,
  List, [], ◌∷◌, arith, ◌==◌, string_eq,
}
use schema_pilot_api_contrac.Monitor.Types.{SchemaNode}
use schema_pilot_api_contrac.Monitor.Changes.{
  pick_change_type, pick_enums, pick_enum_change, pick_item_change, subset,
}
use schema_pilot_api_contrac.Monitor.Diff.{Diff, diff_schemas}
use schema_pilot_api_contrac.Monitor.Diff.Loops.{changes_at, node_at, expected}
use schema_pilot_api_contrac.Monitor.Diff.Exact.{diff_schemas_exact}

changes_at-head :
    (d : Diff) (ds : List Diff) → changes_at d.path (d ∷ ds) ≡ d.change_type ∷ changes_at d.path ds
changes_at-head d ds = ground arith

no_changes : (ds : List Diff) → ((p : String) → changes_at p ds ≡ []) → ds ≡ []
no_changes [] h = refl
no_changes (d ∷ ds) h =
    absurd
      (cons-ne-nil d.change_type (changes_at d.path ds) (sym (changes_at-head d ds) ∙ h d.path))

-- Two schemas of one shape: node by node equal but for `required`, which is not compared, and the example.
abbrev pub SameNode : SchemaNode → SchemaNode → Type 0
SameNode a b =
    (a.path ≡ b.path)
    × (a.type ≡ b.type)
    × (a.nullable ≡ b.nullable)
    × (a.array_item_type ≡ b.array_item_type)
    × (a.enum_values ≡ b.enum_values)

abbrev pub SameNodes : List SchemaNode → List SchemaNode → Type 0
SameNodes [] [] = Unit
SameNodes (a ∷ olds) (b ∷ news) = SameNode a b × SameNodes olds news
SameNodes _ _ = ⊥

subset_cons : (y : String) (xs ys : List String) → subset xs ys ≡ true → subset xs (y ∷ ys) ≡ true
unfolding subset
subset_cons y [] ys h = refl
subset_cons y (x ∷ xs) ys h = ground (arith, subset_cons y xs ys)

subset_refl : (xs : List String) → subset xs xs ≡ true
unfolding subset
subset_refl [] = refl
subset_refl (x ∷ xs) = ground (arith, subset_cons x xs xs (subset_refl xs))

pick_enums_same : (o : Option (List String)) → pick_enums o o ≡ none
unfolding pick_enums pick_enum_change
pick_enums_same none = refl
pick_enums_same (some xs) = rw (subset_refl xs) refl

pick_change_type-SameNode : (a b : SchemaNode) → SameNode a b → pick_change_type a b ≡ none
unfolding pick_change_type pick_item_change
pick_change_type-SameNode a b h = ground (arith, pick_enums_same a.enum_values)

node_at_same :
    (p : String) (old new : List SchemaNode)
    → SameNodes old new
    → ((node_at p old ≡ none) × (node_at p new ≡ none))
      ⊎ ((a : SchemaNode) × (b : SchemaNode) × (node_at p old ≡ some a)
          × (node_at p new ≡ some b)
          × SameNode a b)
unfolding or_else
node_at_same p [] [] h = inl (refl, refl)
node_at_same p [] (b ∷ news) h = elim h [ ]
node_at_same p (a ∷ olds) [] h = elim h [ ]
node_at_same p (a ∷ olds) (b ∷ news) (same, h) = elim (node_at_same p olds news h) [
  | inl (no_old, no_new) ↦ elim (Bool-cases (p == a.path)) [
    | inl here ↦ inr (
      a,
      b,
      rw (no_old, or_else, here) refl,
      rw (no_new, or_else, subst (λ q. (p == q) ≡ true) same.0 here) refl,
      same,
    )
    | inr elsewhere ↦ inl (
      rw (no_old, or_else, elsewhere) refl,
      rw (no_new, or_else, subst (λ q. (p == q) ≡ false) same.0 elsewhere) refl,
    )
  ]
  | inr (o, n, is_old, is_new, s) ↦
      inr (o, n, rw (is_old, or_else) refl, rw (is_new, or_else) refl, s)
]

expected_same :
    (p : String) (old new : List SchemaNode)
    → SameNodes old new
    → expected (node_at p old) (node_at p new) ≡ []
expected_same p old new h = elim (node_at_same p old new h) [
  | inl (no_old, no_new) ↦ rw (no_old, no_new) refl
  | inr (o, n, is_old, is_new, s) ↦ rw (is_old, is_new, pick_change_type-SameNode o n s) refl
]

-- Schemas of one shape have no differences.
pub diff_schemas-SameNodes :
    (old new : List SchemaNode) → SameNodes old new → diff_schemas old new ≡ []
diff_schemas-SameNodes old new h =
    no_changes (diff_schemas old new)
      (λ p. diff_schemas_exact p old new ∙ expected_same p old new h)
