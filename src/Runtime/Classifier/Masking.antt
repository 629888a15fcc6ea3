-- ===== src/Runtime/Classifier/Masking.antt =====
-- Payloads with a key named "type". `_flatten` takes the canonical schema of such a dict for a leaf, so
-- its other keys are compared only by what `_classify` looks at in a leaf.
use mathlib.Core.Option
use schema_pilot_api_contrac.Base.{
  ◌≡◌, refl, ◌∙◌, sym, ap, ap₂, String, false, Option, none, some, List, [], ◌∷◌, arith, string_eq,
  bool_eq, option_eq,
}
use schema_pilot_api_contrac.Base.Result.{Result, ok, raised, type_error, ◌>>=◌}
use schema_pilot_api_contrac.Json.{
  Json, null, Items, Fields, array, object, cons, get_field, NodupFields,
}
use schema_pilot_api_contrac.Schema.{Schema, SchemaFields, dict, get_entry, schema_eq}
use schema_pilot_api_contrac.Runtime.Models.{Compatibility, safe}
use schema_pilot_api_contrac.Runtime.Canonical.{canonicalize, canonicalize_fields}
use schema_pilot_api_contrac.Runtime.Canonical.Keys.{get_entry-canonicalize}
use schema_pilot_api_contrac.Runtime.Classifier.{
  DiffItem, diff_item, flatten, classify, classify_enums, hashable, diff_paths, diff_and_classify,
  summarize_classification,
}

flatten-typed :
    (fs : SchemaFields) (t : Schema)
    → get_entry "type" fs ≡ some t
    → flatten (dict fs) "" ≡ ("[root]", dict fs) ∷ []
unfolding flatten string_eq
flatten-typed fs t h = ground arith

diff_paths-root :
    (old new : Schema)
    → schema_eq old new ≡ false
    → diff_paths ("[root]" ∷ []) (("[root]", old) ∷ []) (("[root]", new) ∷ []) ≡ (
        classify (some old) (some new) >>= λ verdict.
        ok (diff_item "[root]" (some old) (some new) verdict ∷ []))
unfolding diff_paths string_eq
diff_paths-root old new differ = rw differ

-- Both schemas are leaves: one path, "[root]", is compared.
diff-typed :
    (fs gs : SchemaFields) (t u : Schema)
    → get_entry "type" fs ≡ some t
    → get_entry "type" gs ≡ some u
    → schema_eq (dict fs) (dict gs) ≡ false
    → diff_and_classify (dict fs) (dict gs) ≡ (
        classify (some (dict fs)) (some (dict gs)) >>= λ verdict.
        ok (diff_item "[root]" (some (dict fs)) (some (dict gs)) verdict ∷ []))
unfolding diff_and_classify
diff-typed fs gs t u ft gt differ =
    rw (flatten-typed fs t ft, flatten-typed gs u gt) (diff_paths-root (dict fs) (dict gs) differ)

-- Two typed leaves with one type, neither with a nullability: `_classify` goes on to the enumerations.
classify-typed :
    (fs gs : SchemaFields) (t : Schema)
    → get_entry "type" fs ≡ some t
    → get_entry "type" gs ≡ some t
    → get_entry "nullable" fs ≡ none
    → get_entry "nullable" gs ≡ none
    → classify (some (dict fs)) (some (dict gs))
      ≡ classify_enums (get_entry "enum" fs) (get_entry "enum" gs)
unfolding classify
classify-typed fs gs t ft gt fn gn = ground arith

not-hashable-canonicalize : (x : Json) → hashable (canonicalize x) ≡ false
unfolding hashable canonicalize
not-hashable-canonicalize null = refl
not-hashable-canonicalize _ = refl

classify_enums-raises :
    (x : Json) (xs ys : Items)
    → classify_enums (some (canonicalize (array (cons x xs)))) (some (canonicalize (array ys)))
      ≡ raised type_error
unfolding classify_enums canonicalize
classify_enums-raises x xs ys = ground (arith, not-hashable-canonicalize x)

-- What two payload dicts have in common for the two theorems below.
pub record TypedAlike (fs gs : Fields) (t u : Json) : Type 0 where
  pub nodup_old : NodupFields fs
  pub nodup_new : NodupFields gs
  pub type_old : get_field "type" fs ≡ some t
  pub type_new : get_field "type" gs ≡ some u
  pub same_type : canonicalize t ≡ canonicalize u
  pub plain_old : get_field "nullable" fs ≡ none
  pub plain_new : get_field "nullable" gs ≡ none

module _ {fs gs : Fields} {t u : Json} (alike : TypedAlike fs gs t u) where
  entry_old :
      (k : String) (o : Option Json)
      → get_field k fs ≡ o
      → get_entry k (canonicalize_fields fs) ≡ Option.map canonicalize o
  entry_old k o h = get_entry-canonicalize k fs alike.nodup_old ∙ ap (Option.map canonicalize) h

  entry_new :
      (k : String) (o : Option Json)
      → get_field k gs ≡ o
      → get_entry k (canonicalize_fields gs) ≡ Option.map canonicalize o
  entry_new k o h = get_entry-canonicalize k gs alike.nodup_new ∙ ap (Option.map canonicalize) h

  type_entry_new : get_entry "type" (canonicalize_fields gs) ≡ some (canonicalize t)
  type_entry_new = entry_new "type" (some u) alike.type_new ∙ ap some (sym alike.same_type)

  enums : Result (Compatibility × String)
  enums =
      classify_enums (Option.map canonicalize (get_field "enum" fs))
        (Option.map canonicalize (get_field "enum" gs))

  classify-TypedAlike :
      classify (some (canonicalize (object fs))) (some (canonicalize (object gs))) ≡ enums
  unfolding canonicalize enums
  classify-TypedAlike =
      classify-typed (canonicalize_fields fs) (canonicalize_fields gs) (canonicalize t)
        (entry_old "type" (some t) alike.type_old) type_entry_new
        (entry_old "nullable" none alike.plain_old) (entry_new "nullable" none alike.plain_new)
      ∙ ap₂ classify_enums (entry_old "enum" (get_field "enum" fs) refl)
          (entry_new "enum" (get_field "enum" gs) refl)

  diff-TypedAlike :
      schema_eq (canonicalize (object fs)) (canonicalize (object gs)) ≡ false
      → diff_and_classify (canonicalize (object fs)) (canonicalize (object gs)) ≡ (
          enums >>= λ verdict. ok (
            diff_item "[root]"
              (some (canonicalize (object fs)))
              (some (canonicalize (object gs)))
              verdict
            ∷ []))
  unfolding canonicalize
  diff-TypedAlike differ =
      diff-typed (canonicalize_fields fs) (canonicalize_fields gs) (canonicalize t) (canonicalize t)
        (entry_old "type" (some t) alike.type_old) type_entry_new differ
      ∙ ap
          (λ (r : Result (Compatibility × String)). r >>= λ verdict. ok (
            diff_item "[root]" (some (canonicalize (object fs))) (some (canonicalize (object gs)))
              verdict
            ∷ []))
          classify-TypedAlike

  -- Two payload dicts, each with a key "type" whose values have one canonical schema, with no key "nullable",
  -- and the old one with no key "enum": whatever their other keys are, also where keys were removed, the
  -- change is one item of class SAFE.
  pub summarize-TypedAlike :
      get_field "enum" fs ≡ none
      → schema_eq (canonicalize (object fs)) (canonicalize (object gs)) ≡ false
      → (ds : List DiffItem) × (diff_and_classify
            (canonicalize (object fs))
            (canonicalize (object gs))
          ≡ ok ds)
        × (summarize_classification ds ≡ safe)
  unfolding summarize_classification enums classify_enums
  summarize-TypedAlike plain differ = (
    diff_item "[root]" (some (canonicalize (object fs))) (some (canonicalize (object gs)))
          (safe, "no compatibility risk")
        ∷ [],
    diff-TypedAlike differ ∙ rw plain,
    refl,
  )

  -- The same two dicts, where the old one has a key "enum" with a list that is not empty and the new one has
  -- a list there too: `set` meets the dict or the list that each item became, and the diff raises TypeError.
  pub diff-raises-TypedAlike :
      (x : Json) (xs ys : Items)
      → get_field "enum" fs ≡ some (array (cons x xs))
      → get_field "enum" gs ≡ some (array ys)
      → schema_eq (canonicalize (object fs)) (canonicalize (object gs)) ≡ false
      → diff_and_classify (canonicalize (object fs)) (canonicalize (object gs)) ≡ raised type_error
  unfolding enums
  diff-raises-TypedAlike x xs ys old new differ =
      diff-TypedAlike differ ∙ rw (old, new, classify_enums-raises x xs ys)
