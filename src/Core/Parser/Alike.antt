-- ===== src/Core/Parser/Alike.antt =====
-- What a structural fingerprint does not see: the values of leaves, the order of keys and of the items of
-- lists.
use schema_pilot_api_contrac.Base.{
  ◌≡◌, refl, ap, ap₂, subst, ◌∙◌, ◌≢◌, String, Bool, ℕ, ◌++◌, List, ◌∷◌,
}
use schema_pilot_api_contrac.Base.Result.{ok}
use schema_pilot_api_contrac.Base.TextOrder.{insert_sorted, sorted_set}
use schema_pilot_api_contrac.Json.{
  ℤ, Json, Items, Fields, null, boolean, integer, float, text, array, object, nil, cons, end, field,
}
use schema_pilot_api_contrac.Schema.{Schema, literal, flag, list, dict, insert_entry}
use schema_pilot_api_contrac.Runtime.Canonical.Shape.{insert_entry_comm}
use schema_pilot_api_contrac.Core.Parser.{
  literals, sort_texts, insert_text, insert_part, serialize, inner_types, array_structures,
  array_result, extract_structural_type, resolve_items, extract_fields, structural_parts,
  terminated, structural_string,
}
use schema_pilot_api_contrac.Core.Parser.Sorting.{
  insert_part_comm, sorted_set_comm, sort_texts_comm,
}

mutual
  pub data Alike : Json → Json → Type 0 where
    nulls : Alike null null
    booleans : (a b : Bool) → Alike (boolean a) (boolean b)
    integers : (a b : ℤ) → Alike (integer a) (integer b)
    floats : (a b : ℕ) → Alike (float a) (float b)
    texts : (a b : String) → Alike (text a) (text b)
    arrays : {xs ys : Items} → AlikeItems xs ys → Alike (array xs) (array ys)
    objects : {fs gs : Fields} → AlikeFields fs gs → Alike (object fs) (object gs)

  pub data AlikeItems : Items → Items → Type 0 where
    nils : AlikeItems nil nil
    conses :
        {x y : Json} {xs ys : Items}
        → Alike x y
        → AlikeItems xs ys
        → AlikeItems (cons x xs) (cons y ys)
    exchanged : (x y : Json) (xs : Items) → AlikeItems (cons x (cons y xs)) (cons y (cons x xs))
    linked : {xs ys zs : Items} → AlikeItems xs ys → AlikeItems ys zs → AlikeItems xs zs

  pub data AlikeFields : Fields → Fields → Type 0 where
    ends : AlikeFields end end
    fields :
        (k : String) {v w : Json} {fs gs : Fields}
        → Alike v w
        → AlikeFields fs gs
        → AlikeFields (field k v fs) (field k w gs)
    swapped :
        {k j : String}
        → k ≢ j
        → (v w : Json) (fs : Fields)
        → AlikeFields (field k v (field j w fs)) (field j w (field k v fs))
    chained : {fs gs hs : Fields} → AlikeFields fs gs → AlikeFields gs hs → AlikeFields fs hs

-- Two lists of resolved items with one set of primitive types and one list of structures.
record SameResolved (rs ss : List Schema) : Type 0 where
  types : sorted_set (inner_types rs) ≡ sorted_set (inner_types ss)
  structures : sort_texts (array_structures rs) ≡ sort_texts (array_structures ss)

array_result-SameResolved :
    (rs ss : List Schema) → SameResolved rs ss → array_result rs ≡ array_result ss
unfolding array_result
array_result-SameResolved rs ss s = ap₂ (λ a b. list (literals (a ++ b))) s.types s.structures

types_cons :
    (r : Schema) (rs ss : List Schema)
    → sorted_set (inner_types rs) ≡ sorted_set (inner_types ss)
    → sorted_set (inner_types (r ∷ rs)) ≡ sorted_set (inner_types (r ∷ ss))
unfolding sorted_set
types_cons (literal s) rs ss h = ap (insert_sorted s) h
types_cons _ rs ss h = h

structures_cons :
    (r : Schema) (rs ss : List Schema)
    → sort_texts (array_structures rs) ≡ sort_texts (array_structures ss)
    → sort_texts (array_structures (r ∷ rs)) ≡ sort_texts (array_structures (r ∷ ss))
unfolding sort_texts array_structures
structures_cons (literal s) rs ss h = h
structures_cons (flag b) rs ss h = ap (insert_text (serialize (flag b))) h
structures_cons (list xs) rs ss h = ap (insert_text (serialize (list xs))) h
structures_cons (dict fs) rs ss h = ap (insert_text (serialize (dict fs))) h

SameResolved-cons :
    (r s : Schema) (rs ss : List Schema)
    → r ≡ s
    → SameResolved rs ss
    → SameResolved (r ∷ rs) (s ∷ ss)
SameResolved-cons r s rs ss e h =
    subst (λ z. SameResolved (r ∷ rs) (z ∷ ss)) e
      (record {
        types = types_cons r rs ss h.types;
        structures = structures_cons r rs ss h.structures;
      })

types_swap :
    (a b : Schema) (rs : List Schema)
    → sorted_set (inner_types (a ∷ b ∷ rs)) ≡ sorted_set (inner_types (b ∷ a ∷ rs))
types_swap (literal s) (literal t) rs = sorted_set_comm s t (inner_types rs)
types_swap _ (literal t) rs = refl
types_swap _ _ rs = refl

structures_swap :
    (a b : Schema) (rs : List Schema)
    → sort_texts (array_structures (a ∷ b ∷ rs)) ≡ sort_texts (array_structures (b ∷ a ∷ rs))
unfolding array_structures
structures_swap (literal s) (literal t) rs = refl
structures_swap (literal s) _ rs = refl
structures_swap _ (literal t) rs = refl
structures_swap a b rs = sort_texts_comm (serialize a) (serialize b) (array_structures rs)

SameResolved-swap : (a b : Schema) (rs : List Schema) → SameResolved (a ∷ b ∷ rs) (b ∷ a ∷ rs)
SameResolved-swap a b rs = record { types = types_swap a b rs; structures = structures_swap a b rs }

SameResolved-trans :
    (rs ss ts : List Schema) → SameResolved rs ss → SameResolved ss ts → SameResolved rs ts
SameResolved-trans rs ss ts a b = record {
  types = a.types ∙ b.types;
  structures = a.structures ∙ b.structures;
}

mutual
  unfolding extract_structural_type

  extract : {a b : Json} → Alike a b → extract_structural_type a ≡ extract_structural_type b
  extract nulls = refl
  extract (booleans a b) = refl
  extract (integers a b) = refl
  extract (floats a b) = refl
  extract (texts a b) = refl
  extract (arrays s) = extract_array s
  extract (objects s) = ap dict (extract_all s)

  extract_array :
      {xs ys : Items}
      → AlikeItems xs ys
      → extract_structural_type (array xs) ≡ extract_structural_type (array ys)
  extract_array nils = refl
  extract_array (conses {x} {y} {xs} {ys} h t) =
      array_result-SameResolved (extract_structural_type x ∷ resolve_items xs)
        (extract_structural_type y ∷ resolve_items ys)
        (SameResolved-cons (extract_structural_type x) (extract_structural_type y)
          (resolve_items xs) (resolve_items ys) (extract h) (resolve t))
  extract_array (exchanged x y xs) =
      array_result-SameResolved
        (extract_structural_type x ∷ extract_structural_type y ∷ resolve_items xs)
        (extract_structural_type y ∷ extract_structural_type x ∷ resolve_items xs)
        (SameResolved-swap (extract_structural_type x) (extract_structural_type y)
          (resolve_items xs))
  extract_array (linked s t) = extract_array s ∙ extract_array t

  resolve : {xs ys : Items} → AlikeItems xs ys → SameResolved (resolve_items xs) (resolve_items ys)
  resolve nils = record { types = refl; structures = refl }
  resolve (conses {x} {y} {xs} {ys} h t) =
      SameResolved-cons (extract_structural_type x) (extract_structural_type y) (resolve_items xs)
        (resolve_items ys) (extract h) (resolve t)
  resolve (exchanged x y xs) =
      SameResolved-swap (extract_structural_type x) (extract_structural_type y) (resolve_items xs)
  resolve (linked {xs} {ys} {zs} s t) =
      SameResolved-trans (resolve_items xs) (resolve_items ys) (resolve_items zs) (resolve s)
        (resolve t)

  extract_all : {fs gs : Fields} → AlikeFields fs gs → extract_fields fs ≡ extract_fields gs
  extract_all ends = refl
  extract_all (fields k h t) = ap₂ (insert_entry k) (extract h) (extract_all t)
  extract_all (swapped {k} {j} ne v w fs) =
      insert_entry_comm k j (extract_structural_type v) (extract_structural_type w)
        (extract_fields fs) ne
  extract_all (chained s t) = extract_all s ∙ extract_all t

parts : {fs gs : Fields} → AlikeFields fs gs → structural_parts fs ≡ structural_parts gs
unfolding structural_parts
parts ends = refl
parts (fields k h t) = ap₂ (insert_part k) (ap serialize (extract h)) (parts t)
parts (swapped {k} {j} ne v w fs) =
    insert_part_comm k j (serialize (extract_structural_type v))
      (serialize (extract_structural_type w)) (structural_parts fs) ne
parts (chained s t) = parts s ∙ parts t

-- Payloads that differ in the values of leaves, and in the order of keys and of the items of lists at any
-- level, have one structural text.
pub structural_string-Alike : {a b : Json} → Alike a b → structural_string a ≡ structural_string b
unfolding structural_string
structural_string-Alike nulls = refl
structural_string-Alike (booleans a b) = refl
structural_string-Alike (integers a b) = refl
structural_string-Alike (floats a b) = refl
structural_string-Alike (texts a b) = refl
structural_string-Alike (arrays s) = refl
structural_string-Alike (objects s) = ap (λ p. ok (terminated p)) (parts s)
