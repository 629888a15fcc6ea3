-- ===== src/Tests/Schemas.antt =====
-- Canonical schemas and their diffs.
use schema_pilot_api_contrac.Base.{
  ◌≡◌, ◌≢◌, refl, true, false, String, none, some, List, [], ◌∷◌, arith, nat_eq, bool_eq, string_eq,
  option_eq,
}
use schema_pilot_api_contrac.Base.Dict
use schema_pilot_api_contrac.Base.TextOrder.{sorted_set, insert_sorted}
use schema_pilot_api_contrac.Base.Result.{ok}
use schema_pilot_api_contrac.Json.{
  Json, Fields, pos, null, integer, text, array, object, nil, cons, end, field, get_field,
  NodupFields,
}
use schema_pilot_api_contrac.Schema.{Schema, get_entry, insert_entry, str, truthy, schema_eq}
use schema_pilot_api_contrac.Runtime.Models.{safe, breaking}
use schema_pilot_api_contrac.Runtime.Canonical.{canonicalize}
use schema_pilot_api_contrac.Runtime.Canonical.Shape.{
  objects, integers, texts, ends, fields, swapped, chained, canonicalize-SameShape,
}
use schema_pilot_api_contrac.Runtime.Classifier.{
  DiffItem, type_of, nullable_of, flatten, required_of, hashable, set_of, classify_enums,
  classify_entries, classify_types, classify_both, classify, same_entry, diff_paths,
  diff_and_classify, summarize_classification,
}
use schema_pilot_api_contrac.Runtime.Classifier.Diff.{Reports, diff_and_classify-Reports}
use schema_pilot_api_contrac.Runtime.Classifier.Worst.{summarize-removed}
use schema_pilot_api_contrac.Runtime.Classifier.Returns.{
  Returns, IsClassifiable, has_hashable_enum, diff_and_classify-Returns,
}
use schema_pilot_api_contrac.Runtime.Classifier.Masking.{TypedAlike, summarize-TypedAlike}

abbrev order : Fields
order = field "total" (integer (pos 7)) (field "note" (text "x") end)

abbrev reordered : Fields
reordered = field "note" (text "y") (field "total" (integer (pos 9)) end)

order_ne : ◌≢◌ {A = String} "total" "note"
order_ne = cc

canonicalize-SameShape_example : canonicalize (object order) ≡ canonicalize (object reordered)
canonicalize-SameShape_example = canonicalize-SameShape (
    objects (
      chained (fields "total" (integers (pos 7) (pos 9)) (fields "note" (texts "x" "y") ends))
        (swapped order_ne (integer (pos 9)) (text "y") end)))

order-NodupFields : NodupFields order
unfolding get_field string_eq
order-NodupFields = (refl, (refl, tt))

old_schema : Schema
unfolding canonicalize insert_entry
old_schema = canonicalize (object order)

new_schema : Schema
unfolding canonicalize insert_entry
new_schema = canonicalize (object (field "total" (integer (pos 1)) end))

abbrev removed_note : DiffItem
removed_note = record {
  path = "note";
  old_type = some "string";
  new_type = none;
  old_nullable = some false;
  new_nullable = none;
  classification = breaking;
  reason = "removed required field";
}

diff_run : diff_and_classify old_schema new_schema ≡ ok (removed_note ∷ [])
unfolding diff_and_classify flatten sorted_set insert_sorted diff_paths classify classify_both
    classify_entries classify_enums classify_types required_of type_of nullable_of same_entry
    schema_eq get_entry str truthy set_of hashable Dict.get Dict.put Dict.update string_eq bool_eq
    nat_eq option_eq old_schema new_schema
diff_run = refl

abbrev old_flat : Dict.Dict Schema
old_flat = flatten old_schema ""

note_old : Dict.get "note" (flatten old_schema "") ≡ some (canonicalize (text ""))
unfolding flatten canonicalize get_entry insert_entry Dict.get Dict.put Dict.update string_eq
    old_schema
note_old = refl

note_new : Dict.get "note" (flatten new_schema "") ≡ none
unfolding flatten get_entry Dict.get Dict.put Dict.update string_eq new_schema
note_new = refl

note_required : required_of (canonicalize (text "")) true ≡ true
unfolding required_of canonicalize get_entry string_eq
note_required = refl

note_differs :
    same_entry (Dict.get "note" (flatten old_schema "")) (Dict.get "note" (flatten new_schema ""))
    ≡ false
unfolding same_entry
note_differs = rw (note_old, note_new)

note_class :
    classify (Dict.get "note" (flatten old_schema "")) (Dict.get "note" (flatten new_schema ""))
    ≡ ok (breaking, "removed required field")
unfolding classify
note_class = rw (note_old, note_new, note_required)

diff_and_classify-Reports_example : Reports old_schema new_schema (removed_note ∷ [])
diff_and_classify-Reports_example =
    diff_and_classify-Reports old_schema new_schema (removed_note ∷ []) diff_run

summarize-removed_example : summarize_classification (removed_note ∷ []) ≡ breaking
summarize-removed_example =
    summarize-removed old_schema new_schema (removed_note ∷ []) "note" (canonicalize (text ""))
      diff_run note_old note_required note_new

old_flat_run :
    flatten old_schema ""
    ≡ ("note", canonicalize (text "")) ∷ ("total", canonicalize (integer (pos 0))) ∷ []
unfolding flatten canonicalize get_entry insert_entry Dict.put Dict.update string_eq old_schema
old_flat_run = refl

new_flat_run : flatten new_schema "" ≡ ("total", canonicalize (integer (pos 0))) ∷ []
unfolding flatten canonicalize get_entry insert_entry Dict.put Dict.update string_eq new_schema
new_flat_run = refl

leaf_hashable : has_hashable_enum (canonicalize (text "")) ≡ true
unfolding canonicalize get_entry string_eq
leaf_hashable = refl

number_hashable : has_hashable_enum (canonicalize (integer (pos 0))) ≡ true
unfolding canonicalize get_entry string_eq
number_hashable = refl

old-IsClassifiable : IsClassifiable (flatten old_schema "")
unfolding Dict.get
old-IsClassifiable p v h =
    let h' : Dict.get p
          (("note", canonicalize (text "")) ∷ ("total", canonicalize (integer (pos 0))) ∷ [])
        ≡ some v =
      rw old_flat_run at h in
    ground (arith, h', leaf_hashable, number_hashable)

new-IsClassifiable : IsClassifiable (flatten new_schema "")
unfolding Dict.get
new-IsClassifiable p v h =
    let h' : Dict.get p (("total", canonicalize (integer (pos 0))) ∷ []) ≡ some v =
      rw new_flat_run at h in
    ground (arith, h', number_hashable)

diff_and_classify-Returns_example : Returns (diff_and_classify old_schema new_schema)
diff_and_classify-Returns_example =
    diff_and_classify-Returns old_schema new_schema old-IsClassifiable new-IsClassifiable

-- A payload with a key "type" loses another key.
abbrev typed : Fields
typed = field "type" (text "card") (field "total" (integer (pos 7)) end)

abbrev typed_only : Fields
typed_only = field "type" (text "cash") end

typed-TypedAlike : TypedAlike typed typed_only (text "card") (text "cash")
unfolding get_field string_eq canonicalize
typed-TypedAlike = record {
  nodup_old = (refl, (refl, tt));
  nodup_new = (refl, tt);
  type_old = refl;
  type_new = refl;
  same_type = refl;
  plain_old = refl;
  plain_new = refl;
}

typed_plain : get_field "enum" typed ≡ none
unfolding get_field string_eq
typed_plain = refl

typed_differ : schema_eq (canonicalize (object typed)) (canonicalize (object typed_only)) ≡ false
unfolding schema_eq canonicalize insert_entry get_entry string_eq nat_eq bool_eq
typed_differ = refl

summarize-TypedAlike_example :
    (ds : List DiffItem) × (diff_and_classify
        (canonicalize (object typed))
        (canonicalize (object typed_only))
      ≡ ok ds)
    × (summarize_classification ds ≡ safe)
summarize-TypedAlike_example = summarize-TypedAlike typed-TypedAlike typed_plain typed_differ

abbrev listed : Json → Fields
listed x = field "type" (text "card") (field "enum" (array (cons x nil)) end)

listed-TypedAlike : TypedAlike (listed (text "a")) (listed null) (text "card") (text "card")
unfolding get_field string_eq canonicalize
listed-TypedAlike = record {
  nodup_old = (refl, (refl, tt));
  nodup_new = (refl, (refl, tt));
  type_old = refl;
  type_new = refl;
  same_type = refl;
  plain_old = refl;
  plain_new = refl;
}

enum_of : (x : Json) → get_field "enum" (listed x) ≡ some (array (cons x nil))
unfolding get_field string_eq
enum_of x = refl

listed_differ :
    schema_eq (canonicalize (object (listed (text "a")))) (canonicalize (object (listed null)))
    ≡ false
unfolding schema_eq canonicalize insert_entry get_entry string_eq nat_eq bool_eq
listed_differ = refl
