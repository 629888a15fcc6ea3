-- ===== src/Runtime/Canonical/Shape.antt =====
-- The canonical schema depends on the shape of a payload alone: not on its values, and not on the order of
-- its keys.
use Prim.Native.String.{compare}
use schema_pilot_api_contrac.Base.{◌≡◌, refl, ap, ap₂, ◌∙◌, ◌≢◌, String, Bool, ℕ, arith}
use schema_pilot_api_contrac.Base.TextOrder.{Before-trans, trichotomy, before, same, after}
use schema_pilot_api_contrac.Json.{
  ℤ, Json, Items, Fields, null, boolean, integer, float, text, array, object, nil, cons, end, field,
}
use schema_pilot_api_contrac.Schema.{
  Schema, SchemaFields, list, dict, item, no_entries, entry, insert_entry,
}
use schema_pilot_api_contrac.Runtime.Canonical.{
  canonicalize, canonicalize_items, canonicalize_fields,
}

-- Two payloads of one shape: equal kinds of leaves, and keys in any order at each level.
mutual
  pub data SameShape : Json → Json → Type 0 where
    nulls : SameShape null null
    booleans : (a b : Bool) → SameShape (boolean a) (boolean b)
    integers : (a b : ℤ) → SameShape (integer a) (integer b)
    floats : (a b : ℕ) → SameShape (float a) (float b)
    texts : (a b : String) → SameShape (text a) (text b)
    arrays : {xs ys : Items} → SameItems xs ys → SameShape (array xs) (array ys)
    objects : {fs gs : Fields} → SameFields fs gs → SameShape (object fs) (object gs)

  pub data SameItems : Items → Items → Type 0 where
    nils : SameItems nil nil
    conses :
        {x y : Json} {xs ys : Items}
        → SameShape x y
        → SameItems xs ys
        → SameItems (cons x xs) (cons y ys)

  pub data SameFields : Fields → Fields → Type 0 where
    ends : SameFields end end
    fields :
        (k : String) {v w : Json} {fs gs : Fields}
        → SameShape v w
        → SameFields fs gs
        → SameFields (field k v fs) (field k w gs)
    swapped :
        {k j : String}
        → k ≢ j
        → (v w : Json) (fs : Fields)
        → SameFields (field k v (field j w fs)) (field j w (field k v fs))
    chained : {fs gs hs : Fields} → SameFields fs gs → SameFields gs hs → SameFields fs hs

pub insert_entry_comm :
    (k j : String) (v w : Schema) (fs : SchemaFields)
    → k ≢ j
    → insert_entry k v (insert_entry j w fs) ≡ insert_entry j w (insert_entry k v fs)
unfolding insert_entry
insert_entry_comm k j v w no_entries ne = elim (trichotomy k j) [
  | before p q ↦ ground arith
  | same e p ↦ absurd (ne e)
  | after p q ↦ ground arith
]
insert_entry_comm k j v w (entry x u fs) ne = elim (trichotomy k j) [
  | before p q ↦ elim (trichotomy j x) [
    | before p2 q2 ↦ let t = Before-trans k j x p p2 in ground arith
    | same e p2 ↦ ground (arith, ap (λ z. compare k z) e)
    | after p2 q2 ↦ ground (arith, insert_entry_comm k j v w fs ne)
  ]
  | same e p ↦ absurd (ne e)
  | after p q ↦ elim (trichotomy k x) [
    | before p2 q2 ↦ let t = Before-trans j k x p p2 in ground arith
    | same e p2 ↦ ground (arith, ap (λ z. compare j z) e)
    | after p2 q2 ↦ ground (arith, insert_entry_comm k j v w fs ne)
  ]
]

mutual
  unfolding canonicalize

  shape : {a b : Json} → SameShape a b → canonicalize a ≡ canonicalize b
  shape nulls = refl
  shape (booleans a b) = refl
  shape (integers a b) = refl
  shape (floats a b) = refl
  shape (texts a b) = refl
  shape (arrays s) = ap list (shape_items s)
  shape (objects s) = ap dict (shape_fields s)

  shape_items : {xs ys : Items} → SameItems xs ys → canonicalize_items xs ≡ canonicalize_items ys
  shape_items nils = refl
  shape_items (conses h t) = ap₂ item (shape h) (shape_items t)

  shape_fields :
      {fs gs : Fields} → SameFields fs gs → canonicalize_fields fs ≡ canonicalize_fields gs
  shape_fields ends = refl
  shape_fields (fields k h t) = ap₂ (insert_entry k) (shape h) (shape_fields t)
  shape_fields (swapped {k} {j} ne v w fs) =
      insert_entry_comm k j (canonicalize v) (canonicalize w) (canonicalize_fields fs) ne
  shape_fields (chained s t) = shape_fields s ∙ shape_fields t

-- Payloads of one shape have one canonical schema: leaf values and the order of keys, at every level, do
-- not matter.
pub canonicalize-SameShape : {a b : Json} → SameShape a b → canonicalize a ≡ canonicalize b
canonicalize-SameShape s = shape s
