-- ===== src/Monitor/Normalizer/Reordered.antt =====
-- Payloads that differ in the order of their keys alone are normalized alike.
use Prim.Native.String.{compare}
use schema_pilot_api_contrac.Base.{◌≡◌, refl, ap, ap₂, ◌∙◌, ◌≢◌, String, ℕ, Option, arith}
use schema_pilot_api_contrac.Base.TextOrder.{Before-trans, trichotomy, before, same, after}
use schema_pilot_api_contrac.Json.{Json, Items, Fields, array, object, nil, cons, end, field}
use schema_pilot_api_contrac.Monitor.Normalizer.{
  insert_field, sort_keys, sort_items, sort_fields, cap_of, cap_body, normalize,
}

-- Equal payloads, as Python's `==` has it: the keys of a dict in any order, at each level.
mutual
  pub data Reordered : Json → Json → Type 0 where
    same_value : (v : Json) → Reordered v v
    arrays : {xs ys : Items} → ReorderedItems xs ys → Reordered (array xs) (array ys)
    objects : {fs gs : Fields} → ReorderedFields fs gs → Reordered (object fs) (object gs)

  pub data ReorderedItems : Items → Items → Type 0 where
    nils : ReorderedItems nil nil
    conses :
        {x y : Json} {xs ys : Items}
        → Reordered x y
        → ReorderedItems xs ys
        → ReorderedItems (cons x xs) (cons y ys)

  pub data ReorderedFields : Fields → Fields → Type 0 where
    ends : ReorderedFields end end
    fields :
        (k : String) {v w : Json} {fs gs : Fields}
        → Reordered v w
        → ReorderedFields fs gs
        → ReorderedFields (field k v fs) (field k w gs)
    swapped :
        {k j : String}
        → k ≢ j
        → (v w : Json) (fs : Fields)
        → ReorderedFields (field k v (field j w fs)) (field j w (field k v fs))
    chained :
        {fs gs hs : Fields} → ReorderedFields fs gs → ReorderedFields gs hs → ReorderedFields fs hs

insert_field_comm :
    (k j : String) (v w : Json) (fs : Fields)
    → k ≢ j
    → insert_field k v (insert_field j w fs) ≡ insert_field j w (insert_field k v fs)
unfolding insert_field
insert_field_comm k j v w end ne = elim (trichotomy k j) [
  | before p q ↦ ground arith
  | same e p ↦ absurd (ne e)
  | after p q ↦ ground arith
]
insert_field_comm k j v w (field x u fs) ne = elim (trichotomy k j) [
  | before p q ↦ elim (trichotomy j x) [
    | before p2 q2 ↦ let t = Before-trans k j x p p2 in ground arith
    | same e p2 ↦ ground (arith, ap (λ z. compare k z) e)
    | after p2 q2 ↦ ground (arith, insert_field_comm k j v w fs ne)
  ]
  | same e p ↦ absurd (ne e)
  | after p q ↦ elim (trichotomy k x) [
    | before p2 q2 ↦ let t = Before-trans j k x p p2 in ground arith
    | same e p2 ↦ ground (arith, ap (λ z. compare j z) e)
    | after p2 q2 ↦ ground (arith, insert_field_comm k j v w fs ne)
  ]
]

mutual
  unfolding sort_keys

  sorted_alike : {a b : Json} → Reordered a b → sort_keys a ≡ sort_keys b
  sorted_alike (same_value v) = refl
  sorted_alike (arrays s) = ap array (sorted_items s)
  sorted_alike (objects s) = ap object (sorted_fields s)

  sorted_items : {xs ys : Items} → ReorderedItems xs ys → sort_items xs ≡ sort_items ys
  sorted_items nils = refl
  sorted_items (conses h t) = ap₂ cons (sorted_alike h) (sorted_items t)

  sorted_fields : {fs gs : Fields} → ReorderedFields fs gs → sort_fields fs ≡ sort_fields gs
  sorted_fields ends = refl
  sorted_fields (fields k h t) = ap₂ (insert_field k) (sorted_alike h) (sorted_fields t)
  sorted_fields (swapped {k} {j} ne v w fs) =
      insert_field_comm k j (sort_keys v) (sort_keys w) (sort_fields fs) ne
  sorted_fields (chained s t) = sorted_fields s ∙ sorted_fields t

-- Payloads that differ in the order of their keys alone have one normal form, cut off or not: what is stored,
-- and the schema that is inferred from it, do not depend on that order.
pub normalize-Reordered :
    (encoded_size : Json → ℕ) (reparse : ℕ → Json → Option Json) {a b : Json}
    → Reordered a b
    → (max_bytes : Option ℕ)
    → normalize encoded_size reparse a max_bytes ≡ normalize encoded_size reparse b max_bytes
unfolding normalize
normalize-Reordered encoded_size reparse {a} {b} s max_bytes =
    ap (cap_body encoded_size reparse (cap_of max_bytes)) (sorted_alike s)
