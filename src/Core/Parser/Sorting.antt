-- ===== src/Core/Parser/Sorting.antt =====
-- The order in which texts and keys are put in their places does not matter.
use Prim.Native.String.{compare}
use schema_pilot_api_contrac.Base.{◌≡◌, ap, sym, ◌∙◌, ◌≢◌, String, List, [], ◌∷◌, arith}
use schema_pilot_api_contrac.Base.TextOrder.{
  Before-ne, Before-trans, trichotomy, before, same, after, insert_sorted, sorted_set,
}
use schema_pilot_api_contrac.Core.Parser.{insert_part, insert_text, sort_texts}

pub insert_part_comm :
    (k j : String) (v w : String) (ps : List (String × String))
    → k ≢ j
    → insert_part k v (insert_part j w ps) ≡ insert_part j w (insert_part k v ps)
unfolding insert_part
insert_part_comm k j v w [] ne = elim (trichotomy k j) [
  | before p q ↦ ground arith
  | same e p ↦ absurd (ne e)
  | after p q ↦ ground arith
]
insert_part_comm k j v w ((x, u) ∷ ps) ne = elim (trichotomy k j) [
  | before p q ↦ elim (trichotomy j x) [
    | before p2 q2 ↦ let t = Before-trans k j x p p2 in ground arith
    | same e p2 ↦ ground (arith, ap (λ z. compare k z) e)
    | after p2 q2 ↦ ground (arith, insert_part_comm k j v w ps ne)
  ]
  | same e p ↦ absurd (ne e)
  | after p q ↦ elim (trichotomy k x) [
    | before p2 q2 ↦ let t = Before-trans j k x p p2 in ground arith
    | same e p2 ↦ ground (arith, ap (λ z. compare j z) e)
    | after p2 q2 ↦ ground (arith, insert_part_comm k j v w ps ne)
  ]
]

insert_sorted_ne :
    (k j : String) (xs : List String)
    → k ≢ j
    → insert_sorted k (insert_sorted j xs) ≡ insert_sorted j (insert_sorted k xs)
unfolding insert_sorted
insert_sorted_ne k j [] ne = elim (trichotomy k j) [
  | before p q ↦ ground arith
  | same e p ↦ absurd (ne e)
  | after p q ↦ ground arith
]
insert_sorted_ne k j (x ∷ xs) ne = elim (trichotomy k j) [
  | before p q ↦ elim (trichotomy j x) [
    | before p2 q2 ↦ let t = Before-trans k j x p p2 in ground arith
    | same e p2 ↦ ground (arith, ap (λ z. compare k z) e)
    | after p2 q2 ↦ ground (arith, insert_sorted_ne k j xs ne)
  ]
  | same e p ↦ absurd (ne e)
  | after p q ↦ elim (trichotomy k x) [
    | before p2 q2 ↦ let t = Before-trans j k x p p2 in ground arith
    | same e p2 ↦ ground (arith, ap (λ z. compare j z) e)
    | after p2 q2 ↦ ground (arith, insert_sorted_ne k j xs ne)
  ]
]

-- Two texts are put in place one after the other, in either order, for a step that depends on the order of
-- two different texts alone.
either_order :
    (step : String → List String → List String) (k j : String) (xs : List String)
    → (k ≢ j → step k (step j xs) ≡ step j (step k xs))
    → step k (step j xs) ≡ step j (step k xs)
either_order step k j xs differ = elim (trichotomy k j) [
  | before p q ↦ differ (Before-ne k j p)
  | same e p ↦ ap (λ z. step z (step j xs)) e ∙ sym (ap (λ z. step j (step z xs)) e)
  | after p q ↦ differ (λ e. Before-ne j k p (sym e))
]

pub insert_sorted_comm :
    (k j : String) (xs : List String)
    → insert_sorted k (insert_sorted j xs) ≡ insert_sorted j (insert_sorted k xs)
insert_sorted_comm k j xs = either_order insert_sorted k j xs (insert_sorted_ne k j xs)

insert_text_ne :
    (k j : String) (xs : List String)
    → k ≢ j
    → insert_text k (insert_text j xs) ≡ insert_text j (insert_text k xs)
unfolding insert_text
insert_text_ne k j [] ne = elim (trichotomy k j) [
  | before p q ↦ ground arith
  | same e p ↦ absurd (ne e)
  | after p q ↦ ground arith
]
insert_text_ne k j (x ∷ xs) ne = elim (trichotomy k j) [
  | before p q ↦ elim (trichotomy j x) [
    | before p2 q2 ↦ let t = Before-trans k j x p p2 in ground arith
    | same e p2 ↦ ground (arith, ap (λ z. compare k z) e)
    | after p2 q2 ↦ ground (arith, insert_text_ne k j xs ne)
  ]
  | same e p ↦ absurd (ne e)
  | after p q ↦ elim (trichotomy k x) [
    | before p2 q2 ↦ let t = Before-trans j k x p p2 in ground arith
    | same e p2 ↦ ground (arith, ap (λ z. compare j z) e)
    | after p2 q2 ↦ ground (arith, insert_text_ne k j xs ne)
  ]
]

pub insert_text_comm :
    (k j : String) (xs : List String)
    → insert_text k (insert_text j xs) ≡ insert_text j (insert_text k xs)
insert_text_comm k j xs = either_order insert_text k j xs (insert_text_ne k j xs)

pub sort_texts_comm :
    (x y : String) (xs : List String) → sort_texts (x ∷ y ∷ xs) ≡ sort_texts (y ∷ x ∷ xs)
unfolding sort_texts
sort_texts_comm x y xs = insert_text_comm x y (sort_texts xs)

pub sorted_set_comm :
    (x y : String) (xs : List String) → sorted_set (x ∷ y ∷ xs) ≡ sorted_set (y ∷ x ∷ xs)
unfolding sorted_set
sorted_set_comm x y xs = insert_sorted_comm x y (sorted_set xs)
