-- ===== src/Base/Descending.antt =====
-- Rows in descending order of a key, as `ORDER BY key DESC` returns them.
use schema_pilot_api_contrac.Base.{
  ℕ, ◌<◌, ◌≡◌, false, refl, ap, ◌∙◌, inl, inr, Bool-cases, ◌++◌, List, [], ◌∷◌, map, arith, leb,
}
use schema_pilot_api_contrac.Base.Sequence.{sort_by_desc, insert_by_desc, Elem, All}

module _ {A : Type 0} (key : A → ℕ) where
  Elem-insert_by_desc_of :
      (x z : A) (xs : List A) → Elem z (x ∷ xs) → Elem z (insert_by_desc key x xs)
  unfolding insert_by_desc
  Elem-insert_by_desc_of x z [] h = h
  Elem-insert_by_desc_of x z (y ∷ ys) h = elim (Bool-cases (leb (key y) (key x))) [
    | inl here ↦ rw here h
    | inr later ↦ rw later (elim h [
      | inl e ↦ inr (Elem-insert_by_desc_of x z ys (inl e))
      | inr (inl e) ↦ inl e
      | inr (inr t) ↦ inr (Elem-insert_by_desc_of x z ys (inr t))
    ])
  ]

  pub Elem-sort_by_desc_of : (z : A) (xs : List A) → Elem z xs → Elem z (sort_by_desc key xs)
  unfolding sort_by_desc
  Elem-sort_by_desc_of z [] h = h
  Elem-sort_by_desc_of z (x ∷ xs) (inl e) = Elem-insert_by_desc_of x z (sort_by_desc key xs) (inl e)
  Elem-sort_by_desc_of z (x ∷ xs) (inr t) =
      Elem-insert_by_desc_of x z (sort_by_desc key xs) (inr (Elem-sort_by_desc_of z xs t))

  -- A map that keeps keys keeps the order.
  module _ (f : A → A) (same : (x : A) → key (f x) ≡ key x) where
    insert_by_desc-map :
        (x : A) (xs : List A)
        → insert_by_desc key (f x) (map f xs) ≡ map f (insert_by_desc key x xs)
    unfolding insert_by_desc
    insert_by_desc-map x [] = refl
    insert_by_desc-map x (y ∷ ys) = ground (arith, same x, same y, insert_by_desc-map x ys)

    pub sort_by_desc-map : (xs : List A) → sort_by_desc key (map f xs) ≡ map f (sort_by_desc key xs)
    unfolding sort_by_desc
    sort_by_desc-map [] = refl
    sort_by_desc-map (x ∷ xs) =
        ap (insert_by_desc key (f x)) (sort_by_desc-map xs)
        ∙ insert_by_desc-map x (sort_by_desc key xs)

  -- So a last row that is newer than all rows before it is the first of the listing.
  pub sort_by_desc_last :
      (x : A) (xs : List A)
      → All (λ y. key y < key x) xs
      → (rest : List A) × (sort_by_desc key (xs ++ (x ∷ [])) ≡ x ∷ rest)
  unfolding sort_by_desc insert_by_desc
  sort_by_desc_last x [] h = ([], refl)
  sort_by_desc_last x (y ∷ ys) h =
      let (rest, e) = sort_by_desc_last x ys h.1 in
      let later : leb (key x) (key y) ≡ false = ground (arith, h.0) in
      (insert_by_desc key y rest, ap (insert_by_desc key y) e ∙ rw (later, insert_by_desc) refl)
