-- ===== src/Base/Sequence.antt =====
-- List functions over the native numbers, and predicates on lists.
use schema_pilot_api_contrac.Base.{
  subst, sym, leb, ◌⊎◌, inl, inr, Bool-cases, Option, none, some, ℕ, zero, suc, ◌+◌, ◌≤◌, ◌≡◌, refl,
  Bool, true, List, [], ◌∷◌, ◌++◌, arith, if◌then◌else◌,
}

module _ {ℓ} {A : Type ℓ} where
  abbrev pub length : List A → ℕ
  length [] = 0
  length (x ∷ xs) = suc (length xs)

  -- `xs[:n]`
  abbrev pub take : ℕ → List A → List A
  take zero xs = []
  take (suc n) [] = []
  take (suc n) (x ∷ xs) = x ∷ take n xs

  -- `[x for x in xs if p(x)]`
  abbrev pub filter : (A → Bool) → List A → List A
  filter p [] = []
  filter p (x ∷ xs) = let rest = filter p xs in if p x then x ∷ rest else rest

  -- The first element that passes, as `SELECT ... LIMIT 1` returns it.
  abbrev pub find? : (A → Bool) → List A → Option A
  find? p [] = none
  find? p (x ∷ xs) = if p x then some x else find? p xs

  pub length-append : (xs ys : List A) → length (xs ++ ys) ≡ length xs + length ys
  length-append [] ys = omega arith
  length-append (x ∷ xs) ys = omega (arith, length-append xs ys)

  pub length-filter-le : (p : A → Bool) (xs : List A) → length (filter p xs) ≤ length xs
  length-filter-le p [] = omega arith
  length-filter-le p (x ∷ xs) = ground (arith, length-filter-le p xs)

  pub length-take-le : (n : ℕ) (xs : List A) → length (take n xs) ≤ n
  length-take-le zero xs = omega arith
  length-take-le (suc n) [] = omega arith
  length-take-le (suc n) (x ∷ xs) = omega (arith, length-take-le n xs)

-- A predicate by recursion computes to tuples, which the tactics read and build.
abbrev pub All {ℓ κ} : {A : Type ℓ} → (A → Type κ) → List A → Type κ
All P [] = Unit
All P (x ∷ xs) = P x × All P xs

module _ {A : Type 0} where
  -- The value stands in the list.
  abbrev pub Elem : A → List A → Type 0
  Elem x [] = ⊥
  Elem x (y ∷ ys) = (y ≡ x) ⊎ Elem x ys

  pub All-Elem {κ} : (P : A → Type κ) (x : A) (xs : List A) → All P xs → Elem x xs → P x
  All-Elem P x [] all e = elim e [ ]
  All-Elem P x (y ∷ ys) all (inl e) = subst P e all.0
  All-Elem P x (y ∷ ys) all (inr later) = All-Elem P x ys all.1 later

  pub All-every {κ} : (P : A → Type κ) (xs : List A) → ((x : A) → Elem x xs → P x) → All P xs
  All-every P [] h = tt
  All-every P (x ∷ xs) h = (h x (inl refl), All-every P xs (λ y later. h y (inr later)))

  pub Elem-filter :
      (p : A → Bool) (x : A) (xs : List A) → Elem x (filter p xs) → Elem x xs × (p x ≡ true)
  Elem-filter p x [] h = elim h [ ]
  Elem-filter p x (y ∷ ys) h = elim (Bool-cases (p y)) [
    | inl keep ↦
        let h' : Elem x (y ∷ filter p ys) = rw keep at h in
        elim h' [
          | inl e ↦ (inl e, subst (λ z. p z ≡ true) e keep)
          | inr later ↦ let r = Elem-filter p x ys later in (inr r.0, r.1)
        ]
    | inr drop ↦ let r = Elem-filter p x ys (rw drop at h) in (inr r.0, r.1)
  ]

  pub Elem-filter_of :
      (p : A → Bool) (x : A) (xs : List A) → Elem x xs → p x ≡ true → Elem x (filter p xs)
  Elem-filter_of p x [] h t = elim h [ ]
  Elem-filter_of p x (y ∷ ys) (inl e) t = rw (subst (λ z. p z ≡ true) (sym e) t) (inl e)
  Elem-filter_of p x (y ∷ ys) (inr later) t = elim (Bool-cases (p y)) [
    | inl keep ↦ rw keep (inr (Elem-filter_of p x ys later t))
    | inr drop ↦ rw drop (Elem-filter_of p x ys later t)
  ]

  -- `ORDER BY key`: rows of one key keep their order.
  unfoldable pub insert_by : (A → ℕ) → A → List A → List A
  insert_by key x [] = x ∷ []
  insert_by key x (y ∷ ys) = if leb (key x) (key y) then x ∷ y ∷ ys else y ∷ insert_by key x ys

  unfoldable pub sort_by : (A → ℕ) → List A → List A
  unfolding insert_by
  sort_by key [] = []
  sort_by key (x ∷ xs) = insert_by key x (sort_by key xs)

  -- `ORDER BY key DESC`
  unfoldable pub insert_by_desc : (A → ℕ) → A → List A → List A
  insert_by_desc key x [] = x ∷ []
  insert_by_desc key x (y ∷ ys) =
      if leb (key y) (key x) then x ∷ y ∷ ys else y ∷ insert_by_desc key x ys

  unfoldable pub sort_by_desc : (A → ℕ) → List A → List A
  unfolding insert_by_desc
  sort_by_desc key [] = []
  sort_by_desc key (x ∷ xs) = insert_by_desc key x (sort_by_desc key xs)

  length-insert_by :
      (key : A → ℕ) (x : A) (xs : List A) → length (insert_by key x xs) ≡ length xs + 1
  unfolding insert_by
  length-insert_by key x [] = omega arith
  length-insert_by key x (y ∷ ys) = ground (arith, length-insert_by key x ys)

  pub length-sort_by : (key : A → ℕ) (xs : List A) → length (sort_by key xs) ≡ length xs
  unfolding sort_by
  length-sort_by key [] = refl
  length-sort_by key (x ∷ xs) =
      omega (arith, length-insert_by key x (sort_by key xs), length-sort_by key xs)

  Elem-insert_by :
      (key : A → ℕ) (x z : A) (xs : List A) → Elem z (insert_by key x xs) → Elem z (x ∷ xs)
  unfolding insert_by
  Elem-insert_by key x z [] h = h
  Elem-insert_by key x z (y ∷ ys) h = elim (Bool-cases (leb (key x) (key y))) [
    | inl here ↦ rw here at h
    | inr later ↦
        let h' : Elem z (y ∷ insert_by key x ys) = rw later at h in
        elim h' [
          | inl e ↦ inr (inl e)
          | inr g ↦ elim (Elem-insert_by key x z ys g) [ inl e ↦ inl e | inr t ↦ inr (inr t) ]
        ]
  ]

  pub Elem-sort_by : (key : A → ℕ) (z : A) (xs : List A) → Elem z (sort_by key xs) → Elem z xs
  unfolding sort_by
  Elem-sort_by key z [] h = h
  Elem-sort_by key z (x ∷ xs) h = elim (Elem-insert_by key x z (sort_by key xs) h) [
    | inl e ↦ inl e
    | inr t ↦ inr (Elem-sort_by key z xs t)
  ]

  pub Elem-take : (n : ℕ) (z : A) (xs : List A) → Elem z (take n xs) → Elem z xs
  Elem-take zero z xs h = elim h [ ]
  Elem-take (suc n) z [] h = h
  Elem-take (suc n) z (x ∷ xs) (inl e) = inl e
  Elem-take (suc n) z (x ∷ xs) (inr t) = inr (Elem-take n z xs t)

  pub Elem-insert_by_of :
      (key : A → ℕ) (x z : A) (xs : List A) → Elem z (x ∷ xs) → Elem z (insert_by key x xs)
  unfolding insert_by
  Elem-insert_by_of key x z [] h = h
  Elem-insert_by_of key x z (y ∷ ys) h = elim (Bool-cases (leb (key x) (key y))) [
    | inl here ↦ rw here h
    | inr later ↦ rw later (elim h [
      | inl e ↦ inr (Elem-insert_by_of key x z ys (inl e))
      | inr (inl e) ↦ inl e
      | inr (inr t) ↦ inr (Elem-insert_by_of key x z ys (inr t))
    ])
  ]

  pub Elem-sort_by_of : (key : A → ℕ) (z : A) (xs : List A) → Elem z xs → Elem z (sort_by key xs)
  unfolding sort_by
  Elem-sort_by_of key z [] h = h
  Elem-sort_by_of key z (x ∷ xs) (inl e) = Elem-insert_by_of key x z (sort_by key xs) (inl e)
  Elem-sort_by_of key z (x ∷ xs) (inr t) =
      Elem-insert_by_of key x z (sort_by key xs) (inr (Elem-sort_by_of key z xs t))

  pub Elem-take_of : (n : ℕ) (z : A) (xs : List A) → length xs ≤ n → Elem z xs → Elem z (take n xs)
  Elem-take_of zero z [] h e = elim e [ ]
  Elem-take_of zero z (x ∷ xs) h e = absurd (omega arith)
  Elem-take_of (suc n) z [] h e = e
  Elem-take_of (suc n) z (x ∷ xs) h (inl e) = inl e
  Elem-take_of (suc n) z (x ∷ xs) h (inr t) = inr (Elem-take_of n z xs (omega arith) t)
