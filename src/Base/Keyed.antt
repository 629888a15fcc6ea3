-- ===== src/Base/Keyed.antt =====
-- Rows with a number as their key, which no two rows of a table share.
use schema_pilot_api_contrac.Base.{
  false, ◌||◌, ◌∙◌, subst, ℕ, zero, suc, ◌≡◌, refl, ◌≢◌, inl, inr, sym, ap, ap₂, Bool, true,
  Bool-cases, List, [], ◌∷◌, map, arith, leb, ◌==◌, nat_eq,
}
use schema_pilot_api_contrac.Base.Sequence.{All, Elem, filter, take, insert_by, sort_by}

module _ {A : Type 0} (key : A → ℕ) where
  -- No row of the list has the key.
  abbrev pub Free : ℕ → List A → Type 0
  Free k = All (λ x. key x ≢ k)

  abbrev pub DistinctKeys : List A → Type 0
  DistinctKeys [] = Unit
  DistinctKeys (x ∷ xs) = Free (key x) xs × DistinctKeys xs

  -- Some row of the list has the key.
  abbrev pub has_id : ℕ → List A → Bool
  has_id k [] = false
  has_id k (x ∷ xs) = key x == k || has_id k xs

  pub Free-has_id : (k : ℕ) (xs : List A) → has_id k xs ≡ false → Free k xs
  Free-has_id k [] h = tt
  Free-has_id k (x ∷ xs) h = (ground arith, Free-has_id k xs (ground arith))

  pub has_id-Free : (k : ℕ) (xs : List A) → Free k xs → has_id k xs ≡ false
  has_id-Free k [] h = refl
  has_id-Free k (x ∷ xs) h = ground (arith, h.0, has_id-Free k xs h.1)

  pub Elem-has_id : (x : A) (xs : List A) → Elem x xs → has_id (key x) xs ≡ true
  Elem-has_id x [] h = elim h [ ]
  Elem-has_id x (y ∷ ys) (inl e) =
      subst (λ z. (key z == key x || has_id (key x) ys) ≡ true) (sym e) (ground arith)
  Elem-has_id x (y ∷ ys) (inr later) = ground (arith, Elem-has_id x ys later)

  pub has_id-Elem : (k : ℕ) (xs : List A) → has_id k xs ≡ true → (x : A) × Elem x xs × (key x ≡ k)
  has_id-Elem k [] h = cc
  has_id-Elem k (x ∷ xs) h = elim (Bool-cases (key x == k)) [
    | inl same ↦ (x, inl refl, ground arith)
    | inr other ↦ let r = has_id-Elem k xs (ground arith) in (r.0, inr r.1, r.2)
  ]

  Free-filter : (p : A → Bool) (k : ℕ) (xs : List A) → Free k xs → Free k (filter p xs)
  Free-filter p k [] h = tt
  Free-filter p k (x ∷ xs) h = elim (Bool-cases (p x)) [
    | inl e ↦ rw e (h.0, Free-filter p k xs h.1)
    | inr e ↦ rw e (Free-filter p k xs h.1)
  ]

  DistinctKeys-filter : (p : A → Bool) (xs : List A) → DistinctKeys xs → DistinctKeys (filter p xs)
  DistinctKeys-filter p [] h = tt
  DistinctKeys-filter p (x ∷ xs) h = elim (Bool-cases (p x)) [
    | inl e ↦ rw e (Free-filter p (key x) xs h.0, DistinctKeys-filter p xs h.1)
    | inr e ↦ rw e (DistinctKeys-filter p xs h.1)
  ]

  Free-take : (n k : ℕ) (xs : List A) → Free k xs → Free k (take n xs)
  Free-take zero k xs h = tt
  Free-take (suc n) k [] h = tt
  Free-take (suc n) k (x ∷ xs) h = (h.0, Free-take n k xs h.1)

  DistinctKeys-take : (n : ℕ) (xs : List A) → DistinctKeys xs → DistinctKeys (take n xs)
  DistinctKeys-take zero xs h = tt
  DistinctKeys-take (suc n) [] h = tt
  DistinctKeys-take (suc n) (x ∷ xs) h = (Free-take n (key x) xs h.0, DistinctKeys-take n xs h.1)

  module _ (order : A → ℕ) where
    Free-insert_by :
        (k : ℕ) (x : A) (xs : List A) → key x ≢ k → Free k xs → Free k (insert_by order x xs)
    unfolding insert_by
    Free-insert_by k x [] n h = (n, tt)
    Free-insert_by k x (y ∷ ys) n h = elim (Bool-cases (leb (order x) (order y))) [
      | inl e ↦ rw e (n, h)
      | inr e ↦ rw e (h.0, Free-insert_by k x ys n h.1)
    ]

    DistinctKeys-insert_by :
        (x : A) (xs : List A)
        → Free (key x) xs
        → DistinctKeys xs
        → DistinctKeys (insert_by order x xs)
    unfolding insert_by
    DistinctKeys-insert_by x [] f h = (tt, tt)
    DistinctKeys-insert_by x (y ∷ ys) f h = elim (Bool-cases (leb (order x) (order y))) [
      | inl e ↦ rw e (f, h)
      | inr e ↦ rw e (
        Free-insert_by (key y) x ys (λ same. f.0 (sym same)) h.0,
        DistinctKeys-insert_by x ys f.1 h.1,
      )
    ]

    Free-sort_by : (k : ℕ) (xs : List A) → Free k xs → Free k (sort_by order xs)
    unfolding sort_by
    Free-sort_by k [] h = tt
    Free-sort_by k (x ∷ xs) h = Free-insert_by k x (sort_by order xs) h.0 (Free-sort_by k xs h.1)

    DistinctKeys-sort_by : (xs : List A) → DistinctKeys xs → DistinctKeys (sort_by order xs)
    unfolding sort_by
    DistinctKeys-sort_by [] h = tt
    DistinctKeys-sort_by (x ∷ xs) h =
        DistinctKeys-insert_by x (sort_by order xs) (Free-sort_by (key x) xs h.0)
          (DistinctKeys-sort_by xs h.1)

    -- A query keeps keys distinct.
    pub DistinctKeys-query :
        (n : ℕ) (p : A → Bool) (xs : List A)
        → DistinctKeys xs
        → DistinctKeys (take n (sort_by order (filter p xs)))
    DistinctKeys-query n p xs h =
        DistinctKeys-take n (sort_by order (filter p xs))
          (DistinctKeys-sort_by (filter p xs) (DistinctKeys-filter p xs h))

  Free-Elem : (k : ℕ) (x : A) (xs : List A) → Free k xs → Elem x xs → key x ≢ k
  Free-Elem k x [] h e = elim e [ ]
  Free-Elem k x (y ∷ ys) h (inl e) = λ same. h.0 (ap key e ∙ same)
  Free-Elem k x (y ∷ ys) h (inr later) = Free-Elem k x ys h.1 later

  -- Rows of one table that share a key are one row.
  pub DistinctKeys-unique :
      (x y : A) (xs : List A) → DistinctKeys xs → Elem x xs → Elem y xs → key x ≡ key y → x ≡ y
  DistinctKeys-unique x y [] h a b e = elim a [ ]
  DistinctKeys-unique x y (z ∷ zs) h (inl a) (inl b) e = sym a ∙ b
  DistinctKeys-unique x y (z ∷ zs) h (inl a) (inr b) e =
      absurd (Free-Elem (key z) y zs h.0 b (sym e ∙ ap key (sym a)))
  DistinctKeys-unique x y (z ∷ zs) h (inr a) (inl b) e =
      absurd (Free-Elem (key z) x zs h.0 a (e ∙ ap key (sym b)))
  DistinctKeys-unique x y (z ∷ zs) h (inr a) (inr b) e = DistinctKeys-unique x y zs h.1 a b e

  -- A map that keeps keys keeps them distinct.
  Free-map :
      (f : A → A)
      → ((x : A) → key (f x) ≡ key x)
      → (k : ℕ) (xs : List A) → Free k xs
      → Free k (map f xs)
  Free-map f same k [] h = tt
  Free-map f same k (x ∷ xs) h = ((λ e. h.0 (sym (same x) ∙ e)), Free-map f same k xs h.1)

  pub DistinctKeys-map :
      (f : A → A)
      → ((x : A) → key (f x) ≡ key x)
      → (xs : List A) → DistinctKeys xs
      → DistinctKeys (map f xs)
  DistinctKeys-map f same [] h = tt
  DistinctKeys-map f same (x ∷ xs) h = (
    subst (λ k. Free k (map f xs)) (sym (same x)) (Free-map f same (key x) xs h.0),
    DistinctKeys-map f same xs h.1,
  )

-- Two maps that agree on a list's rows.
pub map-agree {ℓ} :
    {A : Type 0} {B : Type ℓ} (f g : A → B) (xs : List A)
    → ((x : A) → Elem x xs → f x ≡ g x)
    → map f xs ≡ map g xs
map-agree f g [] h = refl
map-agree f g (x ∷ xs) h =
    ap₂ (λ y ys. y ∷ ys) (h x (inl refl)) (map-agree f g xs (λ y later. h y (inr later)))

pub map-map : {A : Type 0} (f g : A → A) (xs : List A) → map f (map g xs) ≡ map (λ x. f (g x)) xs
map-map f g [] = refl
map-map f g (x ∷ xs) = ap (λ ys. f (g x) ∷ ys) (map-map f g xs)

pub map-same : {A : Type 0} (f : A → A) (xs : List A) → ((x : A) → f x ≡ x) → map f xs ≡ xs
map-same f [] h = refl
map-same f (x ∷ xs) h = ap₂ (λ y ys. y ∷ ys) (h x) (map-same f xs h)

pub Elem-map :
    {A : Type 0} (f : A → A) (y : A) (xs : List A)
    → Elem y (map f xs)
    → (x : A) × Elem x xs × (f x ≡ y)
Elem-map f y [] h = elim h [ ]
Elem-map f y (x ∷ xs) (inl e) = (x, inl refl, e)
Elem-map f y (x ∷ xs) (inr later) = let r = Elem-map f y xs later in (r.0, inr r.1, r.2)

pub filter-empty :
    {A : Type 0} (p : A → Bool) (xs : List A)
    → ((x : A) → Elem x xs → p x ≡ false)
    → filter p xs ≡ []
filter-empty p [] h = refl
filter-empty p (x ∷ xs) h = rw (h x (inl refl)) (filter-empty p xs (λ y later. h y (inr later)))

pub Elem-map_of : {A : Type 0} (f : A → A) (x : A) (xs : List A) → Elem x xs → Elem (f x) (map f xs)
Elem-map_of f x [] h = elim h [ ]
Elem-map_of f x (y ∷ ys) (inl e) = inl (ap f e)
Elem-map_of f x (y ∷ ys) (inr later) = inr (Elem-map_of f x ys later)
