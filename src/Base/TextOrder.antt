-- ===== src/Base/TextOrder.antt =====
-- Python's order of texts, by code points, and `sorted(set(...))`.
use Prim.Native.Nat.{Ordering, compare as compare_ℕ}
use Prim.Native.Char.{code}
use Prim.Native.String.{compare, then}
use Prim.Native.String.compare as compare_text
use text.Mathlib.TextEquality.{path_by_compare}
use text.Mathlib.TextPositions.{compare_refl}
use schema_pilot_api_contrac.Base.{
  String, ◌≡◌, refl, ap, ◌∙◌, ◌≢◌, ℕ, ◌||◌, List, [], ◌∷◌, ◌++◌, arith, ◌==◌, contains, string_eq,
}

-- `s < t`
abbrev pub Before : String → String → Type 0
Before s t = compare s t ≡ Ordering.lt

abbrev flip : Ordering → Ordering
flip Ordering.lt = Ordering.gt
flip Ordering.eq = Ordering.eq
flip Ordering.gt = Ordering.lt

flip-then : (o p : Ordering) → flip (then o p) ≡ then (flip o) (flip p)
flip-then Ordering.lt p = refl
flip-then Ordering.eq p = refl
flip-then Ordering.gt p = refl

flip-compare_ℕ : (m n : ℕ) → compare_ℕ n m ≡ flip (compare_ℕ m n)
flip-compare_ℕ m n = ground arith

pub flip-compare : (s t : String) → compare t s ≡ flip (compare s t)
flip-compare String.[] String.[] = rw compare_text.nil-nil
flip-compare String.[] (String.◌∷◌ d t) = rw (compare_text.nil-cons, compare_text.cons-nil)
flip-compare (String.◌∷◌ c s) String.[] = rw (compare_text.nil-cons, compare_text.cons-nil)
flip-compare (String.◌∷◌ c s) (String.◌∷◌ d t) = cc (
  compare_text.cons-cons c d s t,
  compare_text.cons-cons d c t s,
  flip-then (compare_ℕ (code c) (code d)) (compare s t),
  flip-compare_ℕ (code c) (code d),
  flip-compare s t,
)

pub Before-trans : (s t u : String) → Before s t → Before t u → Before s u
Before-trans String.[] String.[] u p q = cc
Before-trans String.[] (String.◌∷◌ d t) String.[] p q = cc (compare_text.cons-nil d t)
Before-trans String.[] (String.◌∷◌ d t) (String.◌∷◌ e u) p q = compare_text.nil-cons e u
Before-trans (String.◌∷◌ c s) String.[] u p q = cc (compare_text.cons-nil c s)
Before-trans (String.◌∷◌ c s) (String.◌∷◌ d t) String.[] p q = cc (compare_text.cons-nil d t)
Before-trans (String.◌∷◌ c s) (String.◌∷◌ d t) (String.◌∷◌ e u) p q = ground (
  arith,
  compare_text.cons-cons c d s t,
  compare_text.cons-cons d e t u,
  compare_text.cons-cons c e s u,
  Before-trans s t u,
)

-- The three outcomes of a comparison, as facts.
pub data Trichotomy (s t : String) : Type 0 where
  before : compare s t ≡ Ordering.lt → compare t s ≡ Ordering.gt → Trichotomy s t
  same : s ≡ t → compare s t ≡ Ordering.eq → Trichotomy s t
  after : compare t s ≡ Ordering.lt → compare s t ≡ Ordering.gt → Trichotomy s t

trichotomy_of : (s t : String) (o : Ordering) → compare s t ≡ o → Trichotomy s t
trichotomy_of s t Ordering.lt h = before h (flip-compare s t ∙ ap flip h)
trichotomy_of s t Ordering.eq h = same (path_by_compare s t h) h
trichotomy_of s t Ordering.gt h = after (flip-compare s t ∙ ap flip h) h

pub trichotomy : (s t : String) → Trichotomy s t
trichotomy s t = trichotomy_of s t (compare s t) refl

pub Before-ne : (s t : String) → Before s t → s ≢ t
Before-ne s t h p = cc (compare_refl t, h, ap (λ u. compare u t) p)

-- One step of `sorted(set(...))`: a text that is there already is not added.
unfoldable pub insert_sorted : String → List String → List String
insert_sorted k [] = k ∷ []
insert_sorted k (x ∷ xs) =
    let rest = insert_sorted k xs in
    elim (compare k x) [ Ordering.lt ↦ k ∷ x ∷ xs | Ordering.eq ↦ x ∷ xs | Ordering.gt ↦ x ∷ rest ]

-- `sorted(set(xs))`
unfoldable pub sorted_set : List String → List String
unfolding insert_sorted
sorted_set [] = []
sorted_set (x ∷ xs) = insert_sorted x (sorted_set xs)

-- Strictly increasing: sorted, and no text twice.
abbrev pub FirstBefore : String → List String → Type 0
FirstBefore k [] = Unit
FirstBefore k (x ∷ xs) = Before k x

abbrev pub IsIncreasing : List String → Type 0
IsIncreasing [] = Unit
IsIncreasing (x ∷ xs) = FirstBefore x xs × IsIncreasing xs

FirstBefore-insert_sorted :
    (y k : String) (xs : List String)
    → Before y k
    → FirstBefore y xs
    → FirstBefore y (insert_sorted k xs)
unfolding insert_sorted
FirstBefore-insert_sorted y k [] h f = h
FirstBefore-insert_sorted y k (x ∷ xs) h f = elim (trichotomy k x) [
  | before p q ↦ rw (p, FirstBefore) h
  | same e p ↦ rw (p, FirstBefore) f
  | after p q ↦ rw (q, FirstBefore) f
]

insert_sorted-IsIncreasing :
    (k : String) (xs : List String) → IsIncreasing xs → IsIncreasing (insert_sorted k xs)
unfolding insert_sorted
insert_sorted-IsIncreasing k [] s = (tt, tt)
insert_sorted-IsIncreasing k (x ∷ xs) s = elim (trichotomy k x) [
  | before p q ↦ rw (p, IsIncreasing) (p, s)
  | same e p ↦ rw (p, IsIncreasing) s
  | after p q ↦
      rw (q, IsIncreasing)
        (FirstBefore-insert_sorted x k xs p s.0, insert_sorted-IsIncreasing k xs s.1)
]

pub sorted_set-IsIncreasing : (xs : List String) → IsIncreasing (sorted_set xs)
unfolding sorted_set
sorted_set-IsIncreasing [] = tt
sorted_set-IsIncreasing (x ∷ xs) = insert_sorted-IsIncreasing x _ (sorted_set-IsIncreasing xs)

contains-insert_sorted :
    (j k : String) (xs : List String)
    → contains (insert_sorted k xs) j ≡ ((j == k) || contains xs j)
unfolding insert_sorted
contains-insert_sorted j k [] = refl
contains-insert_sorted j k (x ∷ xs) = elim (trichotomy k x) [
  | before p q ↦ rw (p, contains)
  | same e p ↦ rw (p, contains) (ground arith)
  | after p q ↦ rw (q, contains) (ground (arith, contains-insert_sorted j k xs))
]

-- Sorting a set keeps its members.
pub contains-sorted_set :
    (j : String) (xs : List String) → contains (sorted_set xs) j ≡ contains xs j
unfolding sorted_set
contains-sorted_set j [] = refl
contains-sorted_set j (x ∷ xs) =
    contains-insert_sorted j x (sorted_set xs) ∙ ap (λ b. (j == x) || b) (contains-sorted_set j xs)

pub FirstBefore-trans :
    (q p : String) (ps : List String) → Before q p → FirstBefore p ps → FirstBefore q ps
FirstBefore-trans q p [] h f = tt
FirstBefore-trans q p (x ∷ ps) h f = Before-trans q p x h f

pub contains-append :
    (xs ys : List String) (p : String) → contains (xs ++ ys) p ≡ (contains xs p || contains ys p)
contains-append [] ys p = refl
contains-append (x ∷ xs) ys p = ground (arith, contains-append xs ys p)
