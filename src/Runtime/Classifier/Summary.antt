-- ===== src/Runtime/Classifier/Summary.antt =====
-- The class of a whole diff is the worst class in it.
use schema_pilot_api_contrac.Base.{◌≤◌, ◌≡◌, refl, sym, ◌∙◌, ◌⊎◌, inl, inr, List, [], ◌∷◌, arith}
use schema_pilot_api_contrac.Base.Sequence.{All}
use schema_pilot_api_contrac.Runtime.Models.{Compatibility, safe, rank}
use schema_pilot_api_contrac.Runtime.Classifier.{
  DiffItem, worse, max_class, summarize_classification,
}

-- A class that some item of the diff has.
abbrev pub Occurs : Compatibility → List DiffItem → Type 0
Occurs c [] = ⊥
Occurs c (d ∷ ds) = (d.classification ≡ c) ⊎ Occurs c ds

worse-ge : (a b : Compatibility) → (rank a ≤ rank (worse a b)) × (rank b ≤ rank (worse a b))
unfolding worse
worse-ge a b = ground arith

worse-cases : (a b : Compatibility) → (worse a b ≡ a) ⊎ (worse a b ≡ b)
unfolding worse
worse-cases a b = ground arith

max_class-ge : (best : Compatibility) (ds : List DiffItem) → rank best ≤ rank (max_class best ds)
unfolding max_class
max_class-ge best [] = omega arith
max_class-ge best (d ∷ ds) =
    omega (arith, worse-ge best d.classification, max_class-ge (worse best d.classification) ds)

max_class-bound :
    (best : Compatibility) (ds : List DiffItem)
    → All (λ d. rank d.classification ≤ rank (max_class best ds)) ds
unfolding max_class
max_class-bound best [] = tt
max_class-bound best (d ∷ ds) = (
  omega (arith, worse-ge best d.classification, max_class-ge (worse best d.classification) ds),
  max_class-bound (worse best d.classification) ds,
)

max_class-Occurs :
    (best : Compatibility) (ds : List DiffItem)
    → (max_class best ds ≡ best) ⊎ Occurs (max_class best ds) ds
unfolding max_class
max_class-Occurs best [] = inl refl
max_class-Occurs best (d ∷ ds) = elim (max_class-Occurs (worse best d.classification) ds) [
  | inl e ↦ elim (worse-cases best d.classification) [
    | inl old ↦ inl (e ∙ old)
    | inr new ↦ inr (inl (sym new ∙ sym e))
  ]
  | inr o ↦ inr (inr o)
]

-- The class of a diff is at least the class of each of its items, and one of them has it; that of an empty
-- diff is SAFE.
pub summarize_classification_max :
    (ds : List DiffItem)
    → All (λ d. rank d.classification ≤ rank (summarize_classification ds)) ds
      × (Occurs (summarize_classification ds) ds
          ⊎ ((ds ≡ []) × (summarize_classification ds ≡ safe)))
unfolding summarize_classification
summarize_classification_max [] = (tt, inr (refl, refl))
summarize_classification_max (d ∷ ds) = (
  (max_class-ge d.classification ds, max_class-bound d.classification ds),
  elim (max_class-Occurs d.classification ds) [ inl e ↦ inl (inl (sym e)) | inr o ↦ inl (inr o) ],
)
