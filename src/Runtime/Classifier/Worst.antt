-- ===== src/Runtime/Classifier/Worst.antt =====
-- The class of a whole diff against the changes at single paths.
use schema_pilot_api_contrac.Base.{
  ◌≤◌, ◌≡◌, ◌∙◌, sym, subst, ap, inl, inr, Bool-cases, String, true, false, not, none, some, List,
  [], ◌∷◌, arith, contains, string_eq, ◌==◌,
}
use schema_pilot_api_contrac.Base.Dict
use schema_pilot_api_contrac.Base.Result.{ok}
use schema_pilot_api_contrac.Base.Sequence.{All}
use schema_pilot_api_contrac.Schema.{Schema}
use schema_pilot_api_contrac.Runtime.Models.{Compatibility, breaking, rank}
use schema_pilot_api_contrac.Runtime.Classifier.{
  DiffItem, flatten, required_of, classify, same_entry, diff_and_classify, summarize_classification,
}
use schema_pilot_api_contrac.Runtime.Classifier.Diff.{paths, IsJudged, diff_and_classify-Reports}
use schema_pilot_api_contrac.Runtime.Classifier.Summary.{summarize_classification_max}

-- The item of a path that is listed.
item_at :
    (P Q : DiffItem → Type 0) (ds : List DiffItem) (p : String)
    → contains (paths ds) p ≡ true
    → All P ds
    → All Q ds
    → (d : DiffItem) × (d.path ≡ p) × P d × Q d
item_at P Q [] p h a b = cc
item_at P Q (d ∷ ds) p h a b = elim (Bool-cases (p == d.path)) [
  | inl here ↦ (d, ground arith, a.0, b.0)
  | inr later ↦ item_at P Q ds p (ground arith) a.1 b.1
]

ok_class : (v w : Compatibility × String) → ok v ≡ ok w → v.0 ≡ w.0
ok_class v w h = ground arith

-- The class of a diff that returned is at least the class of the change at any path where the two
-- flattened schemas differ.
pub rank-summarize_classification :
    (old new : Schema) (ds : List DiffItem) (p why : String) (c : Compatibility)
    → diff_and_classify old new ≡ ok ds
    → same_entry (Dict.get p (flatten old "")) (Dict.get p (flatten new "")) ≡ false
    → classify (Dict.get p (flatten old "")) (Dict.get p (flatten new "")) ≡ ok (c, why)
    → rank c ≤ rank (summarize_classification ds)
rank-summarize_classification old new ds p why c h differ verdict =
    let r = diff_and_classify-Reports old new ds h in
    let (d, here, judged, bound) =
      item_at (IsJudged (flatten old "") (flatten new ""))
        (λ d. rank d.classification ≤ rank (summarize_classification ds)) ds p
        (r.exact p ∙ ap not differ) r.judged (summarize_classification_max ds).0 in
    let agreed : d.classification ≡ c = ok_class _ _ (
      sym (
        sym verdict
        ∙ (subst
            (λ q.
              classify (Dict.get q (flatten old "")) (Dict.get q (flatten new ""))
              ≡ ok (d.classification, d.reason))
            here judged))) in
    subst (λ x. rank x ≤ rank (summarize_classification ds)) agreed bound

rank-eq_breaking : (c : Compatibility) → rank breaking ≤ rank c → c ≡ breaking
unfolding rank
rank-eq_breaking c h = ground arith

-- Removing a field that was not marked optional makes the whole diff BREAKING: a path that the old
-- flattened schema has, with no "required" that is false, and the new one lacks.
pub summarize-removed :
    (old new : Schema) (ds : List DiffItem) (p : String) (v : Schema)
    → diff_and_classify old new ≡ ok ds
    → Dict.get p (flatten old "") ≡ some v
    → required_of v true ≡ true
    → Dict.get p (flatten new "") ≡ none
    → summarize_classification ds ≡ breaking
unfolding classify same_entry
summarize-removed old new ds p v h was needed gone = rank-eq_breaking _ (
    rank-summarize_classification old new ds p "removed required field" breaking h (rw (was, gone))
      (rw (was, gone, needed)))
