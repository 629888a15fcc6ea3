-- ===== src/Runtime/Classifier/Diff.antt =====
-- What a diff reports: the paths at which the flattened schemas differ, each once, in order, with the class
-- of the change.
use schema_pilot_api_contrac.Base.{
  ◌≡◌, ◌∙◌, inl, inr, Bool-cases, String, Bool, true, false, not, ◌&&◌, List, [], ◌∷◌, ◌++◌, arith,
  contains, string_eq,
}
use schema_pilot_api_contrac.Base.Dict
use schema_pilot_api_contrac.Base.Dict.{Dict}
use schema_pilot_api_contrac.Base.Result.{ok, >>=-eq-ok, ◌>>=◌}
use schema_pilot_api_contrac.Base.Sequence.{All}
use schema_pilot_api_contrac.Base.TextOrder.{
  FirstBefore-trans, contains-append, FirstBefore, IsIncreasing, sorted_set, contains-sorted_set,
  sorted_set-IsIncreasing,
}
use schema_pilot_api_contrac.Schema.{Schema}
use schema_pilot_api_contrac.Runtime.Models.{Compatibility}
use schema_pilot_api_contrac.Runtime.Classifier.{
  DiffItem, diff_item, flatten, classify, same_entry, diff_paths, diff_and_classify,
}

abbrev pub paths : List DiffItem → List String
paths [] = []
paths (d ∷ ds) = d.path ∷ paths ds

module _ (old new : Dict Schema) where
  abbrev pub same_at : String → Bool
  same_at p = same_entry (Dict.get p old) (Dict.get p new)

  -- The step of `diff_paths` at a path where the dicts differ, taken apart.
  pub record Step (p : String) (ps : List String) (ds : List DiffItem) : Type 0 where
    pub verdict : Compatibility × String
    pub tail : List DiffItem
    pub judged : classify (Dict.get p old) (Dict.get p new) ≡ ok verdict
    pub rest : diff_paths ps old new ≡ ok tail
    pub joined : ds ≡ diff_item p (Dict.get p old) (Dict.get p new) verdict ∷ tail

  step :
      (p : String) (ps : List String) (ds : List DiffItem)
      → same_at p ≡ false
      → diff_paths (p ∷ ps) old new ≡ ok ds
      → Step p ps ds
  unfolding diff_paths
  step p ps ds differ h =
      let h' : (classify (Dict.get p old) (Dict.get p new) >>= λ verdict.
      diff_paths ps old new >>= λ items.
      ok (diff_item p (Dict.get p old) (Dict.get p new) verdict ∷ items))
          ≡ ok ds =
        rw differ at h in
      let (verdict, judged, g) = >>=-eq-ok _ _ h' in
      let (tail, rest, e) = >>=-eq-ok _ _ g in
      record { verdict = verdict; tail = tail; judged = judged; rest = rest; joined = cc e }

  skip :
      (p : String) (ps : List String) (ds : List DiffItem)
      → same_at p ≡ true
      → diff_paths (p ∷ ps) old new ≡ ok ds
      → diff_paths ps old new ≡ ok ds
  unfolding diff_paths
  skip p ps ds same h = rw same at h

  stop : (ds : List DiffItem) → diff_paths [] old new ≡ ok ds → ds ≡ []
  unfolding diff_paths
  stop ds h = ground arith

  contains-paths :
      (ps : List String) (ds : List DiffItem) (p : String)
      → diff_paths ps old new ≡ ok ds
      → contains (paths ds) p ≡ (contains ps p && not (same_at p))
  contains-paths [] ds p h = rw (stop ds h)
  contains-paths (q ∷ ps) ds p h = elim (Bool-cases (same_at q)) [
    | inl same ↦ ground (arith, contains-paths ps ds p (skip q ps ds same h))
    | inr differ ↦
        let st = step q ps ds differ h in
        rw st.joined (ground (arith, contains-paths ps st.tail p st.rest))
  ]

  FirstBefore-paths :
      (q : String) (ps : List String) (ds : List DiffItem)
      → diff_paths ps old new ≡ ok ds
      → IsIncreasing ps
      → FirstBefore q ps
      → FirstBefore q (paths ds)
  FirstBefore-paths q [] ds h s f = rw (stop ds h) tt
  FirstBefore-paths q (p ∷ ps) ds h s f = elim (Bool-cases (same_at p)) [
    | inl same ↦
        FirstBefore-paths q ps ds (skip p ps ds same h) s.1 (FirstBefore-trans q p ps f s.0)
    | inr differ ↦ rw (step p ps ds differ h).joined f
  ]

  paths-IsIncreasing :
      (ps : List String) (ds : List DiffItem)
      → diff_paths ps old new ≡ ok ds
      → IsIncreasing ps
      → IsIncreasing (paths ds)
  paths-IsIncreasing [] ds h s = rw (stop ds h) tt
  paths-IsIncreasing (p ∷ ps) ds h s = elim (Bool-cases (same_at p)) [
    | inl same ↦ paths-IsIncreasing ps ds (skip p ps ds same h) s.1
    | inr differ ↦
        let st = step p ps ds differ h in
        rw st.joined (
          FirstBefore-paths p ps st.tail st.rest s.1 s.0,
          paths-IsIncreasing ps st.tail st.rest s.1,
        )
  ]

  -- The item is what `_classify` said of its path.
  abbrev pub IsJudged : DiffItem → Type 0
  IsJudged d =
      classify (Dict.get d.path old) (Dict.get d.path new) ≡ ok (d.classification, d.reason)

  paths-IsJudged :
      (ps : List String) (ds : List DiffItem) → diff_paths ps old new ≡ ok ds → All IsJudged ds
  paths-IsJudged [] ds h = rw (stop ds h) tt
  paths-IsJudged (p ∷ ps) ds h = elim (Bool-cases (same_at p)) [
    | inl same ↦ paths-IsJudged ps ds (skip p ps ds same h)
    | inr differ ↦
        let st = step p ps ds differ h in
        rw st.joined (st.judged, paths-IsJudged ps st.tail st.rest)
  ]

-- A path where the flattened schemas differ is a key of one of them.
listed :
    (old new : Dict Schema) (p : String)
    → (contains (sorted_set (Dict.keys old ++ Dict.keys new)) p && not (same_at old new p))
      ≡ not (same_at old new p)
unfolding same_entry
listed old new p =
    rw (contains-sorted_set p (Dict.keys old ++ Dict.keys new), contains-append)
      (ground (arith, Dict.get-eq-none p old, Dict.get-eq-none p new))

-- What a diff says of two schemas.
pub record Reports (old new : Schema) (ds : List DiffItem) : Type 0 where
  pub sorted : IsIncreasing (paths ds)
  pub exact :
      (p : String)
      → contains (paths ds) p
        ≡ not (same_entry (Dict.get p (flatten old "")) (Dict.get p (flatten new "")))
  pub judged : All (IsJudged (flatten old "") (flatten new "")) ds

-- When the diff of two schemas returns, its paths strictly increase, they are exactly the paths at which
-- the two flattened schemas differ, and each item has the class and the reason that `_classify` gives to
-- what the two have at its path.
pub diff_and_classify-Reports :
    (old new : Schema) (ds : List DiffItem) → diff_and_classify old new ≡ ok ds → Reports old new ds
unfolding diff_and_classify
diff_and_classify-Reports old new ds h =
    let a = flatten old "" in
    let b = flatten new "" in
    let ps = sorted_set (Dict.keys a ++ Dict.keys b) in
    record {
      sorted =
          paths-IsIncreasing a b ps ds h (sorted_set-IsIncreasing (Dict.keys a ++ Dict.keys b));
      exact = λ p. contains-paths a b ps ds p h ∙ listed a b p;
      judged = paths-IsJudged a b ps ds h;
    }
