-- ===== src/Monitor/Diff/Exact.antt =====
-- Which changes are reported, path by path.
use mathlib.Core.Option.{or_else, none-ne-some}
use schema_pilot_api_contrac.Base.{
  String, ◌≡◌, refl, sym, ap, ◌∙◌, inl, inr, Bool-cases, true, not, ◌&&◌, Option, none, some, List,
  [], ◌++◌, arith, contains, string_eq, if◌then◌else◌,
}
use schema_pilot_api_contrac.Base.Dict.{Dict, keys, get, get-eq-none, contains-keys}
use schema_pilot_api_contrac.Monitor.Types.{json_type_eq, SchemaNode}
use schema_pilot_api_contrac.Monitor.Diff.{
  by_path, only_in, in_both, removed_at, added_at, changed_at, collect, diff_schemas,
}
use schema_pilot_api_contrac.Monitor.Diff.Loops.{
  changes_at, node_at, expected, get-by_path, changes_at-append, changes_at-collect, removed_at-own,
  added_at-own, changed_at-own, removed_at-changes, added_at-changes, changed_at-changes,
  contains-only_in, contains-in_both, only_in-IsIncreasing, in_both-IsIncreasing,
}

keys-get :
    (p : String) (d : Dict SchemaNode) (n : SchemaNode)
    → get p d ≡ some n
    → contains (keys d) p ≡ true
keys-get p d n h = elim (Bool-cases (contains (keys d) p)) [
  | inl there ↦ there
  | inr missing ↦ absurd (none-ne-some n (sym (get-eq-none p d missing) ∙ h))
]

removed_loop :
    (p : String) (a b : Dict SchemaNode)
    → changes_at p (collect (removed_at a) (only_in a b)) ≡ (
        if contains (keys a) p && not (contains (keys b) p)
        then changes_at p (removed_at a p)
        else [])
removed_loop p a b =
    changes_at-collect (removed_at a) (removed_at-own a) p (only_in a b) (only_in-IsIncreasing a b)
    ∙ ap (λ c. if c then changes_at p (removed_at a p) else []) (contains-only_in p a b)

added_loop :
    (p : String) (a b : Dict SchemaNode)
    → changes_at p (collect (added_at b) (only_in b a)) ≡ (
        if contains (keys b) p && not (contains (keys a) p)
        then changes_at p (added_at b p)
        else [])
added_loop p a b =
    changes_at-collect (added_at b) (added_at-own b) p (only_in b a) (only_in-IsIncreasing b a)
    ∙ ap (λ c. if c then changes_at p (added_at b p) else []) (contains-only_in p b a)

changed_loop :
    (p : String) (a b : Dict SchemaNode)
    → changes_at p (collect (changed_at a b) (in_both a b))
      ≡ (if contains (keys a) p && contains (keys b) p then changes_at p (changed_at a b p) else [])
changed_loop p a b =
    changes_at-collect (changed_at a b) (changed_at-own a b) p (in_both a b)
      (in_both-IsIncreasing a b)
    ∙ ap (λ c. if c then changes_at p (changed_at a b p) else []) (contains-in_both p a b)

three_loops :
    (p : String) (a b : Dict SchemaNode) (o n : Option SchemaNode)
    → get p a ≡ o
    → get p b ≡ n
    → (changes_at p (collect (removed_at a) (only_in a b))
        ++ changes_at p (collect (added_at b) (only_in b a))
        ++ changes_at p (collect (changed_at a b) (in_both a b)))
      ≡ expected o n
three_loops p a b none none h g =
    rw
      (
        removed_loop p a b,
        added_loop p a b,
        changed_loop p a b,
        contains-keys p a h,
        contains-keys p b g,
      )
      refl
three_loops p a b none (some n) h g =
    rw
      (
        removed_loop p a b,
        added_loop p a b,
        changed_loop p a b,
        contains-keys p a h,
        keys-get p b n g,
        added_at-changes p b n g,
      )
      refl
three_loops p a b (some o) none h g =
    rw
      (
        removed_loop p a b,
        added_loop p a b,
        changed_loop p a b,
        keys-get p a o h,
        contains-keys p b g,
        removed_at-changes p a o h,
      )
      refl
three_loops p a b (some o) (some n) h g =
    rw
      (
        removed_loop p a b,
        added_loop p a b,
        changed_loop p a b,
        keys-get p a o h,
        keys-get p b n g,
        changed_at-changes p a b o n h g,
      )
      refl

get-by_path_new : (p : String) (ns : List SchemaNode) → get p (by_path ns []) ≡ node_at p ns
unfolding get or_else
get-by_path_new p ns = get-by_path p ns [] ∙ ground arith

-- For every path, the changes that are reported are those that its node in the old schema and its node in the
-- new one call for: none where neither has it or nothing changed, and otherwise exactly one.
pub diff_schemas_exact :
    (p : String) (old new : List SchemaNode)
    → changes_at p (diff_schemas old new) ≡ expected (node_at p old) (node_at p new)
unfolding diff_schemas
diff_schemas_exact p old new =
    let a = by_path old [] in
    let b = by_path new [] in
    let removed = collect (removed_at a) (only_in a b) in
    let added = collect (added_at b) (only_in b a) in
    let changed = collect (changed_at a b) (in_both a b) in
    changes_at-append p (removed ++ added) changed
    ∙ ap (λ cs. cs ++ changes_at p changed) (changes_at-append p removed added)
    ∙ three_loops p a b (node_at p old) (node_at p new) (get-by_path_new p old)
        (get-by_path_new p new)
