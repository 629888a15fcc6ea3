-- ===== src/Monitor/Diff/Loops.antt =====
-- The changes that each of the three loops of `diff_schemas` reports for one path.
use mathlib.Core.Option.{or_else}
use schema_pilot_api_contrac.Base.{
  String, ◌≡◌, refl, sym, ap, ◌∙◌, Bool, false, not, ◌&&◌, Bool-cases, inl, inr, Option, none, some,
  List, [], ◌∷◌, ◌++◌, arith, ◌==◌, contains, string_eq, if◌then◌else◌,
}
use schema_pilot_api_contrac.Base.Sequence.{filter}
use schema_pilot_api_contrac.Base.Dict.{Dict, key_eq, keys, get, put, get-put}
use schema_pilot_api_contrac.Base.TextOrder.{
  FirstBefore, FirstBefore-trans, Before-ne, IsIncreasing, sorted_set-IsIncreasing,
  contains-sorted_set,
}
use schema_pilot_api_contrac.Monitor.Types.{JsonType, json_type_eq, SchemaNode}
use schema_pilot_api_contrac.Monitor.Severity.{ChangeType}
use schema_pilot_api_contrac.Monitor.Changes.{pick_change_type}
use schema_pilot_api_contrac.Monitor.Diff.{
  Diff, by_path, only_in, in_both, removed_at, added_at, change_entry, changed_at, collect,
}

-- The changes that are reported for a path, in their order.
abbrev pub changes_at : String → List Diff → List ChangeType
changes_at p [] = []
changes_at p (d ∷ ds) =
    let rest = changes_at p ds in if p == d.path then d.change_type ∷ rest else rest

-- The node of a path; of two nodes of one path, the later.
abbrev pub node_at : String → List SchemaNode → Option SchemaNode
node_at p [] = none
node_at p (n ∷ ns) = or_else (node_at p ns) (if p == n.path then some n else none)

abbrev option_list : Option ChangeType → List ChangeType
option_list none = []
option_list (some c) = c ∷ []

-- What is to be reported for a path, given its node in the old schema and in the new.
abbrev pub expected : Option SchemaNode → Option SchemaNode → List ChangeType
expected none none = []
expected none (some new) = ChangeType.added_field ∷ []
expected (some old) none =
    (if old.type == JsonType.object
      then ChangeType.nested_object_removed
      else ChangeType.removed_field)
    ∷ []
expected (some old) (some new) = option_list (pick_change_type old new)

pub get-by_path :
    (p : String) (ns : List SchemaNode) (d : Dict SchemaNode)
    → get p (by_path ns d) ≡ or_else (node_at p ns) (get p d)
unfolding by_path or_else
get-by_path p [] d = refl
get-by_path p (n ∷ ns) d = get-by_path p ns (put n.path n d) ∙ ground (arith, get-put p n.path n d)

pub changes_at-append :
    (p : String) (ds es : List Diff) → changes_at p (ds ++ es) ≡ changes_at p ds ++ changes_at p es
changes_at-append p [] es = refl
changes_at-append p (d ∷ ds) es = ground (arith, changes_at-append p ds es)

append_nil : (cs : List ChangeType) → cs ++ [] ≡ cs
append_nil [] = refl
append_nil (c ∷ cs) = ap (λ ds. c ∷ ds) (append_nil cs)

contains-filter :
    (p : String) (keep : String → Bool) (ps : List String)
    → contains (filter keep ps) p ≡ (contains ps p && keep p)
contains-filter p keep [] = refl
contains-filter p keep (q ∷ ps) = ground (arith, contains-filter p keep ps)

contains-FirstBefore :
    (p : String) (ps : List String) → FirstBefore p ps → IsIncreasing ps → contains ps p ≡ false
contains-FirstBefore p [] f s = refl
contains-FirstBefore p (q ∷ ps) f s =
    ground (arith, Before-ne p q f, contains-FirstBefore p ps (FirstBefore-trans p q ps f s.0) s.1)

-- A loop over different paths each of whose entries are about its own path.
module _ (entries : String → List Diff)
    (own : (p q : String) → (p == q) ≡ false → changes_at p (entries q) ≡ []) where
  changes_at-missing :
      (p : String) (ps : List String)
      → contains ps p ≡ false
      → changes_at p (collect entries ps) ≡ []
  changes_at-missing p [] h = refl
  changes_at-missing p (q ∷ ps) h =
      changes_at-append p (entries q) (collect entries ps)
      ∙ rw (own p q (ground arith)) (changes_at-missing p ps (ground arith))

  pub changes_at-collect :
      (p : String) (ps : List String)
      → IsIncreasing ps
      → changes_at p (collect entries ps) ≡ (if contains ps p then changes_at p (entries p) else [])
  changes_at-collect p [] s = refl
  changes_at-collect p (q ∷ ps) s =
      changes_at-append p (entries q) (collect entries ps) ∙ elim (Bool-cases (p == q)) [
        | inl same ↦
            let gone = contains-FirstBefore q ps s.0 s.1 in
            let e = key_eq p q same in
            let once = changes_at-missing p ps (ap (contains ps) e ∙ gone) in
            rw (same, once)
              (append_nil (changes_at p (entries q)) ∙ ap (λ r. changes_at p (entries r)) (sym e))
        | inr other ↦ rw (own p q other, other) (changes_at-collect p ps s.1)
      ]

pub removed_at-own :
    (d : Dict SchemaNode) (p q : String) → (p == q) ≡ false → changes_at p (removed_at d q) ≡ []
unfolding removed_at
removed_at-own d p q other = ground arith

pub added_at-own :
    (d : Dict SchemaNode) (p q : String) → (p == q) ≡ false → changes_at p (added_at d q) ≡ []
unfolding added_at
added_at-own d p q other = ground arith

change_entry-own :
    (p q : String) (o n : SchemaNode) (c : Option ChangeType)
    → (p == q) ≡ false
    → changes_at p (change_entry q o n c) ≡ []
unfolding change_entry
change_entry-own p q o n none other = refl
change_entry-own p q o n (some c) other = rw other refl

pub changed_at-own :
    (a b : Dict SchemaNode) (p q : String) → (p == q) ≡ false → changes_at p (changed_at a b q) ≡ []
unfolding changed_at
changed_at-own a b p q other = ground (arith, change_entry-own p q)

-- A path's entries, given its nodes.
pub removed_at-changes :
    (p : String) (d : Dict SchemaNode) (o : SchemaNode)
    → get p d ≡ some o
    → changes_at p (removed_at d p) ≡ expected (some o) none
unfolding removed_at
removed_at-changes p d o h = rw (h, removed_at) (ground arith)

pub added_at-changes :
    (p : String) (d : Dict SchemaNode) (n : SchemaNode)
    → get p d ≡ some n
    → changes_at p (added_at d p) ≡ expected none (some n)
unfolding added_at
added_at-changes p d n h = rw (h, added_at) (ground arith)

change_entry-changes :
    (p : String) (o n : SchemaNode) (c : Option ChangeType)
    → changes_at p (change_entry p o n c) ≡ option_list c
unfolding change_entry
change_entry-changes p o n none = refl
change_entry-changes p o n (some c) = ground arith

pub changed_at-changes :
    (p : String) (a b : Dict SchemaNode) (o n : SchemaNode)
    → get p a ≡ some o
    → get p b ≡ some n
    → changes_at p (changed_at a b p) ≡ expected (some o) (some n)
unfolding changed_at
changed_at-changes p a b o n h g =
    rw (h, g, changed_at) (change_entry-changes p o n (pick_change_type o n))

pub contains-only_in :
    (p : String) (a b : Dict SchemaNode)
    → contains (only_in a b) p ≡ (contains (keys a) p && not (contains (keys b) p))
unfolding only_in
contains-only_in p a b =
    contains-sorted_set p (filter (λ q. not (contains (keys b) q)) (keys a))
    ∙ contains-filter p (λ q. not (contains (keys b) q)) (keys a)

pub contains-in_both :
    (p : String) (a b : Dict SchemaNode)
    → contains (in_both a b) p ≡ (contains (keys a) p && contains (keys b) p)
unfolding in_both
contains-in_both p a b =
    contains-sorted_set p (filter (λ q. contains (keys b) q) (keys a))
    ∙ contains-filter p (λ q. contains (keys b) q) (keys a)

pub only_in-IsIncreasing : (a b : Dict SchemaNode) → IsIncreasing (only_in a b)
unfolding only_in
only_in-IsIncreasing a b =
    sorted_set-IsIncreasing (filter (λ q. not (contains (keys b) q)) (keys a))

pub in_both-IsIncreasing : (a b : Dict SchemaNode) → IsIncreasing (in_both a b)
unfolding in_both
in_both-IsIncreasing a b = sorted_set-IsIncreasing (filter (λ q. contains (keys b) q) (keys a))
