-- ===== src/Monitor/Infer/Sorted.antt =====
-- What holds of the schema that is inferred from a payload, whatever the payload.
use schema_pilot_api_contrac.Base.{
  suc, ◌≤◌, String, ◌≡◌, refl, ap, ap₂, ◌∙◌, ◌≢◌, ◌⊎◌, inl, inr, Bool, true, false, not, ◌&&◌, ◌||◌,
  Bool-cases, Option, none, some, List, [], ◌∷◌, map, arith, ◌==◌, nat_eq, string_eq, contains,
}
use schema_pilot_api_contrac.Base.Sequence.{length, All}
use schema_pilot_api_contrac.Base.Dict.{NodupKeys, Entries, keys, contains-keys}
use schema_pilot_api_contrac.Base.TextOrder.{
  IsIncreasing, FirstBefore, Before, trichotomy, before, same, after, sorted_set,
  sorted_set-IsIncreasing, insert_sorted,
}
use schema_pilot_api_contrac.Json.{Json}
use schema_pilot_api_contrac.Monitor.Types.{JsonType, NodeState, SchemaNode}
use schema_pilot_api_contrac.Monitor.States.{enum_threshold, States}
use schema_pilot_api_contrac.Monitor.Infer.{
  finalize, finalize_all, insert_node, sort_nodes, infer_schema, walk,
}
use schema_pilot_api_contrac.Monitor.Infer.Nodes.{Sound, ShortExample}
use schema_pilot_api_contrac.Monitor.Infer.Steps.{walk-IsSound}

abbrev pub paths : List SchemaNode → List String
paths nodes = map (λ n. n.path) nodes

contains-insert_node :
    (q : String) (n : SchemaNode) (nodes : List SchemaNode)
    → contains (paths (insert_node n nodes)) q ≡ ((q == n.path) || contains (paths nodes) q)
unfolding insert_node
contains-insert_node q n [] = refl
contains-insert_node q n (m ∷ nodes) = ground (arith, contains-insert_node q n nodes)

contains-sort_nodes :
    (q : String) (nodes : List SchemaNode)
    → contains (paths (sort_nodes nodes)) q ≡ contains (paths nodes) q
unfolding sort_nodes
contains-sort_nodes q [] = refl
contains-sort_nodes q (n ∷ nodes) =
    contains-insert_node q n (sort_nodes nodes)
    ∙ ap (λ b. (q == n.path) || b) (contains-sort_nodes q nodes)

FirstBefore-insert_node :
    (y : String) (n : SchemaNode) (nodes : List SchemaNode)
    → Before y n.path
    → FirstBefore y (paths nodes)
    → FirstBefore y (paths (insert_node n nodes))
unfolding insert_node
FirstBefore-insert_node y n [] h f = h
FirstBefore-insert_node y n (m ∷ nodes) h f = elim (trichotomy n.path m.path) [
  | before p q ↦ rw (p, FirstBefore) h
  | same e p ↦ rw (p, FirstBefore) h
  | after p q ↦ rw (q, FirstBefore) f
]

insert_node-IsIncreasing :
    (n : SchemaNode) (nodes : List SchemaNode)
    → contains (paths nodes) n.path ≡ false
    → IsIncreasing (paths nodes)
    → IsIncreasing (paths (insert_node n nodes))
unfolding insert_node
insert_node-IsIncreasing n [] new s = (tt, tt)
insert_node-IsIncreasing n (m ∷ nodes) new s = elim (trichotomy n.path m.path) [
  | before p q ↦ rw (p, IsIncreasing) (p, s)
  | same e p ↦ absurd (ground arith)
  | after p q ↦
      rw (q, IsIncreasing)
        (
          FirstBefore-insert_node m.path n nodes p s.0,
          insert_node-IsIncreasing n nodes (ground arith) s.1,
        )
]

-- The nodes of sound states, one for each key.
finalize_all-keys :
    (states : States) → Entries Sound states → paths (finalize_all states) ≡ keys states
unfolding finalize_all finalize
finalize_all-keys [] h = refl
finalize_all-keys ((k, s) ∷ states) (sound, h) =
    ap₂ (λ p ps. p ∷ ps) (sound.0) (finalize_all-keys states h)

sort_nodes-IsIncreasing :
    (states : States)
    → NodupKeys states
    → Entries Sound states
    → IsIncreasing (paths (sort_nodes (finalize_all states)))
unfolding finalize_all sort_nodes
sort_nodes-IsIncreasing [] u h = tt
sort_nodes-IsIncreasing ((k, s) ∷ states) (fresh, u) (sound, h) =
    let fresh_path : contains (paths (sort_nodes (finalize_all states))) s.path ≡ false =
      contains-sort_nodes s.path (finalize_all states)
      ∙ ap (λ ps. contains ps s.path) (finalize_all-keys states h)
      ∙ ap (contains (keys states)) sound.0
      ∙ contains-keys k states fresh in
    insert_node-IsIncreasing (finalize s) (sort_nodes (finalize_all states)) (fresh_path)
      (sort_nodes-IsIncreasing states u h)

-- The paths of an inferred schema are strictly increasing: sorted, and no path twice.
pub infer_schema-IsIncreasing : (body : Json) → IsIncreasing (paths (infer_schema body))
unfolding infer_schema
infer_schema-IsIncreasing body =
    let h = walk-IsSound body in sort_nodes-IsIncreasing (walk body "" []) h.0 h.1

length-insert_sorted :
    (x : String) (xs : List String)
    → (length (insert_sorted x xs) ≤ suc (length xs)) × (1 ≤ length (insert_sorted x xs))
unfolding insert_sorted
length-insert_sorted x [] = (omega arith, omega arith)
length-insert_sorted x (y ∷ ys) = ground (arith, length-insert_sorted x ys)

length-sorted_set : (xs : List String) → length (sorted_set xs) ≤ length xs
unfolding sorted_set
length-sorted_set [] = omega arith
length-sorted_set (x ∷ xs) =
    let h = length-insert_sorted x (sorted_set xs) in omega (arith, h.0, length-sorted_set xs)

sorted_set_nonempty : (xs : List String) → (length xs == 0) ≡ false → 1 ≤ length (sorted_set xs)
unfolding sorted_set
sorted_set_nonempty [] h = absurd (ground arith)
sorted_set_nonempty (x ∷ xs) h = (length-insert_sorted x (sorted_set xs)).1

-- Enum values are a set of at most ten texts, and the type of their path says that texts were seen.
abbrev pub EnumOk : Option (List String) → JsonType → Type 0
EnumOk none type = Unit
EnumOk (some values) type =
    IsIncreasing values
    × (1 ≤ length values)
    × (length values ≤ enum_threshold)
    × ((type ≡ JsonType.string) ⊎ (type ≡ JsonType.mixed))

-- A node is consistent: its enum values, a null type only where null was seen, and a short example.
abbrev pub NodeOk : SchemaNode → Type 0
NodeOk node =
    EnumOk node.enum_values node.type
    × ((node.type ≢ JsonType.null) ⊎ (node.nullable ≡ true))
    × ShortExample node.example_value

abbrev lists_enum : NodeState → Bool
lists_enum s = s.is_string_leaf && not s.enum_disabled && not (length s.enum_values == 0)

finalize-NodeOk : (k : String) (s : NodeState) → Sound k s → NodeOk (finalize s)
unfolding finalize
finalize-NodeOk k s h = elim (Bool-cases (lists_enum s)) [
  | inl listed ↦
      rw (listed, EnumOk)
        (
          (
            sorted_set-IsIncreasing s.enum_values,
            sorted_set_nonempty s.enum_values (ground (arith, listed)),
            omega (arith, length-sorted_set s.enum_values, h.3),
            elim h.2 [ inl no_leaf ↦ absurd (ground (arith, listed)) | inr t ↦ t ],
          ),
          h.1,
          h.4,
        )
  | inr unlisted ↦ rw (unlisted, EnumOk) (tt, h.1, h.4)
]

All-insert_node :
    (n : SchemaNode) (nodes : List SchemaNode)
    → NodeOk n
    → All NodeOk nodes
    → All NodeOk (insert_node n nodes)
unfolding insert_node
All-insert_node n [] ok rest = (ok, tt)
All-insert_node n (m ∷ nodes) ok rest = elim (trichotomy n.path m.path) [
  | before p q ↦ rw (p, All) (ok, rest)
  | same e p ↦ rw (p, All) (ok, rest)
  | after p q ↦ rw (q, All) (rest.0, All-insert_node n nodes ok rest.1)
]

sort_nodes-NodeOk :
    (states : States) → Entries Sound states → All NodeOk (sort_nodes (finalize_all states))
unfolding finalize_all sort_nodes
sort_nodes-NodeOk [] h = tt
sort_nodes-NodeOk ((k, s) ∷ states) (sound, h) =
    All-insert_node (finalize s) (sort_nodes (finalize_all states)) (finalize-NodeOk k s sound)
      (sort_nodes-NodeOk states h)

-- Every node of an inferred schema is consistent: its enum values, where it has any, are at most
-- enum_threshold different texts in order, at a path where texts were seen; a path of type null is nullable;
-- and an example text has at most example_max_len characters.
pub infer_schema-NodeOk : (body : Json) → All NodeOk (infer_schema body)
unfolding infer_schema
infer_schema-NodeOk body = sort_nodes-NodeOk (walk body "" []) (walk-IsSound body).1
