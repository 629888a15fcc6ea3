-- ===== src/Runtime/Classifier/Returns.antt =====
-- When the diff of two schemas returns: `set` on an enumeration is the one call that may raise.
use schema_pilot_api_contrac.Base.{
  ◌≡◌, refl, String, Bool, true, false, Option, none, some, List, [], ◌∷◌, ◌&&◌, ◌++◌, arith,
}
use schema_pilot_api_contrac.Base.Dict
use schema_pilot_api_contrac.Base.Dict.{Dict}
use schema_pilot_api_contrac.Base.Result.{Result, ok, raised, ◌>>=◌}
use schema_pilot_api_contrac.Base.TextOrder.{sorted_set}
use schema_pilot_api_contrac.Schema.{Schema, SchemaItems, list, dict, no_items, item, get_entry}
use schema_pilot_api_contrac.Runtime.Classifier.{
  flatten, hashable, set_of, classify_sets, classify_enums, classify_entries, classify_both,
  classify, diff_paths, diff_and_classify,
}

abbrev pub Returns {ℓ} : {A : Type ℓ} → Result A → Type ℓ
Returns {A} r = (a : A) × (r ≡ ok a)

abbrev pub all_hashable : SchemaItems → Bool
all_hashable no_items = true
all_hashable (item x xs) = hashable x && all_hashable xs

-- A value that is no dict, that has no enumeration, or whose enumeration holds texts and booleans only.
abbrev enum_hashable : Option Schema → Bool
enum_hashable (some (list xs)) = all_hashable xs
enum_hashable _ = true

abbrev pub has_hashable_enum : Schema → Bool
has_hashable_enum (dict fs) = enum_hashable (get_entry "enum" fs)
has_hashable_enum _ = true

is_ok {ℓ} : {A : Type ℓ} → Result A → Bool
is_ok (ok a) = true
is_ok (raised e) = false

is_ok-Returns {ℓ} : {A : Type ℓ} (r : Result A) → is_ok r ≡ true → Returns r
unfolding is_ok
is_ok-Returns (ok a) h = (a, refl)
is_ok-Returns (raised e) h = cc

is_ok->>= {ℓ κ} :
    {A : Type ℓ} {B : Type κ} (r : Result A) (f : A → Result B)
    → is_ok r ≡ true
    → ((a : A) → is_ok (f a) ≡ true)
    → is_ok (r >>= f) ≡ true
unfolding is_ok
is_ok->>= (ok a) f h g = g a
is_ok->>= (raised e) f h g = cc

is_ok-set_of : (xs : SchemaItems) → all_hashable xs ≡ true → is_ok (set_of xs) ≡ true
unfolding is_ok set_of
is_ok-set_of no_items h = refl
is_ok-set_of (item x xs) h = ground (arith, is_ok-set_of xs)

is_ok-classify_sets : (a b : List Schema) → is_ok (classify_sets a b) ≡ true
unfolding is_ok classify_sets
is_ok-classify_sets a b = ground arith

is_ok-classify_enums :
    (a b : Option Schema)
    → enum_hashable a ≡ true
    → enum_hashable b ≡ true
    → is_ok (classify_enums a b) ≡ true
unfolding is_ok classify_enums
is_ok-classify_enums (some (list xs)) (some (list ys)) h k =
    is_ok->>= (set_of xs) _ (is_ok-set_of xs h)
      λ s. is_ok->>= (set_of ys) _ (is_ok-set_of ys k) λ t. is_ok-classify_sets s t
is_ok-classify_enums _ _ h k = refl

is_ok-classify_entries :
    (a b : Schema)
    → has_hashable_enum a ≡ true
    → has_hashable_enum b ≡ true
    → is_ok (classify_entries a b) ≡ true
unfolding is_ok classify_entries
is_ok-classify_entries (dict fs) (dict gs) h k =
    is_ok-classify_enums (get_entry "enum" fs) (get_entry "enum" gs) h k
is_ok-classify_entries _ _ h k = refl

is_ok-classify_both :
    (a b : Schema)
    → has_hashable_enum a ≡ true
    → has_hashable_enum b ≡ true
    → is_ok (classify_both a b) ≡ true
unfolding is_ok classify_both
is_ok-classify_both a b h k = ground (arith, is_ok-classify_entries a b h k)

-- What a flattened schema holds at each path can be classified.
abbrev pub IsClassifiable : Dict Schema → Type 0
IsClassifiable flat =
    (p : String) (v : Schema) → Dict.get p flat ≡ some v → has_hashable_enum v ≡ true

is_ok-classify :
    (o n : Option Schema)
    → ((v : Schema) → o ≡ some v → has_hashable_enum v ≡ true)
    → ((v : Schema) → n ≡ some v → has_hashable_enum v ≡ true)
    → is_ok (classify o n) ≡ true
unfolding is_ok classify
is_ok-classify none none h k = refl
is_ok-classify none (some b) h k = ground arith
is_ok-classify (some a) none h k = ground arith
is_ok-classify (some a) (some b) h k = is_ok-classify_both a b (h a refl) (k b refl)

module _ (old new : Dict Schema) (old_fits : IsClassifiable old)
    (new_fits : IsClassifiable new) where
  is_ok-diff_paths : (ps : List String) → is_ok (diff_paths ps old new) ≡ true
  unfolding is_ok diff_paths
  is_ok-diff_paths [] = refl
  is_ok-diff_paths (p ∷ ps) = ground (
    arith,
    is_ok-diff_paths ps,
    is_ok-classify (Dict.get p old) (Dict.get p new) (old_fits p) (new_fits p),
  )

-- The diff of two schemas returns when no enumeration in them holds a list or a dict.
pub diff_and_classify-Returns :
    (old new : Schema)
    → IsClassifiable (flatten old "")
    → IsClassifiable (flatten new "")
    → Returns (diff_and_classify old new)
unfolding diff_and_classify
diff_and_classify-Returns old new h k =
    let a = flatten old "" in
    let b = flatten new "" in
    is_ok-Returns _ (is_ok-diff_paths a b h k (sorted_set (Dict.keys a ++ Dict.keys b)))
