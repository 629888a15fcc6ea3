-- ===== src/Monitor/Infer/Nodes.antt =====
-- What holds of every node that is inferred, whatever the payload.
use schema_pilot_api_contrac.Base.{
  ℕ, zero, suc, ◌≤◌, String, ◌≡◌, refl, ◌≢◌, ◌⊎◌, inl, inr, Bool, true, false, Bool-cases, Option,
  some, arith, ltb, Option-cases,
}
use schema_pilot_api_contrac.Base.Sequence.{length}
use schema_pilot_api_contrac.Json.{Json, null, boolean, integer, float, text, array, object}
use schema_pilot_api_contrac.Monitor.Types.{JsonType, json_type_eq, NodeState}
use schema_pilot_api_contrac.Monitor.States.{
  enum_threshold, example_max_len, count_chars, take_chars, truncate_example, note_type,
  note_example, note_text, note_scalar, scalar_type, add_value,
}

-- An example is no longer than 200 characters.
abbrev pub ShortExample : Option Json → Type 0
ShortExample (some (text s)) = count_chars s ≤ example_max_len
ShortExample _ = Unit

-- Texts were seen at the path only if its type says so.
abbrev LeafType : Bool → JsonType → Type 0
LeafType leaf type = (leaf ≡ false) ⊎ ((type ≡ JsonType.string) ⊎ (type ≡ JsonType.mixed))

abbrev NullType : JsonType → Bool → Type 0
NullType type nullable = (type ≢ JsonType.null) ⊎ (nullable ≡ true)

abbrev pub Sound : String → NodeState → Type 0
Sound k s =
    (s.path ≡ k)
    × NullType s.type s.nullable
    × LeafType s.is_string_leaf s.type
    × (length s.enum_values ≤ enum_threshold)
    × ShortExample s.example_value

count_chars-take_chars : (n : ℕ) (s : String) → count_chars (take_chars n s) ≤ n
unfolding count_chars take_chars
count_chars-take_chars zero s = omega arith
count_chars-take_chars (suc n) String.[] = omega arith
count_chars-take_chars (suc n) (String.◌∷◌ c s) = omega (arith, count_chars-take_chars n s)

note_type-Sound :
    (t : JsonType)
    → t ≢ JsonType.null
    → (k : String) (s : NodeState) → Sound k s
    → Sound k (note_type t s)
unfolding note_type
note_type-Sound t ne k s h = ground arith

note_type-string :
    (s : NodeState)
    → ((note_type JsonType.string s).type ≡ JsonType.string)
      ⊎ ((note_type JsonType.string s).type ≡ JsonType.mixed)
unfolding note_type
note_type-string s = ground arith

truncate_example-ShortExample : (v : Json) → ShortExample (some (truncate_example v))
unfolding truncate_example
truncate_example-ShortExample (text s) = ground (arith, count_chars-take_chars 200 s)
truncate_example-ShortExample null = tt
truncate_example-ShortExample (boolean b) = tt
truncate_example-ShortExample (integer b) = tt
truncate_example-ShortExample (float b) = tt
truncate_example-ShortExample (array b) = tt
truncate_example-ShortExample (object b) = tt

note_example-Sound :
    (v : Json) (k : String) (s : NodeState) → Sound k s → Sound k (note_example v s)
unfolding note_example
note_example-Sound v k s h = elim (Option-cases s.example_value) [
  | inl no_example ↦ rw no_example (h.0, h.1, h.2, h.3, truncate_example-ShortExample v)
  | inr (w, example) ↦
      let e : ShortExample (some w) = rw example at h.4 in rw example (h.0, h.1, h.2, h.3, e)
]

note_example-type :
    (v : Json) (s : NodeState)
    → ((note_example v (note_type JsonType.string s)).type ≡ JsonType.string)
      ⊎ ((note_example v (note_type JsonType.string s)).type ≡ JsonType.mixed)
unfolding note_example
note_example-type v s = ground (arith, note_type-string s)

note_text-Sound :
    (v : String) (k : String) (s : NodeState)
    → Sound k s
    → (s.type ≡ JsonType.string) ⊎ (s.type ≡ JsonType.mixed)
    → Sound k (note_text v s)
unfolding note_text
note_text-Sound v k s h t = elim (Bool-cases s.enum_disabled) [
  | inl off ↦ rw off (h.0, h.1, inr t, h.3, h.4)
  | inr on ↦ elim (Bool-cases (ltb 10 (length (add_value v s.enum_values)))) [
    | inl many ↦ rw (on, many) (h.0, h.1, inr t, omega arith, h.4)
    | inr few ↦ rw (on, few) (h.0, h.1, inr t, ground arith, h.4)
  ]
]

pub note_scalar-Sound :
    (v : Json)
    → scalar_type v ≢ JsonType.null
    → (k : String) (s : NodeState) → Sound k s
    → Sound k (note_scalar v s)
unfolding note_scalar
note_scalar-Sound (text t) ne k s h =
    note_text-Sound t k (note_example (text t) (note_type JsonType.string s))
      (note_example-Sound (text t) k (note_type JsonType.string s)
        (note_type-Sound JsonType.string ne k s h))
      (note_example-type (text t) s)
note_scalar-Sound null ne k s h = absurd (ne refl)
note_scalar-Sound (boolean b) ne k s h =
    note_example-Sound (boolean b) k (note_type JsonType.boolean s)
      (note_type-Sound JsonType.boolean ne k s h)
note_scalar-Sound (integer n) ne k s h =
    note_example-Sound (integer n) k (note_type JsonType.integer s)
      (note_type-Sound JsonType.integer ne k s h)
note_scalar-Sound (float x) ne k s h =
    note_example-Sound (float x) k (note_type JsonType.number s)
      (note_type-Sound JsonType.number ne k s h)
note_scalar-Sound (array xs) ne k s h =
    note_example-Sound (array xs) k (note_type JsonType.unknown s)
      (note_type-Sound JsonType.unknown ne k s h)
note_scalar-Sound (object fs) ne k s h =
    note_example-Sound (object fs) k (note_type JsonType.unknown s)
      (note_type-Sound JsonType.unknown ne k s h)
