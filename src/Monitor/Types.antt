-- ===== src/Monitor/Types.antt =====
-- backend/app/core/schema_infer.py: the types of JSON values, the nodes of an inferred schema, and the
-- accumulator that inference keeps for each path.
use mathlib.Core.Logic.{dite}
use native.Mathlib.Decide.{ℕ_discrete}
use schema_pilot_api_contrac.Base.{
  ℕ, zero, suc, ◌≡◌, refl, sym, ap, ◌∙◌, String, Bool, true, false, Option, none, List, [], Eq,
}
use schema_pilot_api_contrac.Json.{Json}

-- `JsonType`
pub data JsonType : Type 0 where
  object array string integer number boolean null mixed unknown : JsonType

type_number : JsonType → ℕ
type_number JsonType.object = 0
type_number JsonType.array = 1
type_number JsonType.string = 2
type_number JsonType.integer = 3
type_number JsonType.number = 4
type_number JsonType.boolean = 5
type_number JsonType.null = 6
type_number JsonType.mixed = 7
type_number JsonType.unknown = 8

numbered : ℕ → JsonType
numbered zero = JsonType.object
numbered (suc zero) = JsonType.array
numbered (suc (suc zero)) = JsonType.string
numbered (suc (suc (suc zero))) = JsonType.integer
numbered (suc (suc (suc (suc zero)))) = JsonType.number
numbered (suc (suc (suc (suc (suc zero))))) = JsonType.boolean
numbered (suc (suc (suc (suc (suc (suc zero)))))) = JsonType.null
numbered (suc (suc (suc (suc (suc (suc (suc zero))))))) = JsonType.mixed
numbered (suc (suc (suc (suc (suc (suc (suc (suc n)))))))) = JsonType.unknown

numbered-type_number : (t : JsonType) → numbered (type_number t) ≡ t
unfolding numbered type_number
numbered-type_number JsonType.object = refl
numbered-type_number JsonType.array = refl
numbered-type_number JsonType.string = refl
numbered-type_number JsonType.integer = refl
numbered-type_number JsonType.number = refl
numbered-type_number JsonType.boolean = refl
numbered-type_number JsonType.null = refl
numbered-type_number JsonType.mixed = refl
numbered-type_number JsonType.unknown = refl

-- Types are compared by their numbers.
instance unfoldable pub json_type_eq : Eq JsonType
unfolding type_number numbered numbered-type_number
json_type_eq = record {
  dec = λ s t.
      dite (ℕ_discrete (type_number s) (type_number t))
        (λ p. yes (sym (numbered-type_number s) ∙ ap numbered p ∙ numbered-type_number t))
        (λ n. no (λ p. n (ap type_number p)));
}

-- the text of the literal
unfoldable pub type_name : JsonType → String
type_name JsonType.object = "object"
type_name JsonType.array = "array"
type_name JsonType.string = "string"
type_name JsonType.integer = "integer"
type_name JsonType.number = "number"
type_name JsonType.boolean = "boolean"
type_name JsonType.null = "null"
type_name JsonType.mixed = "mixed"
type_name JsonType.unknown = "unknown"

-- `SchemaNode`. Only names of types are ever stored as the item type, and only texts as enum values.
pub record SchemaNode : Type 0 where
  pub path : String
  pub type : JsonType
  pub required : Bool
  pub nullable : Bool
  pub array_item_type : Option JsonType
  pub enum_values : Option (List String)
  pub example_value : Option Json

-- `_NodeState`; the set of enum values is a list without repetitions.
pub record NodeState : Type 0 where
  pub path : String
  pub type : JsonType
  pub required : Bool
  pub nullable : Bool
  pub array_item_type : Option JsonType
  pub example_value : Option Json
  pub enum_values : List String
  pub enum_disabled : Bool
  pub is_string_leaf : Bool

-- `_NodeState(path=path, type=type_)`
abbrev pub new_state : String → JsonType → NodeState
new_state path type = record {
  path = path;
  type = type;
  required = true;
  nullable = false;
  array_item_type = none;
  example_value = none;
  enum_values = [];
  enum_disabled = false;
  is_string_leaf = false;
}
