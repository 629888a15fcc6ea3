-- ===== src/Json.antt =====
-- Payloads: the values that `json.loads` gives, and that the runtime guard, the legacy engine and the
-- monitor branch on with `isinstance`.
use schema_pilot_api_contrac.Base.{
  ◌≡◌, ℕ, String, Bool, Option, none, some, ◌==◌, nat_eq, string_eq, if◌then◌else◌,
}

-- `negsuc n` is -(n + 1).
pub data ℤ : Type 0 where
  pos : ℕ → ℤ
  negsuc : ℕ → ℤ

-- A float is the bit pattern of its IEEE 754 double: the program asks only whether a value is one.
mutual
  pub data Json : Type 0 where
    null : Json
    boolean : Bool → Json
    integer : ℤ → Json
    float : ℕ → Json
    text : String → Json
    array : Items → Json
    object : Fields → Json

  pub data Items : Type 0 where
    nil : Items
    cons : Json → Items → Items

  -- The items of a dict, in its order.
  pub data Fields : Type 0 where
    end : Fields
    field : String → Json → Fields → Fields

-- `d.get(k)`
unfoldable pub get_field : String → Fields → Option Json
get_field k end = none
get_field k (field j v fs) = if k == j then some v else get_field k fs

-- No key stands twice, as in every real dict.
abbrev pub NodupFields : Fields → Type 0
NodupFields end = Unit
NodupFields (field k v fs) = (get_field k fs ≡ none) × NodupFields fs
