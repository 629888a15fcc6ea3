-- ===== src/Monitor/Normalizer.antt =====
-- backend/app/core/normalizer.py: the form of a payload that is stored and that its schema is inferred from.
pub mod Reordered
use Prim.Native.Nat.{Ordering}
use Prim.Native.String.{compare}
use schema_pilot_api_contrac.Base.{
  ℕ, String, Option, none, some, ltb, ◌==◌, nat_eq, if◌then◌else◌, true,
}
use schema_pilot_api_contrac.Json.{
  Json, pos, Items, Fields, null, boolean, integer, float, text, array, object, nil, cons, end,
  field,
}

-- `settings.raw_body_max_bytes`
abbrev pub raw_body_max_bytes : ℕ
raw_body_max_bytes = 262144

-- One more item of `sorted(obj.items())`. Of two items with one key, which no dict has, the later would win.
unfoldable pub insert_field : String → Json → Fields → Fields
insert_field k v end = field k v end
insert_field k v (field j w fs) =
    let rest = insert_field k v fs in
    elim (compare k j) [
      | Ordering.lt ↦ field k v (field j w fs)
      | Ordering.eq ↦ field j w fs
      | Ordering.gt ↦ field j w rest
    ]

-- `_sort_keys`
unfoldable mutual
  unfolding insert_field

  pub sort_keys : Json → Json
  sort_keys (object fs) = object (sort_fields fs)
  sort_keys (array xs) = array (sort_items xs)
  sort_keys null = null
  sort_keys (boolean b) = boolean b
  sort_keys (integer n) = integer n
  sort_keys (float x) = float x
  sort_keys (text s) = text s

  pub sort_items : Items → Items
  sort_items nil = nil
  sort_items (cons x xs) = cons (sort_keys x) (sort_items xs)

  pub sort_fields : Fields → Fields
  sort_fields end = end
  sort_fields (field k v fs) = insert_field k (sort_keys v) (sort_fields fs)

-- `max_bytes or settings.raw_body_max_bytes`
abbrev pub cap_of : Option ℕ → ℕ
cap_of none = raw_body_max_bytes
cap_of (some n) = if n == 0 then raw_body_max_bytes else n

-- What `json` does with a sorted body, given the body: `encoded_size` is the number of bytes of its compact
-- text, and `reparse cap` what `json.loads` reads from the first `cap` of them, none where it raises
-- JSONDecodeError. The text of a float is the interpreter's.
module _ (encoded_size : Json → ℕ) (reparse : ℕ → Json → Option Json) where
  unfoldable pub cap_body : ℕ → Json → Json
  cap_body cap sorted_body =
      if ltb cap (encoded_size sorted_body)
      then elim (reparse cap sorted_body) [
        | some partial ↦ partial
        | none ↦ object (
            field "_truncated" (boolean true)
              (field "_size_bytes" (integer (pos (encoded_size sorted_body))) end))
      ]
      else sorted_body

  unfoldable pub normalize : Json → Option ℕ → Json
  unfolding sort_keys cap_body
  normalize body max_bytes = cap_body (cap_of max_bytes) (sort_keys body)
