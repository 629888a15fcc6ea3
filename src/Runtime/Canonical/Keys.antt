-- ===== src/Runtime/Canonical/Keys.antt =====
-- The canonical schema of a dict has the canonical schema of each of its values, under the same key.
use mathlib.Core.Option
use schema_pilot_api_contrac.Base.{
  ◌≡◌, refl, String, none, some, arith, ◌==◌, string_eq, if◌then◌else◌,
}
use schema_pilot_api_contrac.Base.TextOrder.{trichotomy, before, same, after}
use schema_pilot_api_contrac.Json.{Fields, end, field, get_field, NodupFields}
use schema_pilot_api_contrac.Schema.{
  Schema, SchemaFields, no_entries, entry, get_entry, insert_entry,
}
use schema_pilot_api_contrac.Runtime.Canonical.{canonicalize, canonicalize_fields}

pub get_entry-insert_entry :
    (j k : String) (v : Schema) (fs : SchemaFields)
    → get_entry k fs ≡ none
    → get_entry j (insert_entry k v fs) ≡ (if j == k then some v else get_entry j fs)
unfolding get_entry insert_entry
get_entry-insert_entry j k v no_entries fresh = refl
get_entry-insert_entry j k v (entry x w fs) fresh = elim (trichotomy k x) [
  | before p q ↦ rw (p, get_entry)
  | same e p ↦ ground arith
  | after p q ↦ rw (q, get_entry) (ground (arith, get_entry-insert_entry j k v fs))
]

pub get_entry-canonicalize :
    (k : String) (fs : Fields)
    → NodupFields fs
    → get_entry k (canonicalize_fields fs) ≡ Option.map canonicalize (get_field k fs)
unfolding canonicalize get_field get_entry
get_entry-canonicalize k end u = refl
get_entry-canonicalize k (field j v fs) (fresh, u) = ground (
  arith,
  get_entry-insert_entry k j (canonicalize v) (canonicalize_fields fs),
  get_entry-canonicalize j fs u,
  get_entry-canonicalize k fs u,
)
