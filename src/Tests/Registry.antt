-- ===== src/Tests/Registry.antt =====
-- Registrations in a small registry.
use schema_pilot_api_contrac.Base.{
  String, ◌≡◌, refl, true, false, none, some, [], ◌∷◌, nat_eq, string_eq, inl, inr, Bool-cases,
  ◌==◌,
}
use schema_pilot_api_contrac.Base.Result.{ok}
use schema_pilot_api_contrac.Schema.{Schema, literal, dict, no_entries, entry}
use schema_pilot_api_contrac.Runtime.Database.{
  Database, Endpoint, SchemaVersionRecord, empty_database,
}
use schema_pilot_api_contrac.Runtime.Registry.{
  EndpointKey, insert_endpoint, ensure_endpoint, latest, get_current_schema, find_fingerprint,
  retire_all, insert_version, register_version, upsert_schema_version,
}
use schema_pilot_api_contrac.Runtime.Registry.Upsert.{HasLineages}
use schema_pilot_api_contrac.Runtime.Registry.Registration.{
  Registers, upsert_schema_version-Registers, upsert_schema_version_again,
}

abbrev orders_key : EndpointKey
orders_key = record {
  namespace = "default";
  service_name = "shop";
  http_method = "POST";
  route_path = "/orders";
}

abbrev schema : String → Schema
schema t = dict (entry "total" (dict (entry "type" (literal t) no_entries)) no_entries)

abbrev orders : Endpoint
orders = record {
  id = 0;
  namespace = "default";
  service_name = "shop";
  http_method = "POST";
  route_path = "/orders";
  endpoint_name = "shop POST /orders";
}

abbrev first_row : SchemaVersionRecord
first_row = record {
  id = 1;
  endpoint_id = 0;
  version = 1;
  fingerprint = "f1";
  canonical_schema = schema "integer";
  compatibility_classification = "SAFE";
  previous_version_id = none;
  is_current = true;
}

abbrev second_row : SchemaVersionRecord
second_row = record {
  id = 2;
  endpoint_id = 0;
  version = 2;
  fingerprint = "f2";
  canonical_schema = schema "number";
  compatibility_classification = "RISKY";
  previous_version_id = some 1;
  is_current = true;
}

abbrev one_version : Database
one_version = record empty_database {
  next_id = 2;
  endpoints = orders ∷ [];
  versions = first_row ∷ [];
}

abbrev two_versions : Database
two_versions = record empty_database {
  next_id = 3;
  endpoints = orders ∷ [];
  versions = second_row ∷ record first_row { is_current = false } ∷ [];
}

first_registration :
    upsert_schema_version orders_key "f1" (schema "integer") "SAFE" empty_database
    ≡ ok ((orders, first_row, true), one_version)
unfolding upsert_schema_version ensure_endpoint insert_endpoint register_version get_current_schema
    latest find_fingerprint retire_all insert_version string_eq nat_eq
first_registration = refl

second_registration :
    upsert_schema_version orders_key "f2" (schema "number") "RISKY" one_version
    ≡ ok ((orders, second_row, true), two_versions)
unfolding upsert_schema_version ensure_endpoint insert_endpoint register_version get_current_schema
    latest find_fingerprint retire_all insert_version string_eq nat_eq
second_registration = refl

one_version-HasLineages : HasLineages one_version
one_version-HasLineages e = elim (Bool-cases (0 == e)) [
  | inl same ↦
      rw same (record { chain = (refl, refl, tt); current = (refl, tt); distinct = (tt, tt) })
  | inr other ↦ rw other (record { chain = tt; current = tt; distinct = tt })
]

upsert_schema_version-Registers_example :
    Registers orders_key "f2" one_version
      (upsert_schema_version orders_key "f2" (schema "number") "RISKY" one_version)
upsert_schema_version-Registers_example =
    upsert_schema_version-Registers orders_key "f2" (schema "number") "RISKY" one_version
      one_version-HasLineages

upsert_schema_version_again_example :
    upsert_schema_version orders_key "f2" (schema "array") "SAFE" two_versions
    ≡ ok ((orders, second_row, false), two_versions)
upsert_schema_version_again_example =
    upsert_schema_version_again orders_key "f2" (schema "number") (schema "array") "RISKY" "SAFE"
      one_version two_versions orders second_row true one_version-HasLineages second_registration
