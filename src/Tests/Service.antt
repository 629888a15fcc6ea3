-- ===== src/Tests/Service.antt =====
-- Payloads of an endpoint with one version and one consumer.
use schema_pilot_api_contrac.Base.{
  option_eq, bool_eq, ℕ, ◌≡◌, ◌==◌, Bool, refl, String, true, false, none, some, [], ◌∷◌, nat_eq,
  string_eq,
}
use schema_pilot_api_contrac.Base.Result.{ok}
use schema_pilot_api_contrac.Json.{Fields, pos, integer, object, end, field}
use schema_pilot_api_contrac.Schema.{Schema}
use schema_pilot_api_contrac.Runtime.Canonical.{canonicalize}
use schema_pilot_api_contrac.Runtime.Canonical.Shape.{SameShape, objects, fields, ends, integers}
use schema_pilot_api_contrac.Runtime.Database.{
  Database, Endpoint, SchemaVersionRecord, Subscription, EventPayload, empty_database,
}
use schema_pilot_api_contrac.Runtime.Registry.{EndpointKey, find_endpoint, find_fingerprint}
use schema_pilot_api_contrac.Runtime.Webhook.{Reply, response}
use schema_pilot_api_contrac.Runtime.Service.{unchanged, track_contract}
use schema_pilot_api_contrac.Runtime.Service.Known.{track_contract-SameShape}

abbrev trips_key : EndpointKey
trips_key = record {
  namespace = "default";
  service_name = "trips";
  http_method = "PUT";
  route_path = "/trips";
}

abbrev trips : Endpoint
trips = record {
  id = 0;
  namespace = "default";
  service_name = "trips";
  http_method = "PUT";
  route_path = "/trips";
  endpoint_name = "trips PUT /trips";
}

abbrev trip : ℕ → Fields
trip seats = field "seats" (integer (pos seats)) end

abbrev row : SchemaVersionRecord
row = record {
  id = 1;
  endpoint_id = 0;
  version = 1;
  fingerprint = "f";
  canonical_schema = canonicalize (object (trip 4));
  compatibility_classification = "SAFE";
  previous_version_id = none;
  is_current = true;
}

abbrev rider : Subscription
rider = record {
  id = 2;
  consumer_id = "rider";
  endpoint_id = 0;
  target_url = "http://rider";
  severity_threshold = "SAFE";
  schema_version = none;
  active = true;
  created_at = 0;
  updated_at = 0;
}

abbrev db : Database
db = record empty_database {
  next_id = 3;
  endpoints = trips ∷ [];
  versions = row ∷ [];
  subscriptions = rider ∷ [];
}

abbrev event : EventPayload
event = record {
  event_id = 3;
  endpoint_id = 0;
  classification = "RISKY";
  new_version = 2;
  diffs = [];
}

abbrev replies : Subscription → Reply
replies sub = response 500

abbrev fingerprint : Schema → String
fingerprint s = "f"

trips_shape : SameShape (object (trip 4)) (object (trip 5))
trips_shape = objects (fields "seats" (integers (pos 4) (pos 5)) ends)

trips_found : find_endpoint trips_key db ≡ some trips
unfolding string_eq
trips_found = refl

row_found : find_fingerprint 0 "f" db ≡ some row
unfolding find_fingerprint string_eq nat_eq
row_found = refl

track_contract-SameShape_example :
    track_contract fingerprint true replies trips_key (object (trip 5)) 9 db
    ≡ ok (unchanged trips row "f" false, db)
track_contract-SameShape_example =
    track_contract-SameShape fingerprint true replies trips_key 9 (object (trip 4))
      (object (trip 5)) db trips row trips_shape trips_found row_found

-- A backend that takes the event at the second call.
abbrev backend : ℕ → Bool
backend attempt = attempt == 2
