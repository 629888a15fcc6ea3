-- ===== src/Track.antt =====
-- app/main.py: POST /track as a whole, the runtime's transaction and then the legacy tables.
pub mod Served
use schema_pilot_api_contrac.Base.{
  ℕ, String, Bool, true, false, ◌||◌, Option, none, some, max, if◌then◌else◌,
}
use schema_pilot_api_contrac.Base.Text.{starts_with}
use schema_pilot_api_contrac.Base.Result.{Result, ok, ◌>>=◌}
use schema_pilot_api_contrac.Json.{Fields, object}
use schema_pilot_api_contrac.Schema.{Schema}
use schema_pilot_api_contrac.Runtime.Database.{Database, Subscription}
use schema_pilot_api_contrac.Runtime.Registry.{EndpointKey}
use schema_pilot_api_contrac.Runtime.Webhook.{Reply}
use schema_pilot_api_contrac.Runtime.Service.{Tracked, track_contract}
use schema_pilot_api_contrac.Core.Snapshots.{Tables, Route, Legacy, track_legacy}

-- `PayloadSubmission`
pub record PayloadSubmission : Type 0 where
  pub namespace : String
  pub service_name : String
  pub http_method : String
  pub route_path : String
  pub payload : Fields

-- The dict that the route returns, with what the legacy half adds to it.
pub record Response : Type 0 where
  pub result : Tracked
  pub legacy : Option Legacy

abbrev pub merged : Tracked → Legacy → Response
merged result legacy = record {
  result = record result {
    diff_count = max result.diff_count legacy.legacy_diff_count;
    inserted = result.inserted || legacy.inserted;
  };
  legacy = some legacy;
}

-- `submission.http_method.upper()` is what both halves are given.
abbrev pub key_of : (String → String) → PayloadSubmission → EndpointKey
key_of upper s = record {
  namespace = s.namespace;
  service_name = s.service_name;
  http_method = upper s.http_method;
  route_path = s.route_path;
}

abbrev pub route_of : (String → String) → PayloadSubmission → Route
route_of upper s = record {
  service_name = s.service_name;
  http_method = upper s.http_method;
  route_path = s.route_path;
}

-- `submission.namespace.lower().startswith("k6")`
unfoldable pub is_benchmark : (String → String) → PayloadSubmission → Bool
unfolding starts_with
is_benchmark lower s = starts_with "k6" (lower s.namespace)

-- Python's `str.lower` and `str.upper`, the two fingerprints' functions, and whether and how consumers are
-- called at once.
module _ (lower upper : String → String) (fingerprint : Schema → String) (digest : String → String)
    (inline_delivery : Bool) (replies : Subscription → Reply) where
  -- What follows the commit of the runtime's half.
  unfoldable pub dual_write :
      PayloadSubmission → ℕ → Tracked → Database → Tables → Result (Response × Database × Tables)
  unfolding is_benchmark track_legacy
  dual_write s now result db t =
      if is_benchmark lower s then ok (record { result = result; legacy = none }, db, t) else do
        (legacy, t') ← track_legacy digest (route_of upper s) (object s.payload) now t
        ok (merged result legacy, db, t')

  unfoldable pub track_payload :
      PayloadSubmission → ℕ → Database → Tables → Result (Response × Database × Tables)
  unfolding track_contract dual_write
  track_payload s now db t = do
    (result, db') ←
        track_contract fingerprint inline_delivery replies (key_of upper s) (object s.payload) now
          db
    dual_write s now result db' t
