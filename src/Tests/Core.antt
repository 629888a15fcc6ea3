-- ===== src/Tests/Core.antt =====
-- Drift against a baseline, and the legacy tables.
use schema_pilot_api_contrac.Runtime.Registry.{
  ensure_endpoint, find_fingerprint, get_current_schema, insert_endpoint, insert_version,
  register_version, retire_all,
}
use schema_pilot_api_contrac.Base.{
  ◌≡◌, refl, String, true, none, some, [], ◌∷◌, map, nat_eq, string_eq, option_eq, false,
}
use schema_pilot_api_contrac.Json.{
  Fields, pos, null, integer, text, array, object, nil, cons, end, field,
}
use schema_pilot_api_contrac.Runtime.Canonical.Shape as Shape
use schema_pilot_api_contrac.Runtime.Canonical.Shape.{SameShape}
use schema_pilot_api_contrac.Core.Parser.{normalize_types, structural_string}
use schema_pilot_api_contrac.Core.Parser.Alike as Alike
use schema_pilot_api_contrac.Core.Parser.Alike.{structural_string-Alike}
use schema_pilot_api_contrac.Core.Drift.{Drift, structural_diff, classify_contract_drift}
use schema_pilot_api_contrac.Core.Drift.Severities.{graded, classify_contract_drift_cases}
use schema_pilot_api_contrac.Core.Drift.Paths.{IsDrift, structural_diff-IsDrift}
use schema_pilot_api_contrac.Core.Snapshots.{Tables, Route}
use schema_pilot_api_contrac.Base.Result.{Result, ok}
use schema_pilot_api_contrac.Schema.{repr}
use schema_pilot_api_contrac.Runtime.Database.{Database, Subscription, empty_database}
use schema_pilot_api_contrac.Runtime.Webhook.{Reply, response}
use schema_pilot_api_contrac.Runtime.Service.{Tracked, track_contract}
use schema_pilot_api_contrac.Track.{PayloadSubmission, key_of, is_benchmark, track_payload}
use schema_pilot_api_contrac.Track.Served.{IsServed, track_payload-IsServed}

abbrev cart : Fields
cart = field "total" (integer (pos 7)) (field "lines" (array (cons (text "a") (cons null nil))) end)

abbrev same_cart : Fields
same_cart =
    field "total" (integer (pos 9)) (field "lines" (array (cons null (cons (text "b") nil))) end)

abbrev nulled_cart : Fields
nulled_cart = field "total" null end

structural_string-Alike_example :
    structural_string (object cart) ≡ structural_string (object same_cart)
structural_string-Alike_example = structural_string-Alike (
    Alike.objects (
      Alike.fields "total" (Alike.integers (pos 7) (pos 9)) (
        Alike.fields "lines"
          (Alike.arrays (
            Alike.linked (Alike.conses (Alike.texts "a" "b") (Alike.conses Alike.nulls Alike.nils))
              (Alike.exchanged (text "b") null nil)))
          Alike.ends)))

structural_diff-IsDrift_example :
    IsDrift
      (normalize_types (object cart))
      (normalize_types (object nulled_cart))
      (structural_diff (normalize_types (object cart)) (normalize_types (object nulled_cart)))
structural_diff-IsDrift_example =
    structural_diff-IsDrift (normalize_types (object cart)) (normalize_types (object nulled_cart))

abbrev widened : Drift
widened = record { path = "total"; old = some "int"; new = some "float"; severity = none }

abbrev dropped : Drift
dropped = record { path = "note"; old = some "string"; new = none; severity = none }

classify_contract_drift_cases_example :
    classify_contract_drift (dropped ∷ widened ∷ []) ≡ map graded (dropped ∷ widened ∷ [])
classify_contract_drift_cases_example =
    classify_contract_drift_cases (dropped ∷ widened ∷ []) (refl, (refl, tt))

cart_shape : SameShape (object nulled_cart) (object nulled_cart)
cart_shape = Shape.objects (Shape.fields "total" Shape.nulls Shape.ends)

abbrev route : Route
route = record { service_name = "shop"; http_method = "POST"; route_path = "/carts" }

abbrev tables : Tables
tables = record {
  next_id = 1;
  api_endpoints =
      record { id = 0; service_name = "shop"; http_method = "POST"; route_path = "/carts" } ∷ [];
  snapshots =
      record {
        endpoint_id = 0;
        fingerprint = "f1";
        normalized_schema = normalize_types (object nulled_cart);
        is_active_baseline = true;
        created_at = 3;
      }
      ∷ [];
  violations = [];
}

abbrev digest : String → String
digest s = s

abbrev same : String → String
same s = s

abbrev quiet : Subscription → Reply
quiet sub = response 500

abbrev checkout : PayloadSubmission
checkout = record {
  namespace = "shop";
  service_name = "orders";
  http_method = "POST";
  route_path = "/orders";
  payload = cart;
}

-- The runtime half of the request, on empty tables.
abbrev tracked : Result (Tracked × Database)
tracked = track_contract repr false quiet (key_of same checkout) (object cart) 8 empty_database

tracked_ok : (result : Tracked) × (db : Database) × (tracked ≡ ok (result, db))
unfolding track_contract ensure_endpoint insert_endpoint string_eq find_fingerprint register_version
    insert_version retire_all get_current_schema
tracked_ok = (_, _, refl)

track_payload-IsServed_example :
    IsServed
      (is_benchmark same checkout)
      tracked_ok.0
      tracked_ok.1
      tables
      (track_payload same same repr digest false quiet checkout 8 empty_database tables)
track_payload-IsServed_example =
    track_payload-IsServed same same repr digest false quiet checkout 8 empty_database tracked_ok.1
      tables tracked_ok.0 tracked_ok.2
