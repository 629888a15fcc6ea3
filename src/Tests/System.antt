-- ===== src/Tests/System.antt =====
-- A run of the whole runtime: two payloads, a subscription between them, and a poll.
use schema_pilot_api_contrac.Base.{◌≡◌, refl, true, false, none, nat_eq, string_eq}
use schema_pilot_api_contrac.Base.Result.{Result, ok, raised}
use schema_pilot_api_contrac.Base.Sequence.{length}
use schema_pilot_api_contrac.Json.{Json, pos, integer, object, end, field}
use schema_pilot_api_contrac.Schema.{repr, get_entry}
use schema_pilot_api_contrac.Runtime.Database.{Database, Subscription, OutboxItem, empty_database}
use schema_pilot_api_contrac.Runtime.Registry.{
  EndpointKey, ensure_endpoint, find_fingerprint, get_current_schema, insert_endpoint,
  insert_version, register_version, retire_all,
}
use schema_pilot_api_contrac.Runtime.Subscriptions.{NewSubscription, create_subscription}
use schema_pilot_api_contrac.Runtime.Webhook.{Reply, response}
use schema_pilot_api_contrac.Runtime.Outbox.{poll_once}
use schema_pilot_api_contrac.Runtime.Service.{Tracked, track_contract}
use schema_pilot_api_contrac.Runtime.System.{tracks, subscribes, polls, Reach, starts, steps}
use schema_pilot_api_contrac.Runtime.System.Reachable.{IsConsistent, Reach-IsConsistent}

abbrev trips_key : EndpointKey
trips_key = record {
  namespace = "default";
  service_name = "trips";
  http_method = "PUT";
  route_path = "/trips";
}

abbrev quiet : Subscription → Reply
quiet sub = response 500

-- The consumer answers the worker.
abbrev answering : OutboxItem → Reply
answering item = response 200

abbrev rider : NewSubscription
rider = record {
  consumer_id = "rider";
  endpoint_id = 0;
  target_url = "http://rider";
  severity_threshold = "SAFE";
  schema_version = none;
  active = true;
}

abbrev first_payload : Json
first_payload = object (field "seats" (integer (pos 4)) end)

abbrev second_payload : Json
second_payload = object end

-- What a call returns and the database that it leaves, or the empty ones.
abbrev made_by : {A : Type 0} → A × Database → Result (A × Database) → A × Database
made_by default (raised exception) = default
made_by default (ok made) = made

abbrev nothing : Tracked × Database
nothing = (
  record {
    endpoint_id = 0;
    endpoint_name = "";
    namespace = "";
    schema_version = 0;
    fingerprint = "";
    inserted = false;
    compatibility_classification = "";
    diff_count = 0;
    affected_consumer_count = 0;
    published = none;
  },
  empty_database,
)

abbrev first : Tracked × Database
first = made_by nothing (track_contract repr false quiet trips_key first_payload 1 empty_database)

abbrev subscribed : Subscription × Database
subscribed =
    made_by
      (
        record {
          id = 0;
          consumer_id = "";
          endpoint_id = 0;
          target_url = "";
          severity_threshold = "";
          schema_version = none;
          active = false;
          created_at = 0;
          updated_at = 0;
        },
        empty_database,
      )
      (create_subscription rider 2 first.1)

abbrev second : Tracked × Database
second = made_by nothing (track_contract repr false quiet trips_key second_payload 3 subscribed.1)

abbrev polled : Database
polled = (poll_once 10 answering 4 second.1).1

first_ok : track_contract repr false quiet trips_key first_payload 1 empty_database ≡ ok first
unfolding track_contract ensure_endpoint insert_endpoint string_eq find_fingerprint register_version
    insert_version retire_all get_current_schema
first_ok = refl

subscribed_ok : create_subscription rider 2 first.1 ≡ ok subscribed
unfolding create_subscription track_contract ensure_endpoint insert_endpoint string_eq
    find_fingerprint register_version insert_version retire_all get_current_schema nat_eq
subscribed_ok = refl

second_ok : track_contract repr false quiet trips_key second_payload 3 subscribed.1 ≡ ok second
unfolding track_contract ensure_endpoint create_subscription insert_endpoint string_eq
    find_fingerprint register_version insert_version retire_all get_current_schema nat_eq repr
    get_entry
second_ok = refl

-- The second payload lacks the field of the first: one event for the one consumer, which a poll delivers.
second_outbox : length second.1.outbox ≡ 1
unfolding track_contract ensure_endpoint create_subscription insert_endpoint string_eq
    find_fingerprint register_version insert_version retire_all get_current_schema nat_eq repr
    get_entry
second_outbox = refl

polled_outbox : (polled.outbox_pending ≡ 0) × (length polled.attempts ≡ 1)
unfolding poll_once track_contract ensure_endpoint create_subscription insert_endpoint string_eq
    find_fingerprint register_version insert_version retire_all get_current_schema nat_eq repr
    get_entry
polled_outbox = (refl, refl)

polled-Reach : Reach polled
polled-Reach =
    steps
      (steps
        (steps (steps starts (tracks repr false quiet trips_key first_payload 1 first.0 first_ok))
          (subscribes rider 2 subscribed.0 subscribed_ok))
        (tracks repr false quiet trips_key second_payload 3 second.0 second_ok))
      (polls 10 answering 4 refl)

Reach-IsConsistent_example : IsConsistent polled
Reach-IsConsistent_example = Reach-IsConsistent polled-Reach
