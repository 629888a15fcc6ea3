-- ===== src/Runtime/System.antt =====
-- The runtime as one system: the requests to app/main.py and app/api/, and the polls of
-- app/workers/outbox_worker.py, one after the other, as steps of the database that they share.
-- A request that raises is rolled back, and is no step.
pub mod Frame
pub mod Requests
pub mod Registered
pub mod Reachable
use schema_pilot_api_contrac.Base.{ℕ, String, ◌≡◌, Bool}
use schema_pilot_api_contrac.Base.Result.{ok}
use schema_pilot_api_contrac.Json.{Json}
use schema_pilot_api_contrac.Schema.{Schema}
use schema_pilot_api_contrac.Runtime.Database.{Database, Subscription, OutboxItem, empty_database}
use schema_pilot_api_contrac.Runtime.Registry.{EndpointKey}
use schema_pilot_api_contrac.Runtime.Subscriptions.{
  NewSubscription, Patch, create_subscription, update_subscription,
}
use schema_pilot_api_contrac.Runtime.Webhook.{Reply, replay_dlq_entry}
use schema_pilot_api_contrac.Runtime.Outbox.{poll_once}
use schema_pilot_api_contrac.Runtime.Service.{Tracked, track_contract}

-- One request or one poll, with whatever arguments, at whatever time, and whatever the consumers answer.
pub data Step (db db' : Database) : Type 0 where
  tracks :
      (fingerprint : Schema → String) (inline_delivery : Bool) (replies : Subscription → Reply)
      (k : EndpointKey) (payload : Json) (now : ℕ) (t : Tracked)
      → track_contract fingerprint inline_delivery replies k payload now db ≡ ok (t, db')
      → Step db db'
  subscribes :
      (new : NewSubscription) (now : ℕ) (sub : Subscription)
      → create_subscription new now db ≡ ok (sub, db')
      → Step db db'
  patches : (i : ℕ) (p : Patch) (now : ℕ) → (update_subscription i p now db).1 ≡ db' → Step db db'
  replays :
      (i : ℕ) (reply : Reply) (now : ℕ) → (replay_dlq_entry i reply now db).1 ≡ db' → Step db db'
  polls :
      (batch_size : ℕ) (replies : OutboxItem → Reply) (now : ℕ)
      → (poll_once batch_size replies now db).1 ≡ db'
      → Step db db'

-- The databases that any sequence of steps leads to from the empty tables.
pub data Reach : Database → Type 0 where
  starts : Reach empty_database
  steps : {db db' : Database} → Reach db → Step db db' → Reach db'
