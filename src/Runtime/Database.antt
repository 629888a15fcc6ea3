-- ===== src/Runtime/Database.antt =====
-- The tables of migrations/003 to 005 that app/runtime/ reads and writes, and its gauges and counters.
-- A table is a list with the newest row first, an id is a number drawn from `next_id` (in place of
-- `gen_random_uuid()`), and a time is a number of seconds.
use schema_pilot_api_contrac.Base.{ℕ, String, Bool, Option, List, []}
use schema_pilot_api_contrac.Json.{ℤ}
use schema_pilot_api_contrac.Schema.{Schema}
use schema_pilot_api_contrac.Runtime.Classifier.{DiffItem}

-- contract_registry_endpoints
pub record Endpoint : Type 0 where
  pub id : ℕ
  pub namespace : String
  pub service_name : String
  pub http_method : String
  pub route_path : String
  pub endpoint_name : String

-- contract_schema_versions, `SchemaVersionRecord`
pub record SchemaVersionRecord : Type 0 where
  pub id : ℕ
  pub endpoint_id : ℕ
  pub version : ℕ
  pub fingerprint : String
  pub canonical_schema : Schema
  pub compatibility_classification : String
  pub previous_version_id : Option ℕ
  pub is_current : Bool

-- consumer_subscriptions
pub record Subscription : Type 0 where
  pub id : ℕ
  pub consumer_id : String
  pub endpoint_id : ℕ
  pub target_url : String
  pub severity_threshold : String
  pub schema_version : Option ℤ
  pub active : Bool
  pub created_at : ℕ
  pub updated_at : ℕ

-- The dict that `_enqueue_webhook_outbox` stores and posts.
pub record EventPayload : Type 0 where
  pub event_id : ℕ
  pub endpoint_id : ℕ
  pub classification : String
  pub new_version : ℕ
  pub diffs : List DiffItem

-- webhook_delivery_attempts
pub record Attempt : Type 0 where
  pub event_id : ℕ
  pub consumer_id : String
  pub endpoint_id : ℕ
  pub target_url : String
  pub success : Bool
  pub failure_reason : Option String
  pub attempt_count : ℕ
  pub attempted_at : ℕ

-- webhook_delivery_dlq. The payload column holds {"event": payload, "failed_at": failed_at}.
pub record DlqEntry : Type 0 where
  pub id : ℕ
  pub event_id : ℕ
  pub consumer_id : String
  pub endpoint_id : ℕ
  pub target_url : String
  pub payload : EventPayload
  pub failed_at : ℕ
  pub failure_reason : String
  pub attempt_count : ℕ
  pub created_at : ℕ
  pub last_attempt_at : ℕ

-- webhook_outbox_status
pub data Status : Type 0 where
  pending delivering failed delivered : Status

-- webhook_outbox
pub record OutboxItem : Type 0 where
  pub id : ℕ
  pub subscription_id : ℕ
  pub endpoint_id : ℕ
  pub payload : EventPayload
  pub status : Status
  pub attempts : ℕ
  pub max_attempts : ℕ
  pub next_retry_at : ℕ
  pub created_at : ℕ
  pub updated_at : ℕ

pub record Database : Type 0 where
  pub next_id : ℕ
  pub endpoints : List Endpoint
  pub versions : List SchemaVersionRecord
  pub subscriptions : List Subscription
  pub attempts : List Attempt
  pub dlq : List DlqEntry
  pub outbox : List OutboxItem
  -- DLQ_SIZE, OUTBOX_PENDING_GAUGE, WEBHOOK_DELIVERY_FAILURES_TOTAL
  pub dlq_size : ℕ
  pub outbox_pending : ℕ
  pub delivery_failures : ℕ

abbrev pub empty_database : Database
empty_database = record {
  next_id = 0;
  endpoints = [];
  versions = [];
  subscriptions = [];
  attempts = [];
  dlq = [];
  outbox = [];
  dlq_size = 0;
  outbox_pending = 0;
  delivery_failures = 0;
}
