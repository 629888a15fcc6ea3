-- ===== src/Tests/Delivery.antt =====
-- Deliveries, dead letters and polls for one consumer.
use schema_pilot_api_contrac.Runtime.Subscriptions.{Patch}
use schema_pilot_api_contrac.Base.{
  none, ℕ, ◌≤◌, ◌≡◌, refl, if◌then◌else◌, true, false, some, [], ◌∷◌, arith, inl, ◌==◌, nat_eq,
  string_eq,
}
use schema_pilot_api_contrac.Base.Sequence.{Elem}
use schema_pilot_api_contrac.Json.{pos}
use schema_pilot_api_contrac.Runtime.Models.{breaking, risky, rank, name, severity_rank}
use schema_pilot_api_contrac.Runtime.Database.{
  Database, Subscription, EventPayload, DlqEntry, OutboxItem, pending, failed, empty_database,
}
use schema_pilot_api_contrac.Runtime.Subscriptions.{
  version_reached, is_affected, select_affected_subscriptions,
}
use schema_pilot_api_contrac.Runtime.Subscriptions.Selection.{
  Picks, Wants, select_affected_subscriptions-Picks,
}
use schema_pilot_api_contrac.Runtime.Webhook.{
  Reply, response, Delivery, upsert_dlq, deliver_with_retry,
}
use schema_pilot_api_contrac.Runtime.Webhook.DeadLetters.{
  DistinctEntries, IsUpserted, upsert_dlq-IsUpserted,
}
use schema_pilot_api_contrac.Runtime.Webhook.{get_dlq_entry, newest_subscription}
use schema_pilot_api_contrac.Base.Sequence.{sort_by_desc}
use schema_pilot_api_contrac.Runtime.Webhook.Attempts.{IsAttempted, posts}
use schema_pilot_api_contrac.Runtime.Webhook.Delivering.{deliver_with_retry-IsAttempted}

abbrev pub billing : Subscription
billing = record {
  id = 5;
  consumer_id = "billing";
  endpoint_id = 0;
  target_url = "http://billing";
  severity_threshold = "RISKY";
  schema_version = some (pos 1);
  active = true;
  created_at = 0;
  updated_at = 0;
}

abbrev pub muted : Subscription
muted = record billing { id = 6; consumer_id = "muted"; active = false }

abbrev pub event : EventPayload
event = record {
  event_id = 9;
  endpoint_id = 0;
  classification = "BREAKING";
  new_version = 2;
  diffs = [];
}

abbrev pub waiting : OutboxItem
waiting = record {
  id = 7;
  subscription_id = 5;
  endpoint_id = 0;
  payload = event;
  status = pending;
  attempts = 0;
  max_attempts = 3;
  next_retry_at = 10;
  created_at = 1;
  updated_at = 1;
}

abbrev pub last_try : OutboxItem
last_try = record waiting { id = 8; subscription_id = 6; attempts = 2 }

abbrev pub over : OutboxItem
over = record waiting { id = 4; status = failed; attempts = 3 }

abbrev pub db : Database
db = record empty_database {
  next_id = 20;
  subscriptions = billing ∷ muted ∷ [];
  outbox = waiting ∷ last_try ∷ over ∷ [];
}

-- A consumer that answers its second call.
abbrev second : ℕ → Reply
second attempt = if attempt == 2 then response 204 else response 503

abbrev to_billing : Delivery
to_billing = record { event_id = 9; endpoint_id = 0; subscription = billing; payload = event }

deliver_with_retry-IsAttempted_example :
    IsAttempted to_billing second 3 true 30 3 1 db
      (deliver_with_retry to_billing second 3 true 30 db)
    × (posts second 3 1 ≤ 3)
deliver_with_retry-IsAttempted_example =
    deliver_with_retry-IsAttempted to_billing second 3 true 30 db refl

upsert_dlq-IsUpserted_example :
    IsUpserted to_billing "HTTP 503" 3 30 db (upsert_dlq to_billing "HTTP 503" 3 30 db)
    × DistinctEntries (upsert_dlq to_billing "HTTP 503" 3 30 db).dlq
upsert_dlq-IsUpserted_example = upsert_dlq-IsUpserted to_billing "HTTP 503" 3 30 db tt

select_affected_subscriptions-Picks_example :
    Picks (Wants 0 2 "BREAKING") db.subscriptions (select_affected_subscriptions 0 2 "BREAKING" db)
select_affected_subscriptions-Picks_example = select_affected_subscriptions-Picks 0 2 "BREAKING" db

billing_reached : version_reached billing.schema_version 2 ≡ true
unfolding version_reached
billing_reached = refl

billing_told : Elem billing (select_affected_subscriptions 0 2 (name risky) db)
unfolding select_affected_subscriptions is_affected version_reached severity_rank name rank
    string_eq nat_eq
billing_told = inl refl

risky_below : rank risky ≤ rank breaking
unfolding rank
risky_below = omega arith

abbrev dead : DlqEntry
dead = record {
  id = 19;
  event_id = 9;
  consumer_id = "billing";
  endpoint_id = 0;
  target_url = "http://billing";
  payload = event;
  failed_at = 12;
  failure_reason = "HTTP 503";
  attempt_count = 3;
  created_at = 12;
  last_attempt_at = 12;
}

abbrev db_dead : Database
db_dead = record db { dlq = dead ∷ [] }

dead_found : get_dlq_entry 19 db_dead ≡ some dead
unfolding get_dlq_entry nat_eq
dead_found = refl

billing_found : newest_subscription 0 "billing" db_dead ≡ some billing
unfolding newest_subscription sort_by_desc nat_eq string_eq
billing_found = refl

abbrev mute : Patch
mute = record {
  target_url = none;
  severity_threshold = none;
  schema_version = none;
  active = some false;
}
