-- ===== src/Runtime/Webhook.antt =====
-- app/runtime/webhook.py: deliveries with their log, the dead letter queue and its replay.
-- The consumer's answers are a function of the attempt's number, and the clock is an argument.
pub mod DeadLetters
pub mod Attempts
pub mod Delivering
pub mod Replaying
use schema_pilot_api_contrac.Base.{
  ℕ, zero, suc, ◌+◌, String, ◌<>◌, Bool, true, false, not, ◌&&◌, Option, none, some, List, [], ◌∷◌,
  leb, ltb, max, decimal, ◌==◌, nat_eq, string_eq, if◌then◌else◌,
}
use schema_pilot_api_contrac.Base.Sequence.{length, take, filter, find?, sort_by_desc}
use schema_pilot_api_contrac.Runtime.Database.{
  Database, Subscription, EventPayload, Attempt, DlqEntry,
}

-- What `http_client.post` gives: a response's status code, or an exception's text.
pub data Reply : Type 0 where
  response : ℕ → Reply
  exception : String → Reply

-- `200 <= res.status_code < 300`
unfoldable pub accepted : Reply → Bool
accepted (response code) = leb 200 code && ltb code 300
accepted (exception reason) = false

unfoldable pub reason_of : Reply → String
reason_of (response code) = "HTTP " <> decimal code
reason_of (exception reason) = reason

-- The conflict target of the DLQ: UNIQUE(event_id, consumer_id).
abbrev pub is_entry : ℕ → String → DlqEntry → Bool
is_entry event_id consumer_id d = d.event_id == event_id && d.consumer_id == consumer_id

-- ON CONFLICT DO UPDATE
abbrev pub merged : String → ℕ → ℕ → DlqEntry → DlqEntry
merged failure_reason attempt_count now d = record d {
  failure_reason = failure_reason;
  attempt_count = max d.attempt_count attempt_count;
  last_attempt_at = now;
}

-- The update, or the insertion of a first entry.
unfoldable pub upsert_entry : DlqEntry → ℕ → List DlqEntry → List DlqEntry
upsert_entry new now [] = new ∷ []
upsert_entry new now (d ∷ ds) =
    if is_entry new.event_id new.consumer_id d
    then merged new.failure_reason new.attempt_count now d ∷ ds
    else d ∷ upsert_entry new now ds

-- The arguments of one delivery.
pub record Delivery : Type 0 where
  pub event_id : ℕ
  pub endpoint_id : ℕ
  pub subscription : Subscription
  pub payload : EventPayload

unfoldable pub upsert_dlq : Delivery → String → ℕ → ℕ → Database → Database
unfolding upsert_entry
upsert_dlq d failure_reason attempt_count now db =
    let dlq =
      upsert_entry
        (record {
          id = db.next_id;
          event_id = d.event_id;
          consumer_id = d.subscription.consumer_id;
          endpoint_id = d.endpoint_id;
          target_url = d.subscription.target_url;
          payload = d.payload;
          failed_at = now;
          failure_reason = failure_reason;
          attempt_count = attempt_count;
          created_at = now;
          last_attempt_at = now;
        })
        now db.dlq in
    record db { next_id = db.next_id + 1; dlq = dlq; dlq_size = length dlq }

-- INSERT INTO webhook_delivery_attempts
abbrev pub attempt_row : Delivery → ℕ → Bool → Option String → ℕ → Attempt
attempt_row d attempt success failure_reason now = record {
  event_id = d.event_id;
  consumer_id = d.subscription.consumer_id;
  endpoint_id = d.endpoint_id;
  target_url = d.subscription.target_url;
  success = success;
  failure_reason = failure_reason;
  attempt_count = attempt;
  attempted_at = now;
}

unfoldable pub log_success : Delivery → ℕ → ℕ → Database → Database
log_success d attempt now db = record db {
  attempts = attempt_row d attempt true none now ∷ db.attempts;
}

unfoldable pub log_failure : Delivery → ℕ → String → ℕ → Database → Database
log_failure d attempt reason now db = record db {
  attempts = attempt_row d attempt false (some reason) now ∷ db.attempts;
  delivery_failures = db.delivery_failures + 1;
}

module _ (d : Delivery) (replies : ℕ → Reply) (max_attempts : ℕ) (persist_dlq : Bool)
    (now : ℕ) where
  -- What follows the failed attempt that is the last one.
  unfoldable pub give_up : ℕ → Database → Bool × Database
  unfolding upsert_dlq reason_of
  give_up attempt db =
      if persist_dlq
      then (false, upsert_dlq d (reason_of (replies attempt)) attempt now db)
      else (false, db)

  -- `for attempt in range(...)`, with the rounds that are left.
  unfoldable pub attempts_from : ℕ → ℕ → Database → Bool × Database
  unfolding accepted log_success log_failure reason_of give_up
  attempts_from zero attempt db = (false, db)
  attempts_from (suc rounds) attempt db =
      let failed = log_failure d attempt (reason_of (replies attempt)) now db in
      let rest = attempts_from rounds (attempt + 1) failed in
      if accepted (replies attempt)
      then (true, log_success d attempt now db)
      else if attempt == max_attempts
      then give_up attempt failed
      else rest

  unfoldable pub deliver_with_retry : Database → Bool × Database
  unfolding attempts_from
  deliver_with_retry db =
      if not d.subscription.active then (false, db) else attempts_from max_attempts 1 db

unfoldable pub list_dlq_entries : ℕ → Database → List DlqEntry
unfolding sort_by_desc
list_dlq_entries limit db = take limit (sort_by_desc (λ d. d.last_attempt_at) db.dlq)

unfoldable pub get_dlq_entry : ℕ → Database → Option DlqEntry
get_dlq_entry i db = find? (λ d. d.id == i) db.dlq

unfoldable pub list_delivery_attempts : ℕ → Database → List Attempt
unfolding sort_by_desc
list_delivery_attempts limit db = take limit (sort_by_desc (λ a. a.attempted_at) db.attempts)

-- The artifact of a replay, which is also what the document store is given.
pub record Artifact : Type 0 where
  pub dlq_id : ℕ
  pub event_id : ℕ
  pub consumer_id : String
  pub endpoint_id : ℕ
  pub target_url : String
  pub replayed : Bool
  pub failure_reason : Option String
  pub replayed_at : ℕ

pub data Replay : Type 0 where
  dlq_not_found : Replay
  subscription_not_found : DlqEntry → Replay
  done : Artifact → Replay

abbrev first_of_list {ℓ} : {A : Type ℓ} → List A → Option A
first_of_list [] = none
first_of_list (x ∷ xs) = some x

-- SELECT ... WHERE endpoint_id = ... AND consumer_id = ... ORDER BY created_at DESC LIMIT 1
unfoldable pub newest_subscription : ℕ → String → Database → Option Subscription
unfolding sort_by_desc
newest_subscription endpoint_id consumer_id db = first_of_list (
    sort_by_desc (λ s. s.created_at)
      (filter (λ s. s.endpoint_id == endpoint_id && s.consumer_id == consumer_id) db.subscriptions))

abbrev pub artifact_of : DlqEntry → Bool → ℕ → Artifact
artifact_of entry ok now = record {
  dlq_id = entry.id;
  event_id = entry.event_id;
  consumer_id = entry.consumer_id;
  endpoint_id = entry.endpoint_id;
  target_url = entry.target_url;
  replayed = ok;
  failure_reason = if ok then none else some entry.failure_reason;
  replayed_at = now;
}

unfoldable pub replay_with :
    DlqEntry → Option Subscription → Reply → ℕ → Database → Replay × Database
unfolding deliver_with_retry
replay_with entry none reply now db = (subscription_not_found entry, db)
replay_with entry (some sub) reply now db =
    let (ok, db') =
      deliver_with_retry
        (record {
          event_id = entry.event_id;
          endpoint_id = entry.endpoint_id;
          subscription = sub;
          payload = entry.payload;
        })
        (λ attempt. reply) 1 false now db in
    (done (artifact_of entry ok now), db')

unfoldable pub replay_dlq_entry : ℕ → Reply → ℕ → Database → Replay × Database
unfolding get_dlq_entry newest_subscription replay_with
replay_dlq_entry dlq_id reply now db = elim (get_dlq_entry dlq_id db) [
  | none ↦ (dlq_not_found, db)
  | some entry ↦
      replay_with entry (newest_subscription entry.endpoint_id entry.consumer_id db) reply now db
]
