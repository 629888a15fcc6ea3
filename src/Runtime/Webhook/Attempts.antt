-- ===== src/Runtime/Webhook/Attempts.antt =====
-- What a delivery promises of its attempts, its log and the dead letter queue.
use schema_pilot_api_contrac.Base.{
  ℕ, zero, suc, ◌+◌, ◌≤◌, ◌≡◌, Bool, true, false, ◌||◌, some, List, arith, nat_eq, if◌then◌else◌,
}
use schema_pilot_api_contrac.Base.Sequence.{length}
use schema_pilot_api_contrac.Runtime.Database.{Database, DlqEntry}
use schema_pilot_api_contrac.Runtime.Webhook.{Reply, Delivery, accepted}
use schema_pilot_api_contrac.Runtime.Webhook.DeadLetters.{find_entry}

module _ (replies : ℕ → Reply) where
  -- Some of the next `rounds` attempts is answered by a 2xx status.
  unfoldable pub succeeds : ℕ → ℕ → Bool
  succeeds zero attempt = false
  succeeds (suc rounds) attempt = accepted (replies attempt) || succeeds rounds (attempt + 1)

  pub succeeds-one : (attempt : ℕ) → succeeds 1 attempt ≡ accepted (replies attempt)
  unfolding succeeds
  succeeds-one attempt = ground arith

  -- The number of posts until the first such answer, or all of the rounds.
  unfoldable pub posts : ℕ → ℕ → ℕ
  posts zero attempt = 0
  posts (suc rounds) attempt =
      suc (if accepted (replies attempt) then 0 else posts rounds (attempt + 1))

  pub posts-one : (attempt : ℕ) → posts 1 attempt ≡ 1
  unfolding posts
  posts-one attempt = ground arith

  pub posts-le : (rounds attempt : ℕ) → posts rounds attempt ≤ rounds
  unfolding posts
  posts-le zero attempt = omega arith
  posts-le (suc rounds) attempt = ground (arith, posts-le rounds (attempt + 1))

module _ (d : Delivery) (replies : ℕ → Reply) (max_attempts : ℕ) (persist_dlq : Bool)
    (now : ℕ) where
  -- The event's dead letter has at least `max_attempts` attempts on it.
  abbrev pub IsDead : List DlqEntry → Type 0
  IsDead dlq =
      (entry : DlqEntry) × (find_entry d.event_id d.subscription.consumer_id dlq ≡ some entry)
      × (max_attempts ≤ entry.attempt_count)

  -- What becomes of the dead letter queue.
  pub data Letters (rounds : ℕ) (db : Database) (out : Bool × Database) : Type 0 where
    answered : out.0 ≡ true → out.1.dlq ≡ db.dlq → Letters rounds db out
    unwanted : out.0 ≡ false → persist_dlq ≡ false → out.1.dlq ≡ db.dlq → Letters rounds db out
    untried : out.0 ≡ false → rounds ≡ 0 → out.1.dlq ≡ db.dlq → Letters rounds db out
    dead : out.0 ≡ false → persist_dlq ≡ true → IsDead out.1.dlq → Letters rounds db out

  -- What the loop gives from the state `db`, with `rounds` left from number `attempt` on.
  pub record IsAttempted (rounds attempt : ℕ) (db : Database) (out : Bool × Database) : Type 0 where
    pub verdict : out.0 ≡ succeeds replies rounds attempt
    pub logged : length out.1.attempts ≡ posts replies rounds attempt + length db.attempts
    pub letters : Letters rounds db out
    pub outbox : out.1.outbox ≡ db.outbox
    pub subscriptions : out.1.subscriptions ≡ db.subscriptions
    pub versions : out.1.versions ≡ db.versions
