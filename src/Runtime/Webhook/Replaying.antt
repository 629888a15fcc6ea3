-- ===== src/Runtime/Webhook/Replaying.antt =====
-- The replay of a dead letter.
use schema_pilot_api_contrac.Base.{
  ℕ, ◌+◌, ◌≡◌, refl, ◌∙◌, ap, inl, inr, Bool-cases, Bool, false, ◌&&◌, some, arith, if◌then◌else◌,
}
use schema_pilot_api_contrac.Base.Sequence.{length}
use schema_pilot_api_contrac.Runtime.Database.{Database, Subscription, DlqEntry}
use schema_pilot_api_contrac.Runtime.Webhook.{
  Reply, Delivery, accepted, deliver_with_retry, get_dlq_entry, newest_subscription, Replay, done,
  artifact_of, replay_with, replay_dlq_entry,
}
use schema_pilot_api_contrac.Runtime.Webhook.Attempts.{
  succeeds-one, posts-one, Letters, answered, unwanted, untried, dead,
}
use schema_pilot_api_contrac.Runtime.Webhook.Delivering.{
  deliver_with_retry-inactive, deliver_with_retry-IsAttempted,
}

-- One attempt whose failure makes no dead letter, from `db` to `out`.
record IsSingle (d : Delivery) (reply : Reply) (db : Database) (out : Bool × Database)
    : Type 0 where
  verdict : out.0 ≡ (d.subscription.active && accepted reply)
  dlq : out.1.dlq ≡ db.dlq
  logged : length out.1.attempts ≡ (if d.subscription.active then 1 else 0) + length db.attempts

letters-dlq :
    (d : Delivery) (reply : Reply) (now : ℕ) (db : Database) (out : Bool × Database)
    → Letters d (λ attempt. reply) 1 false now 1 db out
    → out.1.dlq ≡ db.dlq
letters-dlq d reply now db out (answered v e) = e
letters-dlq d reply now db out (unwanted v p e) = e
letters-dlq d reply now db out (untried v z e) = e
letters-dlq d reply now db out (dead v p e) = cc

single :
    (d : Delivery) (reply : Reply) (now : ℕ) (db : Database)
    → IsSingle d reply db (deliver_with_retry d (λ attempt. reply) 1 false now db)
single d reply now db = elim (Bool-cases d.subscription.active) [
  | inl on ↦
      let r = (deliver_with_retry-IsAttempted d (λ attempt. reply) 1 false now db on).0 in
      record {
        verdict = r.verdict ∙ succeeds-one (λ attempt. reply) 1 ∙ ground arith;
        dlq = letters-dlq d reply now db _ r.letters;
        logged = ground (arith, r.logged, posts-one (λ attempt. reply) 1);
      }
  | inr off ↦
      let e = deliver_with_retry-inactive d (λ attempt. reply) 1 false now db off in
      record {
        verdict = ap (λ (o : Bool × Database). o.0) e ∙ ground arith;
        dlq = ap (λ (o : Bool × Database). o.1.dlq) e;
        logged = ap (λ (o : Bool × Database). length o.1.attempts) e ∙ ground arith;
      }
]

abbrev pub redelivery : DlqEntry → Subscription → Delivery
redelivery entry sub = record {
  event_id = entry.event_id;
  endpoint_id = entry.endpoint_id;
  subscription = sub;
  payload = entry.payload;
}

replay-found :
    (i : ℕ) (reply : Reply) (now : ℕ) (db : Database) (entry : DlqEntry) (sub : Subscription)
    → get_dlq_entry i db ≡ some entry
    → newest_subscription entry.endpoint_id entry.consumer_id db ≡ some sub
    → replay_dlq_entry i reply now db ≡ (
      done (
          artifact_of entry
            (deliver_with_retry (redelivery entry sub) (λ attempt. reply) 1 false now db).0
            now),
      (deliver_with_retry (redelivery entry sub) (λ attempt. reply) 1 false now db).1,
    )
unfolding replay_dlq_entry replay_with
replay-found i reply now db entry sub h k = rw (h, replay_dlq_entry, k) refl

-- A dead letter whose consumer has a subscription: a replay makes one post if the subscription is active, and
-- reports success exactly if it is active and answers by a 2xx status. Either way the dead letter queue stays
-- as it is, with the entry still in it.
pub replay_dlq_entry-found :
    (i : ℕ) (reply : Reply) (now : ℕ) (db : Database) (entry : DlqEntry) (sub : Subscription)
    → get_dlq_entry i db ≡ some entry
    → newest_subscription entry.endpoint_id entry.consumer_id db ≡ some sub
    → ((replay_dlq_entry i reply now db).0
        ≡ done (artifact_of entry (sub.active && accepted reply) now))
      × ((replay_dlq_entry i reply now db).1.dlq ≡ db.dlq)
      × (length (replay_dlq_entry i reply now db).1.attempts
          ≡ (if sub.active then 1 else 0) + length db.attempts)
replay_dlq_entry-found i reply now db entry sub h k =
    let e = replay-found i reply now db entry sub h k in
    let s = single (redelivery entry sub) reply now db in
    (
      ap (λ (o : Replay × Database). o.0) e ∙ ap (λ ok. done (artifact_of entry ok now)) s.verdict,
      ap (λ (o : Replay × Database). o.1.dlq) e ∙ s.dlq,
      ap (λ (o : Replay × Database). length o.1.attempts) e ∙ s.logged,
    )
