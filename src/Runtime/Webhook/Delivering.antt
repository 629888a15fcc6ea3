-- ===== src/Runtime/Webhook/Delivering.antt =====
-- What one delivery does, from its first attempt to its last.
use schema_pilot_api_contrac.Base.{
  ℕ, zero, suc, ◌+◌, ◌≤◌, ◌<◌, ◌≡◌, refl, ap, sym, subst, inl, inr, Bool-cases, String, Bool, true,
  false, arith, ◌∙◌, ◌==◌, nat_eq,
}
use schema_pilot_api_contrac.Runtime.Database.{Database}
use schema_pilot_api_contrac.Runtime.Webhook.{
  Reply, Delivery, accepted, reason_of, log_success, log_failure, upsert_dlq, give_up,
  attempts_from, deliver_with_retry,
}
use schema_pilot_api_contrac.Runtime.Webhook.DeadLetters.{
  dead_letter, dead_letter-counted, find_entry-dead_letter,
}
use schema_pilot_api_contrac.Runtime.Webhook.Attempts.{
  succeeds, posts, posts-le, Letters, answered, unwanted, untried, dead, IsAttempted,
}

module _ (d : Delivery) (replies : ℕ → Reply) (max_attempts : ℕ) (persist_dlq : Bool)
    (now : ℕ) where
  success :
      (rounds attempt : ℕ) (db : Database)
      → accepted (replies attempt) ≡ true
      → IsAttempted d replies max_attempts persist_dlq now
          (suc rounds)
          attempt
          db
          (true, log_success d attempt now db)
  unfolding succeeds posts log_success
  success rounds attempt db h = record {
    verdict = ground arith;
    logged = ground arith;
    letters = answered refl refl;
    outbox = refl;
    subscriptions = refl;
    versions = refl;
  }

  abbrev failed : ℕ → Database → Database
  failed attempt db = log_failure d attempt (reason_of (replies attempt)) now db

  give_up_persisted :
      (attempt : ℕ) (db : Database)
      → persist_dlq ≡ true
      → give_up d replies max_attempts persist_dlq now attempt db
        ≡ (false, upsert_dlq d (reason_of (replies attempt)) attempt now db)
  unfolding give_up
  give_up_persisted attempt db p = rw p

  give_up_dropped :
      (attempt : ℕ) (db : Database)
      → persist_dlq ≡ false
      → give_up d replies max_attempts persist_dlq now attempt db ≡ (false, db)
  unfolding give_up
  give_up_dropped attempt db p = rw p

  outbox-upsert_dlq :
      (reason : String) (count : ℕ) (db : Database)
      → ((upsert_dlq d reason count now db).outbox ≡ db.outbox)
        × ((upsert_dlq d reason count now db).attempts ≡ db.attempts)
        × ((upsert_dlq d reason count now db).subscriptions ≡ db.subscriptions)
        × ((upsert_dlq d reason count now db).versions ≡ db.versions)
  unfolding upsert_dlq
  outbox-upsert_dlq reason count db = (refl, refl, refl, refl)

  abbrev GivenUp : ℕ → Database → Bool × Database → Type 0
  GivenUp attempt db out =
      attempt ≡ max_attempts
      → accepted (replies attempt) ≡ false
      → IsAttempted d replies max_attempts persist_dlq now 1 attempt db out

  GivenUp-dropped :
      (attempt : ℕ) (db : Database)
      → persist_dlq ≡ false
      → GivenUp attempt db (false, failed attempt db)
  unfolding succeeds posts log_failure
  GivenUp-dropped attempt db p e h = record {
    verdict = ground arith;
    logged = ground arith;
    letters = unwanted refl p refl;
    outbox = refl;
    subscriptions = refl;
    versions = refl;
  }

  GivenUp-persisted :
      (attempt : ℕ) (db : Database)
      → persist_dlq ≡ true
      → GivenUp attempt db
          (false, upsert_dlq d (reason_of (replies attempt)) attempt now (failed attempt db))
  unfolding succeeds posts log_failure
  GivenUp-persisted attempt db p e h =
      let reason = reason_of (replies attempt) in
      let o = outbox-upsert_dlq reason attempt (failed attempt db) in
      record {
        verdict = ground arith;
        logged = ground (arith, o.1);
        letters = dead refl p (
          dead_letter d reason attempt now (failed attempt db),
          find_entry-dead_letter d reason attempt now (failed attempt db),
          omega (arith, dead_letter-counted d reason attempt now (failed attempt db)),
        );
        outbox = o.0;
        subscriptions = o.2;
        versions = o.3;
      }

  give_up-GivenUp :
      (attempt : ℕ) (db : Database)
      → GivenUp attempt db
          (give_up d replies max_attempts persist_dlq now attempt (failed attempt db))
  give_up-GivenUp attempt db = elim (Bool-cases persist_dlq) [
    | inl p ↦
        subst (GivenUp attempt db) (sym (give_up_persisted attempt (failed attempt db) p))
          (GivenUp-persisted attempt db p)
    | inr p ↦
        subst (GivenUp attempt db) (sym (give_up_dropped attempt (failed attempt db) p))
          (GivenUp-dropped attempt db p)
  ]

  later-Letters :
      (rounds attempt : ℕ) (db : Database) (out : Bool × Database)
      → 0 < rounds
      → Letters d replies max_attempts persist_dlq now rounds (failed attempt db) out
      → Letters d replies max_attempts persist_dlq now (suc rounds) db out
  unfolding log_failure
  later-Letters rounds attempt db out more (answered v e) = answered v e
  later-Letters rounds attempt db out more (unwanted v p e) = unwanted v p e
  later-Letters rounds attempt db out more (untried v z e) = absurd (omega arith)
  later-Letters rounds attempt db out more (dead v p e) = dead v p e

  later :
      (rounds attempt : ℕ) (db : Database) (out : Bool × Database)
      → accepted (replies attempt) ≡ false
      → 0 < rounds
      → IsAttempted d replies max_attempts persist_dlq now rounds
          (attempt + 1)
          (failed attempt db)
          out
      → IsAttempted d replies max_attempts persist_dlq now (suc rounds) attempt db out
  unfolding succeeds posts log_failure
  later rounds attempt db out h more l = record {
    verdict = ground (arith, l.verdict);
    logged = ground (arith, l.logged);
    letters = later-Letters rounds attempt db out more l.letters;
    outbox = l.outbox;
    subscriptions = l.subscriptions;
    versions = l.versions;
  }

  abbrev from : ℕ → ℕ → Database → Bool × Database
  from = attempts_from d replies max_attempts persist_dlq now

  from_success :
      (rounds attempt : ℕ) (db : Database)
      → accepted (replies attempt) ≡ true
      → from (suc rounds) attempt db ≡ (true, log_success d attempt now db)
  unfolding attempts_from
  from_success rounds attempt db h = rw h

  from_last :
      (rounds attempt : ℕ) (db : Database)
      → accepted (replies attempt) ≡ false
      → attempt ≡ max_attempts
      → from (suc rounds) attempt db
        ≡ give_up d replies max_attempts persist_dlq now attempt (failed attempt db)
  unfolding attempts_from
  from_last rounds attempt db h e = ground arith

  from_later :
      (rounds attempt : ℕ) (db : Database)
      → accepted (replies attempt) ≡ false
      → attempt < max_attempts
      → from (suc rounds) attempt db ≡ from rounds (attempt + 1) (failed attempt db)
  unfolding attempts_from
  from_later rounds attempt db h e = ground arith

  loop :
      (rounds attempt : ℕ) (db : Database)
      → attempt + rounds ≡ max_attempts + 1
      → IsAttempted d replies max_attempts persist_dlq now rounds attempt db
          (from rounds attempt db)
  unfolding succeeds posts attempts_from
  loop zero attempt db h = record {
    verdict = refl;
    logged = omega arith;
    letters = untried refl refl refl;
    outbox = refl;
    subscriptions = refl;
    versions = refl;
  }
  loop (suc zero) attempt db h = elim (Bool-cases (accepted (replies attempt))) [
    | inl good ↦
        subst (IsAttempted d replies max_attempts persist_dlq now 1 attempt db)
          (sym (from_success 0 attempt db good)) (success 0 attempt db good)
    | inr bad ↦
        let e : attempt ≡ max_attempts = omega arith in
        subst (IsAttempted d replies max_attempts persist_dlq now 1 attempt db)
          (sym (from_last 0 attempt db bad e)) (give_up-GivenUp attempt db e bad)
  ]
  loop (suc (suc rounds)) attempt db h = elim (Bool-cases (accepted (replies attempt))) [
    | inl good ↦
        subst (IsAttempted d replies max_attempts persist_dlq now (suc (suc rounds)) attempt db)
          (sym (from_success (suc rounds) attempt db good)) (success (suc rounds) attempt db good)
    | inr bad ↦
        subst (IsAttempted d replies max_attempts persist_dlq now (suc (suc rounds)) attempt db)
          (sym (from_later (suc rounds) attempt db bad (omega arith)))
          (later (suc rounds) attempt db _ bad (omega arith)
            (loop (suc rounds) (attempt + 1) (failed attempt db) (omega arith)))
  ]

  active_only :
      (db : Database)
      → d.subscription.active ≡ true
      → deliver_with_retry d replies max_attempts persist_dlq now db ≡ from max_attempts 1 db
  unfolding deliver_with_retry
  active_only db on = ground arith

  pub deliver_with_retry-inactive :
      (db : Database)
      → d.subscription.active ≡ false
      → deliver_with_retry d replies max_attempts persist_dlq now db ≡ (false, db)
  unfolding deliver_with_retry
  deliver_with_retry-inactive db off = ground arith

  -- A delivery to an active subscription makes at most `max_attempts` posts, one log row for each; it
  -- returns true exactly if one of them was answered by a 2xx status, with the dead letter queue as it was;
  -- if it returns false, then the queue is as it was where dead letters are not wanted or no attempt is
  -- allowed, and otherwise has the event with all attempts counted. The outbox and the subscriptions are
  -- not touched.
  pub deliver_with_retry-IsAttempted :
      (db : Database)
      → d.subscription.active ≡ true
      → IsAttempted d replies max_attempts persist_dlq now max_attempts 1 db
          (deliver_with_retry d replies max_attempts persist_dlq now db)
        × (posts replies max_attempts 1 ≤ max_attempts)
  deliver_with_retry-IsAttempted db on = (
    subst (IsAttempted d replies max_attempts persist_dlq now max_attempts 1 db)
        (sym (active_only db on)) (loop max_attempts 1 db (omega arith)),
    posts-le replies max_attempts 1,
  )

  -- A delivery does not touch the outbox.
  pub outbox-deliver_with_retry :
      (db : Database)
      → (deliver_with_retry d replies max_attempts persist_dlq now db).1.outbox ≡ db.outbox
  outbox-deliver_with_retry db = elim (Bool-cases d.subscription.active) [
    | inl on ↦ (deliver_with_retry-IsAttempted db on).0.outbox
    | inr off ↦ ap (λ (o : Bool × Database). o.1.outbox) (deliver_with_retry-inactive db off)
  ]

  -- A delivery does not touch the versions.
  pub versions-deliver_with_retry :
      (db : Database)
      → (deliver_with_retry d replies max_attempts persist_dlq now db).1.versions ≡ db.versions
  versions-deliver_with_retry db = elim (Bool-cases d.subscription.active) [
    | inl on ↦ (deliver_with_retry-IsAttempted db on).0.versions
    | inr off ↦ ap (λ (o : Bool × Database). o.1.versions) (deliver_with_retry-inactive db off)
  ]

  outbox_pending-attempts_from :
      (rounds attempt : ℕ) (db : Database)
      → (from rounds attempt db).1.outbox_pending ≡ db.outbox_pending
  unfolding attempts_from log_success log_failure give_up upsert_dlq
  outbox_pending-attempts_from zero attempt db = refl
  outbox_pending-attempts_from (suc rounds) attempt db =
      let ih = outbox_pending-attempts_from rounds (attempt + 1) (failed attempt db) in
      elim (Bool-cases (accepted (replies attempt))) [
        | inl good ↦ rw good refl
        | inr bad ↦ elim (Bool-cases (attempt == max_attempts)) [
          | inl last ↦ elim (Bool-cases persist_dlq) [
            | inl wanted ↦ rw (bad, last, wanted) refl
            | inr dropped ↦ rw (bad, last, dropped) refl
          ]
          | inr more ↦ rw (bad, more) ih
        ]
      ]

  -- A delivery does not set the gauge of the outbox.
  pub outbox_pending-deliver_with_retry :
      (db : Database)
      → (deliver_with_retry d replies max_attempts persist_dlq now db).1.outbox_pending
        ≡ db.outbox_pending
  outbox_pending-deliver_with_retry db = elim (Bool-cases d.subscription.active) [
    | inl on ↦
        ap (λ (o : Bool × Database). o.1.outbox_pending) (active_only db on)
        ∙ outbox_pending-attempts_from max_attempts 1 db
    | inr off ↦
        ap (λ (o : Bool × Database). o.1.outbox_pending) (deliver_with_retry-inactive db off)
  ]
