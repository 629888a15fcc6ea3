-- ===== src/Runtime/Webhook/DeadLetters.antt =====
-- The dead letter queue is keyed by event and consumer.
use schema_pilot_api_contrac.Base.{
  ℕ, ◌≤◌, ◌≡◌, refl, ◌∙◌, String, ◌&&◌, Option, none, some, List, [], ◌∷◌, arith, ◌==◌, nat_eq,
  string_eq, if◌then◌else◌,
}
use schema_pilot_api_contrac.Base.Sequence.{length, find?}
use schema_pilot_api_contrac.Runtime.Database.{Database, DlqEntry}
use schema_pilot_api_contrac.Runtime.Webhook.{Delivery, is_entry, merged, upsert_entry, upsert_dlq}

abbrev pub find_entry : ℕ → String → List DlqEntry → Option DlqEntry
find_entry event_id consumer_id ds = find? (is_entry event_id consumer_id) ds

-- At most one entry for each event and consumer: the table's UNIQUE constraint.
abbrev pub DistinctEntries : List DlqEntry → Type 0
DistinctEntries [] = Unit
DistinctEntries (d ∷ ds) = (find_entry d.event_id d.consumer_id ds ≡ none) × DistinctEntries ds

abbrev pub merge_or_new : DlqEntry → ℕ → Option DlqEntry → DlqEntry
merge_or_new new now none = new
merge_or_new new now (some old) = merged new.failure_reason new.attempt_count now old

pub find_entry-upsert_entry :
    (e : ℕ) (c : String) (new : DlqEntry) (now : ℕ) (ds : List DlqEntry)
    → find_entry e c (upsert_entry new now ds) ≡ (
        if is_entry e c new
        then some (merge_or_new new now (find_entry e c ds))
        else find_entry e c ds)
unfolding upsert_entry
find_entry-upsert_entry e c new now [] = ground arith
find_entry-upsert_entry e c new now (d ∷ ds) =
    ground (arith, find_entry-upsert_entry e c new now ds)

upsert_entry-DistinctEntries :
    (new : DlqEntry) (now : ℕ) (ds : List DlqEntry)
    → DistinctEntries ds
    → DistinctEntries (upsert_entry new now ds)
unfolding upsert_entry
upsert_entry-DistinctEntries new now [] h = (refl, tt)
upsert_entry-DistinctEntries new now (d ∷ ds) h = ground (
  arith,
  upsert_entry-DistinctEntries new now ds h.1,
  find_entry-upsert_entry d.event_id d.consumer_id new now ds,
)

-- The attempts on the entry that is there, if any.
abbrev pub counted_before : Option DlqEntry → ℕ
counted_before none = 0
counted_before (some old) = old.attempt_count

merge-counted :
    (new : DlqEntry) (now : ℕ) (o : Option DlqEntry)
    → new.attempt_count ≤ (merge_or_new new now o).attempt_count
merge-counted new now none = omega arith
merge-counted new now (some old) = omega arith

merge-grows :
    (new : DlqEntry) (now : ℕ) (o : Option DlqEntry)
    → counted_before o ≤ (merge_or_new new now o).attempt_count
merge-grows new now none = omega arith
merge-grows new now (some old) = omega arith

-- The entry that a dead letter leaves: a first one, or the old one with the larger attempt count, the new
-- reason and the new time, and with its id, its payload and its creation time.
pub dead_letter : Delivery → String → ℕ → ℕ → Database → DlqEntry
dead_letter d reason count now db =
    merge_or_new
      (record {
        id = db.next_id;
        event_id = d.event_id;
        consumer_id = d.subscription.consumer_id;
        endpoint_id = d.endpoint_id;
        target_url = d.subscription.target_url;
        payload = d.payload;
        failed_at = now;
        failure_reason = reason;
        attempt_count = count;
        created_at = now;
        last_attempt_at = now;
      })
      now (find_entry d.event_id d.subscription.consumer_id db.dlq)

-- What `upsert_dlq` does: what it finds for any event and consumer afterwards, the attempts it counts, and
-- the gauge.
pub record IsUpserted (d : Delivery) (reason : String) (count now : ℕ) (db db' : Database)
    : Type 0 where
  pub found :
      (e : ℕ) (c : String)
      → find_entry e c db'.dlq ≡ (
          if e == d.event_id && c == d.subscription.consumer_id
          then some (dead_letter d reason count now db)
          else find_entry e c db.dlq)
  pub counted : count ≤ (dead_letter d reason count now db).attempt_count
  pub grows :
      counted_before (find_entry d.event_id d.subscription.consumer_id db.dlq)
      ≤ (dead_letter d reason count now db).attempt_count
  pub gauge : db'.dlq_size ≡ length db'.dlq

find_entry-upsert_dlq :
    (d : Delivery) (reason : String) (count now : ℕ) (db : Database) (e : ℕ) (c : String)
    → find_entry e c (upsert_dlq d reason count now db).dlq ≡ (
        if e == d.event_id && c == d.subscription.consumer_id
        then some (dead_letter d reason count now db)
        else find_entry e c db.dlq)
unfolding upsert_dlq dead_letter
find_entry-upsert_dlq d reason count now db e c = simp find_entry-upsert_entry (ground arith)

pub dead_letter-counted :
    (d : Delivery) (reason : String) (count now : ℕ) (db : Database)
    → count ≤ (dead_letter d reason count now db).attempt_count
unfolding dead_letter
dead_letter-counted d reason count now db =
    merge-counted _ now (find_entry d.event_id d.subscription.consumer_id db.dlq)

pub find_entry-dead_letter :
    (d : Delivery) (reason : String) (count now : ℕ) (db : Database)
    → find_entry d.event_id d.subscription.consumer_id (upsert_dlq d reason count now db).dlq
      ≡ some (dead_letter d reason count now db)
find_entry-dead_letter d reason count now db =
    find_entry-upsert_dlq d reason count now db d.event_id d.subscription.consumer_id ∙ ground arith

-- Where no event and consumer has two entries, a dead letter keeps it so; afterwards the event and the
-- consumer have one entry, with at least the given count and at least the count that was there, every other
-- pair has what it had, and the gauge shows the size of the queue.
pub upsert_dlq-IsUpserted :
    (d : Delivery) (reason : String) (count now : ℕ) (db : Database)
    → DistinctEntries db.dlq
    → IsUpserted d reason count now db (upsert_dlq d reason count now db)
      × DistinctEntries (upsert_dlq d reason count now db).dlq
unfolding upsert_dlq dead_letter
upsert_dlq-IsUpserted d reason count now db h = (
  record {
    found = find_entry-upsert_dlq d reason count now db;
    counted = dead_letter-counted d reason count now db;
    grows = merge-grows _ now (find_entry d.event_id d.subscription.consumer_id db.dlq);
    gauge = refl;
  },
  upsert_entry-DistinctEntries _ now db.dlq h,
)
