-- ===== src/Tests/Outbox.antt =====
-- Polls of a small outbox.
use schema_pilot_api_contrac.Base.{
  ◌+◌, ◌≤◌, ◌≡◌, refl, some, [], ◌∷◌, map, arith, inl, inr, nat_eq, string_eq,
}
use schema_pilot_api_contrac.Base.Sequence.{length, Elem, insert_by, sort_by, filter}
use schema_pilot_api_contrac.Base.Keyed.{DistinctKeys}
use schema_pilot_api_contrac.Runtime.Database.{Database, DlqEntry, OutboxItem, delivering}
use schema_pilot_api_contrac.Runtime.Subscriptions.{get_subscription}
use schema_pilot_api_contrac.Runtime.Webhook.{Reply, response}
use schema_pilot_api_contrac.Runtime.Webhook.DeadLetters.{find_entry}
use schema_pilot_api_contrac.Runtime.Outbox.{backoff_seconds, due_items, process_item, poll_once}
use schema_pilot_api_contrac.Runtime.Outbox.Backoff.{backoff_seconds_bounds}
use schema_pilot_api_contrac.Runtime.Outbox.Polling.{id_of, polled, is_due, poll_once-polled}
use schema_pilot_api_contrac.Runtime.Outbox.Invariant.{poll_once-drains, poll_once-not_due}
use schema_pilot_api_contrac.Runtime.Outbox.{update_item, mark_delivering}
use schema_pilot_api_contrac.Runtime.Outbox.Shared.{alone, held, select_batch}
use schema_pilot_api_contrac.Runtime.Outbox.Workers.{IsOvertaken, select_batch-IsOvertaken}
use schema_pilot_api_contrac.Runtime.Outbox.Inactive.{process_item-inactive}
use schema_pilot_api_contrac.Tests.Delivery.{muted, waiting, last_try, db}

backoff_seconds_bounds_example :
    (2 ≤ backoff_seconds 3)
    × (backoff_seconds 3 ≤ 60)
    × (backoff_seconds 3 ≤ backoff_seconds (3 + 1))
    × (backoff_seconds (6 + 3) ≡ 60)
backoff_seconds_bounds_example = backoff_seconds_bounds 3

abbrev replies : OutboxItem → Reply
replies o = response 503

ids_distinct : DistinctKeys id_of db.outbox
ids_distinct = (((λ e. cc), ((λ e. cc), tt)), (((λ e. cc), tt), (tt, tt)))

poll_once-polled_example :
    ((poll_once 10 replies 30 db).1.outbox
      ≡ map (polled db.subscriptions replies 30 (due_items 10 30 db)) db.outbox)
    × ((poll_once 10 replies 30 db).0 ≤ 10)
poll_once-polled_example = poll_once-polled 10 replies 30 db ids_distinct

poll_once-drains_example : filter (is_due 30) (poll_once 10 replies 30 db).1.outbox ≡ []
poll_once-drains_example = poll_once-drains 10 replies 30 db ids_distinct (omega arith)

muted_found : get_subscription last_try.subscription_id db ≡ some muted
unfolding get_subscription nat_eq
muted_found = refl

process_item-inactive_example :
    ((entry : DlqEntry) × (find_entry 9 "muted" (process_item last_try (response 200) 30 db).dlq
        ≡ some entry)
      × (2 + 1 ≤ entry.attempt_count))
    × ((process_item last_try (response 200) 30 db).attempts ≡ db.attempts)
process_item-inactive_example =
    process_item-inactive last_try muted (response 200) 30 db muted_found refl (omega arith)

last_try_selected : Elem last_try (select_batch 1 10 30 (alone db)).0
unfolding select_batch held sort_by insert_by
last_try_selected = inr (inl refl)

small_marked : length (filter (is_due 30) (update_item 7 (mark_delivering 30) db).outbox) ≤ 10
unfolding update_item nat_eq
small_marked = omega arith

small_processed :
    length (filter (is_due 30) (process_item waiting (response 200) 30 db).outbox) ≤ 10
unfolding process_item nat_eq
small_processed = omega arith

select_batch-IsOvertaken_example : IsOvertaken 1 2 10 10 (response 200) 30 db waiting last_try
select_batch-IsOvertaken_example =
    select_batch-IsOvertaken 1 2 10 10 (response 200) 30 db waiting last_try (λ e. omega (arith, e))
      last_try_selected (λ e. cc) small_marked small_processed

-- A row whose delivery raised.
abbrev stuck : OutboxItem
stuck = record waiting { id = 3; status = delivering }

abbrev db_stuck : Database
db_stuck = record db { outbox = waiting ∷ stuck ∷ [] }

poll_once-not_due_example : Elem stuck (poll_once 10 replies 30 db_stuck).1.outbox
poll_once-not_due_example =
    poll_once-not_due 10 replies 30 db_stuck stuck (((λ e. cc), tt), (tt, tt)) (inr (inl refl)) refl
