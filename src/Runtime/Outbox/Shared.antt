-- ===== src/Runtime/Outbox/Shared.antt =====
-- app/workers/outbox_worker.py: several workers on one database, each with its own transaction. A lock on a
-- row is held from the query that selects it to the next commit of the worker that holds it.
use schema_pilot_api_contrac.Base.{
  ℕ, Bool, false, not, ◌&&◌, ◌||◌, List, [], ◌∷◌, ◌++◌, map, ◌==◌, nat_eq,
}
use schema_pilot_api_contrac.Base.Sequence.{filter}
use schema_pilot_api_contrac.Runtime.Database.{Database, OutboxItem}
use schema_pilot_api_contrac.Runtime.Outbox.{due_rows, update_item, mark_delivering}

-- A worker and the row that it has locked.
pub record RowLock : Type 0 where
  pub worker : ℕ
  pub row : ℕ

pub record Shared : Type 0 where
  pub db : Database
  pub locks : List RowLock

-- No transaction is under way.
abbrev pub alone : Database → Shared
alone db = record { db = db; locks = [] }

-- Whether a worker other than the given one holds the lock of a row.
unfoldable pub held : ℕ → List RowLock → ℕ → Bool
held worker [] i = false
held worker (l ∷ ls) i = (not (l.worker == worker) && l.row == i) || held worker ls i

-- `_poll_once`'s query: rows that others hold are skipped, and the rows that it gives are locked.
unfoldable pub select_batch : ℕ → ℕ → ℕ → Shared → List OutboxItem × Shared
unfolding held
select_batch worker batch_size now shared =
    let items = due_rows (held worker shared.locks) batch_size now shared.db in
    (
      items,
      record shared {
        locks = map (λ o. record { worker = worker; row = o.id }) items ++ shared.locks;
      },
    )

-- `db.commit()`: the end of the worker's transaction.
unfoldable pub commit : ℕ → Shared → Shared
commit worker shared = record shared { locks = filter (λ l. not (l.worker == worker)) shared.locks }

-- The update to DELIVERING and the commit behind it, with which the body of the loop begins.
unfoldable pub begin_item : ℕ → OutboxItem → ℕ → Shared → Shared
unfolding commit update_item
begin_item worker item now shared =
    commit worker (record shared { db = update_item item.id (mark_delivering now) shared.db })
