-- ===== src/Runtime/Outbox/Workers.antt =====
-- Two workers: what the row locks keep apart, and what they do not once the first row's commit has ended the
-- transaction that held them.
use schema_pilot_api_contrac.Base.{
  ℕ, ◌≤◌, ◌≡◌, ◌≢◌, refl, sym, ap, ◌∙◌, subst, inl, inr, Bool, true, false, not, ◌&&◌, ◌==◌, List,
  [], ◌∷◌, ◌++◌, map, arith, nat_eq,
}
use schema_pilot_api_contrac.Base.Sequence.{
  Elem, length, filter, sort_by, Elem-filter, Elem-sort_by, Elem-take, Elem-filter_of,
  Elem-sort_by_of, Elem-take_of, length-sort_by,
}
use schema_pilot_api_contrac.Runtime.Database.{Database, OutboxItem}
use schema_pilot_api_contrac.Runtime.Subscriptions.{get_subscription}
use schema_pilot_api_contrac.Runtime.Webhook.{Reply}
use schema_pilot_api_contrac.Runtime.Outbox.{
  on_id, due_rows, update_item, mark_delivering, process_item,
}
use schema_pilot_api_contrac.Runtime.Outbox.Shared.{
  RowLock, held, alone, select_batch, commit, begin_item,
}
use schema_pilot_api_contrac.Runtime.Outbox.Transitions.{taken, settled, outbox-process_item}
use schema_pilot_api_contrac.Runtime.Outbox.Polling.{is_due}

Elem-on_id :
    (i : ℕ) (f : OutboxItem → OutboxItem) (o : OutboxItem) (os : List OutboxItem)
    → o.id ≢ i
    → Elem o os
    → Elem o (map (on_id i f) os)
Elem-on_id i f o [] ne h = elim h [ ]
Elem-on_id i f o (p ∷ ps) ne (inl e) =
    inl (subst (λ (q : OutboxItem). on_id i f q ≡ o) (sym e) (ground arith))
Elem-on_id i f o (p ∷ ps) ne (inr later) = inr (Elem-on_id i f o ps ne later)

length-filter_and-le :
    (p q : OutboxItem → Bool) (os : List OutboxItem)
    → length (filter (λ o. p o && q o) os) ≤ length (filter q os)
length-filter_and-le p q [] = omega arith
length-filter_and-le p q (o ∷ os) = ground (arith, length-filter_and-le p q os)

-- A row that is due and that nobody else holds is in a batch that is large enough.
Elem-due_rows :
    (locked : ℕ → Bool) (n now : ℕ) (db : Database) (o : OutboxItem)
    → locked o.id ≡ false
    → length (filter (is_due now) db.outbox) ≤ n
    → Elem o db.outbox
    → is_due now o ≡ true
    → Elem o (due_rows locked n now db)
Elem-due_rows locked n now db o free small there due =
    let open_rows = filter (λ r. not (locked r.id) && is_due now r) db.outbox in
    Elem-take_of n o (sort_by (λ i. i.created_at) open_rows)
      (omega (
        arith,
        small,
        length-sort_by (λ (i : OutboxItem). i.created_at) open_rows,
        length-filter_and-le (λ r. not (locked r.id)) (is_due now) db.outbox,
      ))
      (Elem-sort_by_of (λ i. i.created_at) o open_rows
        (Elem-filter_of (λ r. not (locked r.id) && is_due now r) o db.outbox there
          (ground (arith, free, due))))

-- A row of a batch stands in the table, is due, and is held by nobody else.
due_rows-due :
    (locked : ℕ → Bool) (n now : ℕ) (db : Database) (o : OutboxItem)
    → Elem o (due_rows locked n now db)
    → Elem o db.outbox × (locked o.id ≡ false) × (is_due now o ≡ true)
due_rows-due locked n now db o h =
    let open_rows = filter (λ r. not (locked r.id) && is_due now r) db.outbox in
    let (there, good) =
      Elem-filter (λ r. not (locked r.id) && is_due now r) o db.outbox
        (Elem-sort_by (λ i. i.created_at) o open_rows
          (Elem-take n o (sort_by (λ i. i.created_at) open_rows) h)) in
    (there, ground (arith, good), ground (arith, good))

module _ (a b : ℕ) (ne : a ≢ b) where
  abbrev locks_of : List OutboxItem → List RowLock
  locks_of items = map (λ o. record { worker = a; row = o.id }) items ++ []

  held-locks_of :
      (o : OutboxItem) (items : List OutboxItem)
      → Elem o items
      → held b (locks_of items) o.id ≡ true
  unfolding held
  held-locks_of o [] h = elim h [ ]
  held-locks_of o (p ∷ ps) (inl e) =
      subst (λ (r : OutboxItem). held b (locks_of (p ∷ ps)) r.id ≡ true) e (ground arith)
  held-locks_of o (p ∷ ps) (inr later) = ground (arith, held-locks_of o ps later)

  held-released :
      (items : List OutboxItem) (i : ℕ)
      → held b (filter (λ l. not (l.worker == a)) (locks_of items)) i ≡ false
  unfolding held
  held-released [] i = refl
  held-released (p ∷ ps) i = ground (arith, held-released ps i)

-- What a second worker selects, by how far the first one is: before its first commit, behind the update of
-- its first row and the commit, and behind the delivery of that row.
pub record IsOvertaken (a b n m : ℕ) (reply : Reply) (now : ℕ) (db : Database)
    (first other : OutboxItem) : Type 0 where
  pub kept_off :
      (o p : OutboxItem)
      → Elem o (select_batch a n now (alone db)).0
      → Elem p (select_batch b m now (select_batch a n now (alone db)).1).0
      → p.id ≢ o.id
  pub marked :
      Elem other
        (select_batch b m now (begin_item a first now (select_batch a n now (alone db)).1)).0
  pub delivered :
      Elem other
        (select_batch b m now (record (begin_item a first now (select_batch a n now (alone db)).1) {
          db = process_item first reply now db;
        })).0

-- Two workers, and nobody else. As long as the first has not committed, no row of its batch is in the second
-- one's. Once it has marked its first row and committed, and also once it has delivered that row, every
-- other row of its batch is, as it was, in the second one's too, if that batch is large enough: both workers
-- go on to deliver it.
pub select_batch-IsOvertaken :
    (a b n m : ℕ) (reply : Reply) (now : ℕ) (db : Database) (first other : OutboxItem)
    → a ≢ b
    → Elem other (select_batch a n now (alone db)).0
    → other.id ≢ first.id
    → length (filter (is_due now) (update_item first.id (mark_delivering now) db).outbox) ≤ m
    → length (filter (is_due now) (process_item first reply now db).outbox) ≤ m
    → IsOvertaken a b n m reply now db first other
unfolding select_batch begin_item commit update_item held
select_batch-IsOvertaken a b n m reply now db first other ab o ne marked done =
    let batch = due_rows (held a []) n now db in
    let (there, free, due) = due_rows-due (held a []) n now db other o in
    let sub = get_subscription first.subscription_id db in
    let kept = Elem-on_id first.id (mark_delivering now) other db.outbox ne there in
    let left = held b (filter (λ l. not (l.worker == a)) (locks_of a b ab batch)) in
    record {
      kept_off = λ q p mine theirs same.
          let late = (due_rows-due (held b (locks_of a b ab batch)) m now db p theirs).1 in
          let early = held-locks_of a b ab q batch mine in
          let clash : held b (locks_of a b ab batch) p.id ≡ true =
            ap (held b (locks_of a b ab batch)) same ∙ early in
          cc;
      marked =
          Elem-due_rows left m now (update_item first.id (mark_delivering now) db) other
            (held-released a b ab batch other.id) marked kept due;
      delivered =
          Elem-due_rows left m now (process_item first reply now db) other
            (held-released a b ab batch other.id) done
            (subst (Elem other) (sym (outbox-process_item first reply now db)) (
              Elem-on_id first.id (settled first sub (taken sub reply) now) other
                (map (on_id first.id (mark_delivering now)) db.outbox) ne kept))
            due;
    }
