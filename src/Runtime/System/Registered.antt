-- ===== src/Runtime/System/Registered.antt =====
-- Registering a schema leaves the queues alone.
use schema_pilot_api_contrac.Base.{
  ℕ, ◌+◌, ◌≤◌, ◌≡◌, refl, ◌∙◌, ap, subst, inl, inr, Option-cases, String, true, false, Option, none,
  some, ◌∷◌, arith,
}
use schema_pilot_api_contrac.Base.Result.{Result, ok, ◌>>=◌, >>=-eq-ok, ok-injective}
use schema_pilot_api_contrac.Base.Sequence.{find?}
use schema_pilot_api_contrac.Schema.{Schema}
use schema_pilot_api_contrac.Runtime.Database.{Database, Endpoint, SchemaVersionRecord}
use schema_pilot_api_contrac.Runtime.Registry.{
  EndpointKey, one, find_endpoint, insert_endpoint, ensure_endpoint, find_fingerprint, Upsert,
  get_current_schema, new_row, conflicts, retire_all, insert_version, register_version,
  upsert_schema_version,
}

-- The second database has the queues and the gauges of the first, and ids are drawn upwards.
pub record IsAside (db db' : Database) : Type 0 where
  pub outbox : db'.outbox ≡ db.outbox
  pub dlq : db'.dlq ≡ db.dlq
  pub dlq_size : db'.dlq_size ≡ db.dlq_size
  pub outbox_pending : db'.outbox_pending ≡ db.outbox_pending
  pub drawn : db.next_id ≤ db'.next_id

IsAside-refl : (db : Database) → IsAside db db
IsAside-refl db = record {
  outbox = refl;
  dlq = refl;
  dlq_size = refl;
  outbox_pending = refl;
  drawn = omega arith;
}

IsAside-trans : (db₁ db₂ db₃ : Database) → IsAside db₁ db₂ → IsAside db₂ db₃ → IsAside db₁ db₃
IsAside-trans db₁ db₂ db₃ h k = record {
  outbox = k.outbox ∙ h.outbox;
  dlq = k.dlq ∙ h.dlq;
  dlq_size = k.dlq_size ∙ h.dlq_size;
  outbox_pending = k.outbox_pending ∙ h.outbox_pending;
  drawn = omega (arith, h.drawn, k.drawn);
}

-- The database of a result that is returned.
abbrev Left : {A : Type 0} (db : Database) → Result (A × Database) → Type 0
Left {A} db r = (a : A) (db' : Database) → r ≡ ok (a, db') → IsAside db db'

second :
    {A : Type 0} (a b : A) (db db' : Database)
    → ◌≡◌ {A = Result (A × Database)} (ok (a, db)) (ok (b, db'))
    → db ≡ db'
second {A} a b db db' h = ap (λ (p : A × Database). p.1) (ok-injective (a, db) (b, db') h)

Left-ok : {A : Type 0} (a : A) (db db' : Database) → IsAside db db' → Left db (ok (a, db'))
Left-ok a db db' h b db'' e = subst (IsAside db) (second a b db' db'' e) h

Left-bind :
    {A B : Type 0} (db : Database) (call : Result (A × Database))
    (rest : A × Database → Result (B × Database))
    → Left db call
    → ((a : A) (db' : Database) → Left db' (rest (a, db')))
    → Left db (call >>= rest)
Left-bind db call rest h k b db'' e =
    let (value, called, more) = >>=-eq-ok call rest e in
    IsAside-trans db value.1 db'' (h value.0 value.1 called) (k value.0 value.1 b db'' more)

insert_endpoint-IsAside : (k : EndpointKey) (db : Database) → IsAside db (insert_endpoint k db)
unfolding insert_endpoint
insert_endpoint-IsAside k db = elim (Option-cases (find_endpoint k db)) [
  | inl absent ↦
      rw (absent, insert_endpoint)
        (record {
          outbox = refl;
          dlq = refl;
          dlq_size = refl;
          outbox_pending = refl;
          drawn = omega arith;
        })
  | inr (e, there) ↦ rw (there, insert_endpoint) (IsAside-refl db)
]

ensure_endpoint-Left : (k : EndpointKey) (db : Database) → Left db (ensure_endpoint k db)
unfolding ensure_endpoint
ensure_endpoint-Left k db = elim (Option-cases (find_endpoint k db)) [
  | inr (e, there) ↦ rw (there, ensure_endpoint) (Left-ok e db db (IsAside-refl db))
  | inl absent ↦
      rw (absent, ensure_endpoint)
        (λ e db' out.
          let made = insert_endpoint k db in
          let finish : Endpoint → Result (Endpoint × Database) = λ found. ok (found, made) in
          let (found, there, end) = >>=-eq-ok (one (find_endpoint k made)) finish out in
          Left-ok found db made (insert_endpoint-IsAside k db) e db' end)
]

retire_all-IsAside :
    (e : ℕ) (current : Option SchemaVersionRecord) (db : Database)
    → IsAside db (retire_all e current db)
unfolding retire_all
retire_all-IsAside e none db = IsAside-refl db
retire_all-IsAside e (some current) db = record {
  outbox = refl;
  dlq = refl;
  dlq_size = refl;
  outbox_pending = refl;
  drawn = omega arith;
}

insert_version-Left : (row : SchemaVersionRecord) (db : Database) → Left db (insert_version row db)
unfolding insert_version
insert_version-Left row db = elim (Option-cases (find? (conflicts row) db.versions)) [
  | inl free ↦
      rw (free, insert_version)
        (Left-ok row db (record db { next_id = db.next_id + 1; versions = row ∷ db.versions })
          (record {
            outbox = refl;
            dlq = refl;
            dlq_size = refl;
            outbox_pending = refl;
            drawn = omega arith;
          }))
  | inr (v, taken) ↦ rw (taken, insert_version) (λ a db' e. ground arith)
]

module _ (fp : String) (schema : Schema) (classification : String) where
  register_version-Left :
      (e : Endpoint) (db : Database) → Left db (register_version e fp schema classification db)
  unfolding register_version
  register_version-Left e db = elim (Option-cases (find_fingerprint e.id fp db)) [
    | inr (found, there) ↦
        rw (there, register_version) (Left-ok (e, found, false) db db (IsAside-refl db))
    | inl absent ↦
        rw (absent, register_version)
          (let current = get_current_schema e.id db in
            let fresh = new_row db.next_id e.id fp schema classification current in
            let finish : SchemaVersionRecord × Database → Result (Upsert × Database) =
              λ made. ok ((e, made.0, true), made.1) in
            Left-bind db (insert_version fresh (retire_all e.id current db)) finish
              (λ row db' out.
                IsAside-trans db (retire_all e.id current db) db'
                  (retire_all-IsAside e.id current db)
                  (insert_version-Left fresh (retire_all e.id current db) row db' out))
              (λ row db'. Left-ok (e, row, true) db' db' (IsAside-refl db')))
  ]

  pub upsert_schema_version-Left :
      (k : EndpointKey) (db : Database)
      → (out : Upsert) (db' : Database)
      → upsert_schema_version k fp schema classification db ≡ ok (out, db')
      → IsAside db db'
  unfolding upsert_schema_version
  upsert_schema_version-Left k db =
      let finish : Endpoint × Database → Result (Upsert × Database) = λ made.
        elim (find_fingerprint made.0.id fp made.1) [
          | some fast_row ↦ ok ((made.0, fast_row, false), made.1)
          | none ↦ register_version made.0 fp schema classification made.1
        ] in
      Left-bind db (ensure_endpoint k db) finish (ensure_endpoint-Left k db) (λ e db'.
        elim (Option-cases (find_fingerprint e.id fp db')) [
          | inr (found, there) ↦ rw there (Left-ok (e, found, false) db' db' (IsAside-refl db'))
          | inl absent ↦ rw absent (register_version-Left e db')
        ])
