-- ===== src/Runtime/Registry/Upsert.antt =====
-- Registering a schema keeps every lineage, and never fails.
use schema_pilot_api_contrac.Base.{
  ℕ, ◌+◌, ◌≤◌, ◌≡◌, refl, sym, ◌∙◌, ap, subst, ◌≢◌, ◌⊎◌, inl, inr, Bool-cases, Option-cases, String,
  Bool, true, false, ◌&&◌, none, some, List, [], ◌∷◌, map, arith, ◌==◌, nat_eq, string_eq,
}
use schema_pilot_api_contrac.Base.Result.{Result, ok}
use schema_pilot_api_contrac.Base.Sequence.{All, length, find?}
use schema_pilot_api_contrac.Schema.{Schema}
use schema_pilot_api_contrac.Runtime.Database.{Database, Endpoint, SchemaVersionRecord}
use schema_pilot_api_contrac.Runtime.Registry.{
  EndpointKey, endpoint_name_of, find_endpoint, insert_endpoint, ensure_endpoint, rows_of,
  find_fingerprint, retire_all, conflicts, insert_version, new_row, Upsert, register_version,
}
use schema_pilot_api_contrac.Runtime.Registry.Lineage.{
  head?, Lacks, Lacks-retired, IsLineage, get_current_schema-head, next_version-head, version-le,
  retired, rows_of-retire, rows_of-retire_ne, IsLineage-cons, find_fingerprint-none, conflicts-none,
}

-- Every endpoint's rows are a lineage.
abbrev pub HasLineages : Database → Type 0
HasLineages db = (e : ℕ) → IsLineage (rows_of e db.versions)

-- The row stands in the list.
abbrev pub OneOf : SchemaVersionRecord → List SchemaVersionRecord → Type 0
OneOf row [] = ⊥
OneOf row (v ∷ vs) = (v ≡ row) ⊎ OneOf row vs

-- What a registration of fingerprint `fp` for endpoint `e` leaves, and the row and the flag it returns.
pub record IsRegistered (e : ℕ) (fp : String) (db db' : Database) (row : SchemaVersionRecord)
    (inserted : Bool) : Type 0 where
  pub lineages : HasLineages db'
  pub fingerprint : row.fingerprint ≡ fp
  pub findable : find_fingerprint e fp db' ≡ some row
  pub endpoints : db'.endpoints ≡ db.endpoints
  pub others : (d : ℕ) → d ≢ e → rows_of d db'.versions ≡ rows_of d db.versions
  pub outcome :
      ((inserted ≡ false) × (db' ≡ db) × OneOf row (rows_of e db.versions))
      ⊎ ((inserted ≡ true)
          × Lacks fp (rows_of e db.versions)
          × (row.version ≡ length (rows_of e db.versions) + 1)
          × (rows_of e db'.versions ≡ row ∷ map retired (rows_of e db.versions)))

find_fingerprint-some :
    (e : ℕ) (fp : String) (vs : List SchemaVersionRecord) (row : SchemaVersionRecord)
    → find? (λ v. v.endpoint_id == e && v.fingerprint == fp) vs ≡ some row
    → (row.fingerprint ≡ fp) × OneOf row (rows_of e vs)
find_fingerprint-some e fp [] row h = absurd (cc)
find_fingerprint-some e fp (v ∷ vs) row h = elim (Bool-cases (v.endpoint_id == e)) [
  | inl same ↦ elim (Bool-cases (v.fingerprint == fp)) [
    | inl here ↦ rw same (ground arith, inl (ground arith))
    | inr later ↦ let r = find_fingerprint-some e fp vs row (ground arith) in rw same (r.0, inr r.1)
  ]
  | inr other ↦ rw other (find_fingerprint-some e fp vs row (ground arith))
]

-- The update of the older rows, whether or not there is a current one.
retire_all-rows :
    (e : ℕ) (db : Database) (rows : List SchemaVersionRecord)
    → rows_of e db.versions ≡ rows
    → (rows_of e (retire_all e (head? rows) db).versions ≡ map retired rows)
      × ((d : ℕ)
          → d ≢ e
          → rows_of d (retire_all e (head? rows) db).versions ≡ rows_of d db.versions)
unfolding retire_all
retire_all-rows e db [] h = (h, λ d ne. refl)
retire_all-rows e db (v ∷ vs) h = (
  rows_of-retire e db.versions ∙ ap (map retired) h,
  λ d ne. rows_of-retire_ne d e db.versions ne,
)

IsRetired-bounds :
    (rows : List SchemaVersionRecord) (n : ℕ)
    → All (λ v. v.version ≤ n) rows
    → All (λ v. v.version ≤ n) (map retired rows)
IsRetired-bounds [] n h = tt
IsRetired-bounds (v ∷ vs) n h = (h.0, IsRetired-bounds vs n h.1)

module _ (e : Endpoint) (fp : String) (schema : Schema) (classification : String)
    (db : Database) where
  abbrev pub rows : List SchemaVersionRecord
  rows = rows_of e.id db.versions

  abbrev pub fresh : SchemaVersionRecord
  fresh = new_row db.next_id e.id fp schema classification (head? rows)

  -- The table after the insertion.
  abbrev pub after : Database
  after =
      let older = retire_all e.id (head? rows) db in
      record older { next_id = older.next_id + 1; versions = fresh ∷ older.versions }

  no_conflict :
      HasLineages db
      → Lacks fp rows
      → find? (conflicts fresh) (retire_all e.id (head? rows) db).versions ≡ none
  no_conflict l lacks =
      let q = (retire_all-rows e.id db rows refl).0 in
      let chain = (l e.id).chain in
      conflicts-none fresh (retire_all e.id (head? rows) db).versions (length rows)
        (rw q
          (IsRetired-bounds rows (length rows) (version-le rows (length rows) chain (omega arith))))
        (rw q (Lacks-retired fp rows lacks)) (omega (arith, next_version-head rows chain))

  insert_version-fresh :
      HasLineages db
      → Lacks fp rows
      → insert_version fresh (retire_all e.id (head? rows) db) ≡ ok (fresh, after)
  unfolding insert_version
  insert_version-fresh l lacks = rw (no_conflict l lacks, insert_version)

  rows_of-after : rows_of e.id after.versions ≡ fresh ∷ map retired rows
  rows_of-after = ground (arith, (retire_all-rows e.id db rows refl).0)

  rows_of-after_ne : (d : ℕ) → d ≢ e.id → rows_of d after.versions ≡ rows_of d db.versions
  rows_of-after_ne d ne = ground (arith, (retire_all-rows e.id db rows refl).1 d ne)

  after-HasLineages : HasLineages db → Lacks fp rows → HasLineages after
  after-HasLineages l lacks d = elim (Bool-cases (d == e.id)) [
    | inl same ↦
        let p : d ≡ e.id = ground arith in
        subst (λ x. IsLineage (rows_of x after.versions)) (sym p)
          (subst IsLineage (sym rows_of-after) (
            IsLineage-cons fresh rows (l e.id) (next_version-head rows (l e.id).chain) refl refl
              lacks))
    | inr other ↦ subst IsLineage (sym (rows_of-after_ne d (λ p. ground arith))) (l d)
  ]

  findable-after : find_fingerprint e.id fp after ≡ some fresh
  unfolding find_fingerprint
  findable-after = ground arith

  endpoints-after : after.endpoints ≡ db.endpoints
  unfolding retire_all
  endpoints-after = ground arith

  after-IsRegistered : HasLineages db → Lacks fp rows → IsRegistered e.id fp db after fresh true
  after-IsRegistered l lacks = record {
    lineages = after-HasLineages l lacks;
    fingerprint = refl;
    findable = findable-after;
    endpoints = endpoints-after;
    others = rows_of-after_ne;
    outcome = inr (refl, lacks, next_version-head rows (l e.id).chain, rows_of-after);
  }

  pub found-IsRegistered :
      (row : SchemaVersionRecord)
      → HasLineages db
      → find_fingerprint e.id fp db ≡ some row
      → IsRegistered e.id fp db db row false
  unfolding find_fingerprint
  found-IsRegistered row l h =
      let r = find_fingerprint-some e.id fp db.versions row h in
      record {
        lineages = l;
        fingerprint = r.0;
        findable = h;
        endpoints = refl;
        others = λ d ne. refl;
        outcome = inl (refl, refl, r.1);
      }

  -- What a registration gives: always a result.
  abbrev pub Registers : Result (Upsert × Database) → Type 0
  Registers r =
      (row : SchemaVersionRecord) × (inserted : Bool) × (db' : Database) × (r
        ≡ ok ((e, row, inserted), db'))
      × IsRegistered e.id fp db db' row inserted

  Lacks-of_none : find_fingerprint e.id fp db ≡ none → Lacks fp rows
  unfolding find_fingerprint
  Lacks-of_none absent = find_fingerprint-none e.id fp db.versions absent

  pub register_version-Registers :
      HasLineages db → Registers (register_version e fp schema classification db)
  unfolding register_version
  register_version-Registers l = elim (Option-cases (find_fingerprint e.id fp db)) [
    | inl absent ↦
        let lacks = Lacks-of_none absent in
        (
          fresh,
          true,
          after,
          rw (
            absent,
            register_version,
            get_current_schema-head e.id db (l e.id),
            insert_version-fresh l lacks,
          ),
          after-IsRegistered l lacks,
        )
    | inr (row, h) ↦ (row, false, db, rw (h, register_version), found-IsRegistered row l h)
  ]

-- What `ensure_endpoint` gives: always an endpoint with the four columns, which it finds again, and no
-- change to the versions.
pub record IsEnsured (k : EndpointKey) (db db' : Database) (e : Endpoint) : Type 0 where
  pub returned : ensure_endpoint k db ≡ ok (e, db')
  pub found : find_endpoint k db' ≡ some e
  pub kept : db'.versions ≡ db.versions

new_endpoint : EndpointKey → ℕ → Endpoint
new_endpoint k id = record {
  id = id;
  namespace = k.namespace;
  service_name = k.service_name;
  http_method = k.http_method;
  route_path = k.route_path;
  endpoint_name = endpoint_name_of k;
}

find_endpoint-insert_endpoint :
    (k : EndpointKey) (db : Database)
    → find_endpoint k db ≡ none
    → find_endpoint k (insert_endpoint k db) ≡ some (new_endpoint k db.next_id)
unfolding insert_endpoint new_endpoint
find_endpoint-insert_endpoint k db absent = rw (absent, insert_endpoint) (ground arith)

versions-insert_endpoint :
    (k : EndpointKey) (db : Database) → (insert_endpoint k db).versions ≡ db.versions
unfolding insert_endpoint
versions-insert_endpoint k db = ground arith

pub ensure_endpoint-IsEnsured :
    (k : EndpointKey) (db : Database) → (e : Endpoint) × (db' : Database) × IsEnsured k db db' e
unfolding ensure_endpoint
ensure_endpoint-IsEnsured k db = elim (Option-cases (find_endpoint k db)) [
  | inl absent ↦
      let again = find_endpoint-insert_endpoint k db absent in
      (
        new_endpoint k db.next_id,
        insert_endpoint k db,
        record {
          returned = rw (absent, ensure_endpoint, again);
          found = again;
          kept = versions-insert_endpoint k db;
        },
      )
  | inr (e, here) ↦
      (e, db, record { returned = rw (here, ensure_endpoint); found = here; kept = refl })
]
