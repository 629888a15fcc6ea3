-- ===== src/Runtime/Registry/Registration.antt =====
-- `upsert_schema_version` as a whole: it returns, it keeps the lineages, and it is idempotent.
use schema_pilot_api_contrac.Base.{
  ◌≡◌, sym, ◌∙◌, ap, subst, inl, inr, Option-cases, String, Bool, false, none, some, arith,
}
use schema_pilot_api_contrac.Base.Result.{Result, ok}
use schema_pilot_api_contrac.Base.Sequence.{find?}
use schema_pilot_api_contrac.Schema.{Schema}
use schema_pilot_api_contrac.Runtime.Database.{Database, Endpoint, SchemaVersionRecord}
use schema_pilot_api_contrac.Runtime.Registry.{
  EndpointKey, has_key, find_endpoint, ensure_endpoint, rows_of, find_fingerprint, Upsert,
  register_version, upsert_schema_version,
}
use schema_pilot_api_contrac.Runtime.Registry.Lineage.{IsLineage}
use schema_pilot_api_contrac.Runtime.Registry.Upsert.{
  HasLineages, IsRegistered, IsEnsured, ensure_endpoint-IsEnsured, found-IsRegistered,
  register_version-Registers,
}

-- What `upsert_schema_version` gives: `db₁` is the database after `ensure_endpoint`.
pub record Registers (k : EndpointKey) (fp : String) (db : Database)
    (r : Result (Upsert × Database)) : Type 0 where
  pub endpoint : Endpoint
  pub row : SchemaVersionRecord
  pub inserted : Bool
  pub db₁ : Database
  pub db' : Database
  pub ensured : IsEnsured k db db₁ endpoint
  pub returned : r ≡ ok ((endpoint, row, inserted), db')
  pub registered : IsRegistered endpoint.id fp db₁ db' row inserted

module _ (k : EndpointKey) (fp : String) (schema : Schema) (classification : String) where
  -- The two ways of the fast path.
  upsert-absent :
      (db db₁ : Database) (e : Endpoint)
      → ensure_endpoint k db ≡ ok (e, db₁)
      → find_fingerprint e.id fp db₁ ≡ none
      → upsert_schema_version k fp schema classification db
        ≡ register_version e fp schema classification db₁
  unfolding upsert_schema_version
  upsert-absent db db₁ e h absent = ground arith

  upsert-here :
      (db db₁ : Database) (e : Endpoint) (row : SchemaVersionRecord)
      → ensure_endpoint k db ≡ ok (e, db₁)
      → find_fingerprint e.id fp db₁ ≡ some row
      → upsert_schema_version k fp schema classification db ≡ ok ((e, row, false), db₁)
  unfolding upsert_schema_version
  upsert-here db db₁ e row h here = ground arith

  again :
      (db₁ db' : Database) (e : Endpoint) (row : SchemaVersionRecord)
      → find_endpoint k db₁ ≡ some e
      → db'.endpoints ≡ db₁.endpoints
      → find_fingerprint e.id fp db' ≡ some row
      → upsert_schema_version k fp schema classification db' ≡ ok ((e, row, false), db')
  unfolding ensure_endpoint
  again db₁ db' e row found same here =
      let found' : find_endpoint k db' ≡ some e = ap (find? (has_key k)) same ∙ found in
      upsert-here db' db' e row (rw (found', ensure_endpoint)) here

-- From a database whose every endpoint has a lineage of versions, registering a schema always returns; the
-- database that it leaves has lineages again; other endpoints' versions are untouched; and either the
-- fingerprint was there, and nothing changes but that the endpoint's row is made if it is missing, or it
-- was not, and the new row has the next version number, links to the row before it, and alone is current.
pub upsert_schema_version-Registers :
    (k : EndpointKey) (fp : String) (schema : Schema) (classification : String) (db : Database)
    → HasLineages db
    → Registers k fp db (upsert_schema_version k fp schema classification db)
upsert_schema_version-Registers k fp schema classification db l =
    let (e, db₁, ens) = ensure_endpoint-IsEnsured k db in
    let l₁ : HasLineages db₁ = λ d. subst (λ vs. IsLineage (rows_of d vs)) (sym ens.kept) (l d) in
    elim (Option-cases (find_fingerprint e.id fp db₁)) [
      | inl absent ↦
          let (row, inserted, db', returned, registered) =
            register_version-Registers e fp schema classification db₁ l₁ in
          record {
            endpoint = e;
            row = row;
            inserted = inserted;
            db₁ = db₁;
            db' = db';
            ensured = ens;
            returned =
                upsert-absent k fp schema classification db db₁ e ens.returned absent ∙ returned;
            registered = registered;
          }
      | inr (row, here) ↦ record {
        endpoint = e;
        row = row;
        inserted = false;
        db₁ = db₁;
        db' = db₁;
        ensured = ens;
        returned = upsert-here k fp schema classification db db₁ e row ens.returned here;
        registered = found-IsRegistered e fp schema classification db₁ row l₁ here;
      }
    ]

-- Registering the same fingerprint for the same endpoint again, with any schema and class, returns the
-- same row, says that nothing was inserted, and leaves the database as it is.
pub upsert_schema_version_again :
    (k : EndpointKey) (fp : String) (schema schema' : Schema)
    (classification classification' : String) (db db' : Database) (e : Endpoint)
    (row : SchemaVersionRecord) (inserted : Bool)
    → HasLineages db
    → upsert_schema_version k fp schema classification db ≡ ok ((e, row, inserted), db')
    → upsert_schema_version k fp schema' classification' db' ≡ ok ((e, row, false), db')
upsert_schema_version_again k fp schema schema' classification classification' db db' e row inserted
      l h =
    let r = upsert_schema_version-Registers k fp schema classification db l in
    let out : ok ((r.endpoint, r.row, r.inserted), r.db') ≡ ok ((e, row, inserted), db') =
      sym r.returned ∙ h in
    let next =
      again k fp schema' classification' r.db₁ r.db' r.endpoint r.row r.ensured.found
        r.registered.endpoints r.registered.findable in
    cc (out, next)
