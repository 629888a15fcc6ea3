-- ===== src/Monitor/Process/Counts.antt =====
-- What an endpoint's turn adds to the tables.
use schema_pilot_api_contrac.Base.{
  ℕ, suc, ◌+◌, String, ◌≡◌, refl, ◌∙◌, true, inl, inr, Bool-cases, Option, none, some, List, [],
  ◌∷◌, ◌++◌, arith,
}
use schema_pilot_api_contrac.Base.Sequence.{length, length-append}
use schema_pilot_api_contrac.Monitor.Types.{SchemaNode}
use schema_pilot_api_contrac.Monitor.Diff.{Diff}
use schema_pilot_api_contrac.Monitor.Tables.{ApiEndpoint, SchemaSnapshot, Tables}
use schema_pilot_api_contrac.Monitor.Process.{
  Environment, FetchResult, fetch_ok, add_diffs, add_all, add_snapshot, diffs_against,
  prior_snapshot, process_fetch, diff_row, new_snapshot, failed_snapshot, nodes_of,
}

-- The second tables are the first with `n` snapshots and `m` differences more.
abbrev pub Grown : ℕ → ℕ → Tables → Tables → Type 0
Grown n m old new =
    (length new.snapshots ≡ length old.snapshots + n)
    × (length new.diffs ≡ length old.diffs + m)
    × (new.runs ≡ old.runs)
    × (new.endpoints ≡ old.endpoints)

add_diffs-Grown :
    (endpoint_id old_id new_id now : ℕ) (ds : List Diff) (tables : Tables)
    → Grown 0 (length ds) tables (add_diffs endpoint_id old_id new_id now ds tables)
unfolding add_diffs
add_diffs-Grown endpoint_id old_id new_id now [] tables = (omega arith, omega arith, refl, refl)
add_diffs-Grown endpoint_id old_id new_id now (d ∷ ds) tables =
    let row = diff_row tables.next_id endpoint_id old_id new_id now d in
    let next : Tables = record tables {
      diffs = tables.diffs ++ (row ∷ []);
      next_id = suc tables.next_id;
    } in
    let rest = add_diffs-Grown endpoint_id old_id new_id now ds next in
    (rest.0, omega (arith, rest.1, length-append tables.diffs (row ∷ [])), rest.2, rest.3)

add_all-Grown :
    (prior : Option SchemaSnapshot) (schema_hash : String) (nodes : List SchemaNode)
    (endpoint_id new_id now : ℕ) (tables : Tables)
    → Grown 0
        (length (diffs_against prior schema_hash nodes))
        tables
        (add_all prior endpoint_id new_id now (diffs_against prior schema_hash nodes) tables)
unfolding add_all diffs_against
add_all-Grown none schema_hash nodes endpoint_id new_id now tables =
    (omega arith, omega arith, refl, refl)
add_all-Grown (some prior) schema_hash nodes endpoint_id new_id now tables =
    add_diffs-Grown endpoint_id prior.id new_id now (diffs_against (some prior) schema_hash nodes)
      tables

add_snapshot-Grown :
    (snap : SchemaSnapshot) (tables : Tables) → Grown 1 0 tables (add_snapshot snap tables)
unfolding add_snapshot
add_snapshot-Grown snap tables =
    (omega (arith, length-append tables.snapshots (snap ∷ [])), omega arith, refl, refl)

module _ (env : Environment) where
  -- A turn whose fetch returns adds one snapshot, and the differences that it counts.
  pub process_fetch-Grown :
      (endpoint : ApiEndpoint) (run_id now : ℕ) (fetch : FetchResult) (tables : Tables)
      → ((process_fetch env endpoint run_id now fetch tables).0.snapshot_created ≡ true)
        × Grown 1
            (process_fetch env endpoint run_id now fetch tables).0.diffs_detected
            tables
            (process_fetch env endpoint run_id now fetch tables).1
  unfolding process_fetch
  process_fetch-Grown endpoint run_id now fetch tables = elim (Bool-cases (fetch_ok fetch)) [
    | inl fine ↦
        let snap = new_snapshot env endpoint run_id now fetch tables in
        let added = add_snapshot-Grown snap tables in
        let more =
          add_all-Grown (prior_snapshot endpoint.id snap.id (add_snapshot snap tables).snapshots)
            snap.schema_hash (nodes_of env fetch) endpoint.id snap.id now
            (add_snapshot snap tables) in
        rw (fine, process_fetch)
          (
            refl,
            (
              omega (arith, more.0, added.0),
              omega (arith, more.1, added.1),
              more.2 ∙ added.2,
              more.3 ∙ added.3,
            ),
          )
    | inr failed ↦
        rw (failed, process_fetch)
          (refl, add_snapshot-Grown (failed_snapshot env endpoint run_id now fetch tables) tables)
  ]
