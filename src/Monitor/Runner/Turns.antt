-- ===== src/Monitor/Runner/Turns.antt =====
-- What the turns of all endpoints, and the sweep after them, leave of the tables.
use schema_pilot_api_contrac.Base.{ℕ, suc, ◌+◌, ◌≡◌, refl, ◌∙◌, ap, Bool, List, [], ◌∷◌, map, arith}
use schema_pilot_api_contrac.Base.Sequence.{length}
use schema_pilot_api_contrac.Base.Result.{Result, raised, ok, ◌>>=◌}
use schema_pilot_api_contrac.Monitor.Tables.{ApiEndpoint, SchemaSnapshot, Tables}
use schema_pilot_api_contrac.Monitor.Process.{
  Environment, FetchResult, EndpointResult, process_endpoint, process_fetch,
}
use schema_pilot_api_contrac.Monitor.Process.Counts.{Grown, process_fetch-Grown}
use schema_pilot_api_contrac.Monitor.Runner.{
  keep_ids, clear_sample, sweep_endpoint, sweep_all, retention_sweep, count_snapshots, count_diffs,
  outcome_of, tables_after, process_all,
}

length-map : {A B : Type 0} (f : A → B) (xs : List A) → length (map f xs) ≡ length xs
length-map f [] = refl
length-map f (x ∷ xs) = ap suc (length-map f xs)

length-sweep_endpoint :
    (none_as_null : Bool) (keep id : ℕ) (snapshots : List SchemaSnapshot)
    → length (sweep_endpoint none_as_null keep id snapshots) ≡ length snapshots
unfolding sweep_endpoint
length-sweep_endpoint none_as_null keep id snapshots = split (keep_ids keep id snapshots) refl
  where
    split :
        (ids : List ℕ)
        → keep_ids keep id snapshots ≡ ids
        → length (sweep_endpoint none_as_null keep id snapshots) ≡ length snapshots
    split [] e = rw (e, sweep_endpoint) refl
    split (i ∷ ids) e =
        rw (e, sweep_endpoint) (length-map (clear_sample none_as_null id (i ∷ ids)) snapshots)

length-sweep_all :
    (none_as_null : Bool) (keep : ℕ) (eps : List ApiEndpoint) (snapshots : List SchemaSnapshot)
    → length (sweep_all none_as_null keep eps snapshots) ≡ length snapshots
unfolding sweep_all
length-sweep_all none_as_null keep [] snapshots = refl
length-sweep_all none_as_null keep (ep ∷ eps) snapshots =
    length-sweep_all none_as_null keep eps (sweep_endpoint none_as_null keep ep.id snapshots)
    ∙ length-sweep_endpoint none_as_null keep ep.id snapshots

pub retention_sweep-Grown :
    (none_as_null : Bool) (tables : Tables) → Grown 0 0 tables (retention_sweep none_as_null tables)
unfolding retention_sweep
retention_sweep-Grown none_as_null tables = (
  omega (arith, length-sweep_all none_as_null 10 tables.endpoints tables.snapshots),
  omega arith,
  refl,
  refl,
)

counts-cons :
    (r : Result EndpointResult) (rs : List (Result EndpointResult))
    → (count_snapshots (r ∷ rs) ≡ count_snapshots (r ∷ []) + count_snapshots rs)
      × (count_diffs (r ∷ rs) ≡ count_diffs (r ∷ []) + count_diffs rs)
unfolding count_snapshots count_diffs
counts-cons (raised e) rs = (omega arith, omega arith)
counts-cons (ok r) rs = (ground arith, omega arith)

module _ (env : Environment) where
  abbrev turn_of :
      ApiEndpoint → ℕ → ℕ → Tables → Result FetchResult → Result (EndpointResult × Tables)
  turn_of ep run_id now tables fetched =
      fetched >>= λ fetch. ok (process_fetch env ep run_id now fetch tables)

  turn-Grown :
      (ep : ApiEndpoint) (run_id now : ℕ) (tables : Tables) (fetched : Result FetchResult)
      → Grown
          (count_snapshots (outcome_of (turn_of ep run_id now tables fetched) ∷ []))
          (count_diffs (outcome_of (turn_of ep run_id now tables fetched) ∷ []))
          tables
          (tables_after (turn_of ep run_id now tables fetched) tables)
  unfolding count_snapshots count_diffs
  turn-Grown ep run_id now tables (raised e) = (omega arith, omega arith, refl, refl)
  turn-Grown ep run_id now tables (ok fetch) =
      let h = process_fetch-Grown env ep run_id now fetch tables in
      rw (h.0) (h.1.0, omega (arith, h.1.1), h.1.2, h.1.3)

  -- All turns together add as many snapshots and differences as their results count.
  pub process_all-Grown :
      (eps : List ApiEndpoint) (run_id now : ℕ) (tables : Tables)
      → Grown
          (count_snapshots (process_all env eps run_id now tables).0)
          (count_diffs (process_all env eps run_id now tables).0)
          tables
          (process_all env eps run_id now tables).1
  unfolding process_all process_endpoint count_snapshots count_diffs
  process_all-Grown [] run_id now tables = (omega arith, omega arith, refl, refl)
  process_all-Grown (ep ∷ eps) run_id now tables =
      let t = turn_of ep run_id now tables (env.fetch_endpoint ep) in
      let next = tables_after t tables in
      let first = turn-Grown ep run_id now tables (env.fetch_endpoint ep) in
      let rest = process_all-Grown eps run_id now next in
      let rs = (process_all env eps run_id now next).0 in
      let both = counts-cons (outcome_of t) rs in
      (
        omega (arith, first.0, rest.0, both.0),
        omega (arith, first.1, rest.1, both.1),
        rest.2 ∙ first.2,
        rest.3 ∙ first.3,
      )
