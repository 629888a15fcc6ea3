-- ===== src/Monitor/Runner.antt =====
-- backend/app/workers/monitor_runner.py: a run of the monitor over all endpoints, and its retention sweep.
pub mod Turns
pub mod Runs
pub mod Statuses
pub mod Settled
pub mod Retention
use schema_pilot_api_contrac.Base.{
  ℕ, suc, ◌+◌, String, Bool, true, false, not, ◌&&◌, ◌||◌, Option, none, some, List, [], ◌∷◌, ◌++◌,
  map, ◌==◌, contains, nat_eq, string_eq, if◌then◌else◌,
}
use schema_pilot_api_contrac.Base.Sequence.{length, filter, take, sort_by_desc}
use schema_pilot_api_contrac.Base.Result.{Exception, Result, raised, ok, ◌>>=◌}
use schema_pilot_api_contrac.Json.{Json}
use schema_pilot_api_contrac.Monitor.Canonical.{Projection}
use schema_pilot_api_contrac.Monitor.Tables
use schema_pilot_api_contrac.Monitor.Tables.{
  is_not_null, store_none, ApiEndpoint, SchemaSnapshot, MonitorRun, RunStatus, Tables,
}
use schema_pilot_api_contrac.Monitor.Registry.{Entry, upsert_endpoints}
use schema_pilot_api_contrac.Monitor.Process.{Environment, EndpointResult, process_endpoint}

-- `settings.raw_retention_per_endpoint`
abbrev pub raw_retention_per_endpoint : ℕ
raw_retention_per_endpoint = 10

-- The identifiers of an endpoint's newest snapshots: `SELECT ... ORDER BY created_at DESC LIMIT keep`.
unfoldable pub keep_ids : ℕ → ℕ → List SchemaSnapshot → List ℕ
unfolding sort_by_desc
keep_ids keep endpoint_id snapshots =
    map (λ s. s.id)
      (take keep
        (sort_by_desc (λ s. s.created_at) (filter (λ s. s.endpoint_id == endpoint_id) snapshots)))

-- What the UPDATE does to a row.
unfoldable pub clear_sample : Bool → ℕ → List ℕ → SchemaSnapshot → SchemaSnapshot
clear_sample none_as_null endpoint_id kept s =
    if s.endpoint_id == endpoint_id && not (contains kept s.id) && is_not_null s.raw_sample
    then record s { raw_sample = store_none none_as_null }
    else s

-- The body of the loop on one endpoint.
unfoldable pub sweep_endpoint : Bool → ℕ → ℕ → List SchemaSnapshot → List SchemaSnapshot
unfolding keep_ids clear_sample
sweep_endpoint none_as_null keep endpoint_id snapshots =
    elim (keep_ids keep endpoint_id snapshots) [
      | [] ↦ snapshots
      | id ∷ ids ↦ map (clear_sample none_as_null endpoint_id (id ∷ ids)) snapshots
    ]

unfoldable pub sweep_all : Bool → ℕ → List ApiEndpoint → List SchemaSnapshot → List SchemaSnapshot
unfolding sweep_endpoint
sweep_all none_as_null keep [] snapshots = snapshots
sweep_all none_as_null keep (ep ∷ eps) snapshots =
    sweep_all none_as_null keep eps (sweep_endpoint none_as_null keep ep.id snapshots)

-- `_retention_sweep`
unfoldable pub retention_sweep : Bool → Tables → Tables
unfolding sweep_all
retention_sweep none_as_null tables = record tables {
  snapshots = sweep_all none_as_null raw_retention_per_endpoint tables.endpoints tables.snapshots;
}

-- the results of `asyncio.gather`, exceptions included
abbrev pub Outcomes : Type 0
Outcomes = List (Result EndpointResult)

-- `sum(r.snapshot_created for r in ok_results)`
unfoldable pub count_snapshots : Outcomes → ℕ
count_snapshots [] = 0
count_snapshots (raised e ∷ rs) = count_snapshots rs
count_snapshots (ok r ∷ rs) =
    let rest = count_snapshots rs in if r.snapshot_created then suc rest else rest

-- `sum(r.diffs_detected for r in ok_results)`
unfoldable pub count_diffs : Outcomes → ℕ
count_diffs [] = 0
count_diffs (raised e ∷ rs) = count_diffs rs
count_diffs (ok r ∷ rs) = r.diffs_detected + count_diffs rs

abbrev pub has_error : EndpointResult → Bool
has_error r = elim (r.error) [ none ↦ false | some e ↦ not (e == "") ]

-- `err_results or any(r.error for r in ok_results)`
unfoldable pub any_failed : Outcomes → Bool
any_failed [] = false
any_failed (raised e ∷ rs) = true
any_failed (ok r ∷ rs) = has_error r || any_failed rs

-- What an endpoint's turn leaves, and its place in the results: an exception leaves the tables.
abbrev pub tables_after : Result (EndpointResult × Tables) → Tables → Tables
tables_after (raised e) tables = tables
tables_after (ok (r, after)) tables = after

abbrev pub outcome_of : Result (EndpointResult × Tables) → Result EndpointResult
outcome_of (raised e) = raised e
outcome_of (ok (r, after)) = ok r

-- How a call of `run_monitor` ends: with 409 and the run that it names, with the new run's identifier, or
-- raising.
pub data RunOutcome : Type 0 where
  conflict : Option ℕ → RunOutcome
  finished : ℕ → RunOutcome
  aborted : Exception → RunOutcome

abbrev pub is_running : RunStatus → Bool
is_running RunStatus.running = true
is_running _ = false

-- `select(MonitorRun).where(status == "running").order_by(started_at.desc()).limit(1)`
unfoldable pub running_id : List MonitorRun → Option ℕ
unfolding sort_by_desc
running_id runs = elim (sort_by_desc (λ r. r.started_at) (filter (λ r. is_running r.status) runs)) [
  | [] ↦ none
  | r ∷ _ ↦ some r.id
]

-- `MonitorRun(status="running")`
abbrev pub new_run : ℕ → ℕ → MonitorRun
new_run id now = record {
  id = id;
  started_at = now;
  finished_at = none;
  status = RunStatus.running;
  endpoints_checked = 0;
  snapshots_created = 0;
  diffs_detected = 0;
  error_message = none;
}

unfoldable pub start_run : ℕ → Tables → Tables
start_run now tables = record tables {
  runs = tables.runs ++ (new_run tables.next_id now ∷ []);
  next_id = suc tables.next_id;
}

-- `update(MonitorRun).where(MonitorRun.id == run_id)`, after a run and after one that raised
unfoldable pub finish_run : ℕ → ℕ → ℕ → Outcomes → MonitorRun → MonitorRun
unfolding count_snapshots count_diffs any_failed
finish_run run_id now checked rs run =
    if run.id == run_id
    then record run {
      finished_at = some now;
      status = if any_failed rs then RunStatus.partial_failure else RunStatus.success;
      endpoints_checked = checked;
      snapshots_created = count_snapshots rs;
      diffs_detected = count_diffs rs;
    }
    else run

unfoldable pub fail_run : ℕ → ℕ → String → MonitorRun → MonitorRun
fail_run run_id now message run =
    if run.id == run_id
    then record run {
      finished_at = some now;
      status = RunStatus.failed;
      error_message = some message;
    }
    else run

module _ (env : Environment) where
  -- The endpoints' turns, one after the other.
  unfoldable pub process_all : List ApiEndpoint → ℕ → ℕ → Tables → Outcomes × Tables
  unfolding process_endpoint
  process_all [] run_id now tables = ([], tables)
  process_all (ep ∷ eps) run_id now tables =
      let turn = process_endpoint env ep run_id now tables in
      let rest = process_all eps run_id now (tables_after turn tables) in
      (outcome_of turn ∷ rest.0, rest.1)

  -- the body of `try`, from the tables with the new run; what it commits
  unfoldable pub run_body : ℕ → ℕ → Result (List Entry) → Tables → Result Tables
  unfolding upsert_endpoints process_all retention_sweep finish_run
  run_body run_id now registry tables = registry >>= λ entries.
      upsert_endpoints env.expandvars env.upper entries tables >>= λ (upserted, endpoints).
      let processed = process_all endpoints run_id now upserted in
      let swept = retention_sweep env.none_as_null processed.1 in
      ok (record swept {
        runs = map (finish_run run_id now (length endpoints) processed.0) swept.runs;
      })

  -- `run_monitor`, given whether the lock was free and what `load_yaml` returns or raises: how it ends, and the
  -- tables as they are committed. After an exception the transaction is rolled back before the update.
  unfoldable pub run_monitor : Bool → ℕ → Result (List Entry) → Tables → RunOutcome × Tables
  unfolding run_body start_run fail_run running_id
  run_monitor got_lock now registry tables =
      if not got_lock
      then (conflict (running_id tables.runs), tables)
      else elim (run_body tables.next_id now registry (start_run now tables)) [
        | ok committed ↦ (finished tables.next_id, committed)
        | raised e ↦ (
          aborted e,
          record tables { runs = map (fail_run tables.next_id now (env.describe e)) tables.runs },
        )
      ]
