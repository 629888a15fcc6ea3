-- ===== src/Tests/Runner.antt =====
-- Runs of the monitor over its endpoints at small data.
use native.Mathlib.Decide.{ℕ_discrete}
use schema_pilot_api_contrac.Base.Text.{starts_with}
use schema_pilot_api_contrac.Base.{
  ℕ, zero, suc, ◌≡◌, ◌≢◌, refl, true, false, some, none, List, [], ◌∷◌, map, String, string_eq,
  nat_eq, ◌<>◌, arith,
}
use schema_pilot_api_contrac.Base.Result.{ok, key_error}
use schema_pilot_api_contrac.Json.{null, integer, pos, object, end, field}
use schema_pilot_api_contrac.Monitor.Types.{JsonType, SchemaNode}
use schema_pilot_api_contrac.Monitor.Canonical.{Projection, stable_schema_hash}
use schema_pilot_api_contrac.Monitor.Diff.{diff_schemas}
use schema_pilot_api_contrac.Monitor.Tables.{ApiEndpoint, SchemaSnapshot, Tables, stored}
use schema_pilot_api_contrac.Monitor.Registry.{Entry}
use schema_pilot_api_contrac.Monitor.Process.{
  Environment, FetchResult, diffs_against, process_fetch,
}
use schema_pilot_api_contrac.Monitor.Process.Skipped.{diffs_against-diff_schemas}
use schema_pilot_api_contrac.Monitor.Process.Gap.{NoDrift, process_fetch-after_failure}
use schema_pilot_api_contrac.Monitor.Runner.{
  conflict, run_monitor, retention_sweep, raw_retention_per_endpoint,
}
use schema_pilot_api_contrac.Monitor.Runner.Retention.{retained, retention_sweep-retained}
use schema_pilot_api_contrac.Monitor.Runner.Settled.{
  Recorded, empty, called, run_monitor-aborted, run_monitor-counts, run_monitor-conflict,
}

abbrev fetched : FetchResult
fetched = record {
  status_code = 200;
  response_time_ms = 12;
  response_size_bytes = 8;
  body = object (field "id" (integer (pos 7)) end);
  error = none;
}

abbrev timeout : FetchResult
timeout = record {
  status_code = 0;
  response_time_ms = 10000;
  response_size_bytes = 0;
  body = null;
  error = some "timeout";
}

-- The digest is the text of the paths.
abbrev joined : List Projection → String
joined [] = ""
joined (p ∷ ps) = p.path <> joined ps

abbrev pub env : Environment
env = record {
  none_as_null = false;
  digest = joined;
  encoded_size = λ v. 8;
  reparse = λ cap v. none;
  expandvars = λ s. s;
  upper = λ s. s;
  describe = λ e. "error";
  fetch_endpoint = λ ep. ok fetched;
}

abbrev pub no_tables : Tables
no_tables = record { endpoints = []; runs = []; snapshots = []; diffs = []; next_id = 0 }

abbrev pub entry : Entry
entry = record {
  name = some "users";
  provider = some "acme";
  url = some "https://acme.test/users";
  method = none;
  headers = none;
  is_active = none;
}

abbrev no_url : Entry
no_url = record entry { url = none }

run_monitor-counts_example :
    Recorded 0 no_tables (run_monitor env true 5 (ok (entry ∷ [])) no_tables).1
unfolding run_monitor string_eq ℕ_discrete
run_monitor-counts_example = run_monitor-counts env 5 (ok (entry ∷ [])) no_tables 0 refl

run_monitor-aborted_example : (run_monitor env true 5 (ok (no_url ∷ [])) no_tables).1 ≡ no_tables
unfolding run_monitor string_eq
run_monitor-aborted_example =
    run_monitor-aborted env 5 (ok (no_url ∷ [])) no_tables (key_error "url") tt refl

abbrev after_run : Tables
after_run = (run_monitor env true 5 (ok (entry ∷ [])) no_tables).1

run_monitor-conflict_example :
    run_monitor env false 6 (ok (entry ∷ [])) after_run ≡ (conflict none, after_run)
run_monitor-conflict_example =
    run_monitor-conflict (called empty env true 5 (ok (entry ∷ []))) env 6 (ok (entry ∷ []))

abbrev endpoint : ApiEndpoint
endpoint = record {
  id = 1;
  name = "users";
  provider = "acme";
  url = "https://acme.test/users";
  method = "GET";
  headers = object end;
  is_active = true;
}

abbrev with_age : List SchemaNode
with_age =
    (record {
      path = "age";
      type = JsonType.integer;
      required = true;
      nullable = false;
      array_item_type = none;
      enum_values = none;
      example_value = none;
    })
    ∷ []

abbrev pub snapshot : ℕ → SchemaSnapshot
snapshot now = record {
  id = now;
  endpoint_id = 1;
  monitor_run_id = 0;
  schema_hash = "age";
  status_code = 200;
  response_time_ms = 12;
  response_size_bytes = 8;
  normalized_schema = stored with_age;
  raw_sample = stored (integer (pos 7));
  fetch_error = none;
  created_at = now;
}

process_fetch-after_failure_example :
    NoDrift env endpoint 9 6 fetched []
      (process_fetch env endpoint 8 5 timeout (record no_tables {
        endpoints = endpoint ∷ [];
        snapshots = snapshot 3 ∷ [];
        next_id = 7;
      })).1
unfolding process_fetch
process_fetch-after_failure_example =
    process_fetch-after_failure env endpoint
      (record no_tables { endpoints = endpoint ∷ []; snapshots = snapshot 3 ∷ []; next_id = 7 }) 8 9
      5 6 timeout fetched refl refl (omega arith, tt)

different : ◌≢◌ {A = String} "age" ""
different e = cc

diffs_against-diff_schemas_example :
    diffs_against (some (snapshot 3)) (stable_schema_hash joined []) [] ≡ diff_schemas with_age []
unfolding stable_schema_hash string_eq starts_with
diffs_against-diff_schemas_example =
    diffs_against-diff_schemas joined (snapshot 3) with_age [] refl refl refl (tt, tt) tt
      (λ e. absurd (different e))

-- Twelve snapshots of the endpoint, of which ten keep their samples.
abbrev snapshots_until : ℕ → List SchemaSnapshot
snapshots_until zero = []
snapshots_until (suc n) = snapshot (suc n) ∷ snapshots_until n

abbrev twelve : Tables
twelve = record no_tables {
  endpoints = endpoint ∷ [];
  snapshots = snapshots_until 12;
  next_id = 13;
}

retention_sweep-retained_example : retention_sweep true twelve ≡ record twelve {
  snapshots = map (retained true raw_retention_per_endpoint twelve) twelve.snapshots;
}
retention_sweep-retained_example = retention_sweep-retained true twelve
