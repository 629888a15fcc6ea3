-- ===== src/Monitor/Process.antt =====
-- backend/app/workers/monitor_runner.py: one endpoint's turn, and backend/app/core/fetcher.py's results.
pub mod Counts
pub mod Skipped
pub mod Gap
use schema_pilot_api_contrac.Base.{
  ℕ, suc, ◌+◌, String, ◌<>◌, Bool, true, false, not, ◌&&◌, Option, none, some, List, [], ◌∷◌, ◌++◌,
  ◌==◌, nat_eq, string_eq, if◌then◌else◌,
}
use schema_pilot_api_contrac.Base.Sequence.{length, filter, sort_by_desc}
use schema_pilot_api_contrac.Base.Text.{starts_with}
use schema_pilot_api_contrac.Base.Result.{Exception, Result, ok, ◌>>=◌}
use schema_pilot_api_contrac.Json.{Json, null}
use schema_pilot_api_contrac.Monitor.Types.{SchemaNode}
use schema_pilot_api_contrac.Monitor.Infer.{infer_schema}
use schema_pilot_api_contrac.Monitor.Diff.{Diff, diff_schemas}
use schema_pilot_api_contrac.Monitor.Canonical.{Projection, stable_schema_hash}
use schema_pilot_api_contrac.Monitor.Normalizer.{normalize}
use schema_pilot_api_contrac.Monitor.Tables.{
  Column, stored, sql_null, is_not_null, loaded, store_none, ApiEndpoint, SchemaSnapshot,
  SchemaDiff, Tables,
}

-- `FetchResult`; no body, and the body null, are both None.
pub record FetchResult : Type 0 where
  pub status_code : ℕ
  pub response_time_ms : ℕ
  pub response_size_bytes : ℕ
  pub body : Json
  pub error : Option String

-- `FetchResult.ok`
unfoldable pub fetch_ok : FetchResult → Bool
fetch_ok fetch = elim (fetch.error) [
  | some e ↦ false
  | none ↦ elim (fetch.body) [ null ↦ false | _ ↦ true ]
]

-- `_EndpointResult`
pub record EndpointResult : Type 0 where
  pub snapshot_created : Bool
  pub diffs_detected : ℕ
  pub error : Option String

-- `f"{error}"`
abbrev pub error_text : Option String → String
error_text none = "None"
error_text (some e) = e

-- `_get_prior_snapshot`. Of two snapshots of one time, the database may give either; here it is the first.
unfoldable pub prior_snapshot : ℕ → ℕ → List SchemaSnapshot → Option SchemaSnapshot
unfolding sort_by_desc
prior_snapshot endpoint_id current_id snapshots =
    elim (sort_by_desc (λ s. s.created_at)
      (filter
        (λ s.
          s.endpoint_id == endpoint_id
          && not (s.id == current_id)
          && is_not_null s.normalized_schema)
        snapshots)) [ [] ↦ none | s ∷ _ ↦ some s ]

-- `prior.normalized_schema_json or []`
abbrev pub nodes_or : Option (List SchemaNode) → List SchemaNode
nodes_or none = []
nodes_or (some nodes) = nodes

-- `SchemaDiff(...)`
abbrev pub diff_row : ℕ → ℕ → ℕ → ℕ → ℕ → Diff → SchemaDiff
diff_row id endpoint_id old_snapshot_id new_snapshot_id now d = record {
  id = id;
  endpoint_id = endpoint_id;
  old_snapshot_id = some old_snapshot_id;
  new_snapshot_id = new_snapshot_id;
  severity = d.severity;
  change_type = d.change_type;
  path = d.path;
  old_type = d.old_type;
  new_type = d.new_type;
  old_value = d.old_value;
  new_value = d.new_value;
  message = d.message;
  created_at = now;
}

-- the loop over the diffs
unfoldable pub add_diffs : ℕ → ℕ → ℕ → ℕ → List Diff → Tables → Tables
add_diffs endpoint_id old_id new_id now [] tables = tables
add_diffs endpoint_id old_id new_id now (d ∷ ds) tables =
    add_diffs endpoint_id old_id new_id now ds (record tables {
      diffs = tables.diffs ++ (diff_row tables.next_id endpoint_id old_id new_id now d ∷ []);
      next_id = suc tables.next_id;
    })

-- `session.add(snap)` and `session.flush()`
unfoldable pub add_snapshot : SchemaSnapshot → Tables → Tables
add_snapshot snap tables = record tables {
  snapshots = tables.snapshots ++ (snap ∷ []);
  next_id = suc tables.next_id;
}

-- Whether the schemas are compared: there is a prior snapshot, of another hash, and its fetch did not fail.
unfoldable pub compares : String → SchemaSnapshot → Bool
unfolding starts_with
compares schema_hash prior =
    not (prior.schema_hash == schema_hash) && not (starts_with "FETCH_ERROR:" prior.schema_hash)

-- The differences that are recorded against the prior snapshot, if there is one.
unfoldable pub diffs_against : Option SchemaSnapshot → String → List SchemaNode → List Diff
unfolding compares diff_schemas
diffs_against none schema_hash nodes = []
diffs_against (some prior) schema_hash nodes =
    if compares schema_hash prior
    then diff_schemas (nodes_or (loaded prior.normalized_schema)) nodes
    else []

unfoldable pub add_all : Option SchemaSnapshot → ℕ → ℕ → ℕ → List Diff → Tables → Tables
unfolding add_diffs
add_all none endpoint_id new_id now ds tables = tables
add_all (some prior) endpoint_id new_id now ds tables =
    add_diffs endpoint_id prior.id new_id now ds tables

-- What a run depends on besides the tables: the setting `none_as_null` of the JSONB columns; the digest and the
-- JSON texts that hashes and normal forms are made with; `os.path.expandvars` and `str.upper`; `str` of an
-- exception; and what the fetches return or raise.
pub record Environment : Type 0 where
  pub none_as_null : Bool
  pub digest : List Projection → String
  pub encoded_size : Json → ℕ
  pub reparse : ℕ → Json → Option Json
  pub expandvars : String → String
  pub upper : String → String
  pub describe : Exception → String
  pub fetch_endpoint : ApiEndpoint → Result FetchResult

module _ (env : Environment) where
  -- the snapshot of a failed fetch
  abbrev pub failed_snapshot : ApiEndpoint → ℕ → ℕ → FetchResult → Tables → SchemaSnapshot
  failed_snapshot endpoint run_id now fetch tables = record {
    id = tables.next_id;
    endpoint_id = endpoint.id;
    monitor_run_id = run_id;
    schema_hash = "FETCH_ERROR:" <> error_text fetch.error;
    status_code = fetch.status_code;
    response_time_ms = fetch.response_time_ms;
    response_size_bytes = fetch.response_size_bytes;
    normalized_schema = store_none env.none_as_null;
    raw_sample = store_none env.none_as_null;
    fetch_error = fetch.error;
    created_at = now;
  }

  -- the body's normal form and its schema
  abbrev pub normal_form : FetchResult → Json
  normal_form fetch = normalize env.encoded_size env.reparse fetch.body none

  abbrev pub nodes_of : FetchResult → List SchemaNode
  nodes_of fetch = infer_schema (normal_form fetch)

  -- A JSON value is stored for the sample; where it is None, as for any None.
  abbrev pub sample_column : Json → Column Json
  sample_column null = store_none env.none_as_null
  sample_column v = stored v

  abbrev pub new_snapshot : ApiEndpoint → ℕ → ℕ → FetchResult → Tables → SchemaSnapshot
  new_snapshot endpoint run_id now fetch tables = record {
    id = tables.next_id;
    endpoint_id = endpoint.id;
    monitor_run_id = run_id;
    schema_hash = stable_schema_hash env.digest (nodes_of fetch);
    status_code = fetch.status_code;
    response_time_ms = fetch.response_time_ms;
    response_size_bytes = fetch.response_size_bytes;
    normalized_schema = stored (nodes_of fetch);
    raw_sample = sample_column (normal_form fetch);
    fetch_error = none;
    created_at = now;
  }

  -- `_process_endpoint` after its fetch
  unfoldable pub process_fetch :
      ApiEndpoint → ℕ → ℕ → FetchResult → Tables → EndpointResult × Tables
  unfolding fetch_ok add_snapshot prior_snapshot diffs_against add_all
  process_fetch endpoint run_id now fetch tables =
      if fetch_ok fetch
      then (let snap = new_snapshot endpoint run_id now fetch tables in
          let added = add_snapshot snap tables in
          let prior = prior_snapshot endpoint.id snap.id added.snapshots in
          let ds = diffs_against prior snap.schema_hash (nodes_of fetch) in
          (
            record { snapshot_created = true; diffs_detected = length ds; error = none },
            add_all prior endpoint.id snap.id now ds added,
          ))
      else (
        record { snapshot_created = true; diffs_detected = 0; error = fetch.error },
        add_snapshot (failed_snapshot endpoint run_id now fetch tables) tables,
      )

  -- `_process_endpoint`, with what `fetch_endpoint` returns or raises
  unfoldable pub process_endpoint : ApiEndpoint → ℕ → ℕ → Tables → Result (EndpointResult × Tables)
  unfolding process_fetch
  process_endpoint endpoint run_id now tables =
      env.fetch_endpoint endpoint >>= λ fetch. ok (process_fetch endpoint run_id now fetch tables)
