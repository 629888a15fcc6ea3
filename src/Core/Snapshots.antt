-- ===== src/Core/Snapshots.antt =====
-- app/core/engine.py: endpoints, snapshots, baselines and the log of violations; and the second half of
-- `track_payload` in app/main.py, which keeps them. The tables are those of migrations/001 and 002, as lists
-- with the newest row first; the advisory lock of `register_payload_snapshot` is not modelled.
pub mod Baselines
pub mod Registering
pub mod Logging
use mathlib.Core.Option
use schema_pilot_api_contrac.Base.{
  ℕ, suc, ◌+◌, String, Bool, true, false, not, ◌&&◌, Option, none, some, List, [], ◌∷◌, map, ◌==◌,
  nat_eq, string_eq, if◌then◌else◌,
}
use schema_pilot_api_contrac.Base.Result.{Result, ok, ◌>>=◌}
use schema_pilot_api_contrac.Base.Sequence.{length, filter, find?, sort_by_desc}
use schema_pilot_api_contrac.Json.{Json}
use schema_pilot_api_contrac.Schema.{Schema}
use schema_pilot_api_contrac.Core.Parser.{normalize_types, structural_string, fingerprint_schema}
use schema_pilot_api_contrac.Core.Drift.{
  Severity, safe, risky, breaking, Drift, structural_diff, classify_contract_drift,
}

-- api_endpoints
pub record ApiEndpoint : Type 0 where
  pub id : ℕ
  pub service_name : String
  pub http_method : String
  pub route_path : String

-- schema_snapshots
pub record Snapshot : Type 0 where
  pub endpoint_id : ℕ
  pub fingerprint : String
  pub normalized_schema : Schema
  pub is_active_baseline : Bool
  pub created_at : ℕ

-- contract_drift_violations
pub record Violation : Type 0 where
  pub endpoint_id : ℕ
  pub observed_fingerprint : String
  pub severity : Severity
  pub path : String
  pub old : Option String
  pub new : Option String

pub record Tables : Type 0 where
  pub next_id : ℕ
  pub api_endpoints : List ApiEndpoint
  pub snapshots : List Snapshot
  pub violations : List Violation

-- The three columns that identify an endpoint.
pub record Route : Type 0 where
  pub service_name : String
  pub http_method : String
  pub route_path : String

abbrev pub is_route : Route → ApiEndpoint → Bool
is_route r e =
    e.service_name == r.service_name
    && (e.http_method == r.http_method && e.route_path == r.route_path)

unfoldable pub ensure_api_endpoint : Route → Tables → ℕ × Tables
ensure_api_endpoint r t = elim (find? (is_route r) t.api_endpoints) [
  | some e ↦ (e.id, t)
  | none ↦ (
    t.next_id,
    record t {
      next_id = t.next_id + 1;
      api_endpoints =
          record {
            id = t.next_id;
            service_name = r.service_name;
            http_method = r.http_method;
            route_path = r.route_path;
          }
          ∷ t.api_endpoints;
    },
  )
]

abbrev pub is_snapshot : ℕ → String → Snapshot → Bool
is_snapshot e fp s = s.endpoint_id == e && s.fingerprint == fp

unfoldable pub register_snapshot : ℕ → String → Schema → ℕ → Tables → Bool × Tables
register_snapshot e fp normalized now t = elim (find? (is_snapshot e fp) t.snapshots) [
  | some s ↦ (false, t)
  | none ↦ (
    true,
    record t {
      snapshots =
          record {
            endpoint_id = e;
            fingerprint = fp;
            normalized_schema = normalized;
            is_active_baseline = false;
            created_at = now;
          }
          ∷ t.snapshots;
    },
  )
]

unfoldable pub register_payload_snapshot :
    Route → String → Schema → ℕ → Tables → (ℕ × Bool) × Tables
unfolding ensure_api_endpoint register_snapshot
register_payload_snapshot r fp normalized now t =
    let (e, t') = ensure_api_endpoint r t in
    let (inserted, t'') = register_snapshot e fp normalized now t' in ((e, inserted), t'')

abbrev pub is_baseline_of : ℕ → Snapshot → Bool
is_baseline_of e s = s.endpoint_id == e && s.is_active_baseline

abbrev first_row : List Snapshot → Option Snapshot
first_row [] = none
first_row (s ∷ ss) = some s

-- ORDER BY created_at DESC LIMIT 1
unfoldable pub get_active_baseline_snapshot : ℕ → Tables → Option Snapshot
unfolding sort_by_desc
get_active_baseline_snapshot e t =
    first_row (sort_by_desc (λ s. s.created_at) (filter (is_baseline_of e) t.snapshots))

unfoldable pub get_active_baseline : ℕ → Tables → Option Schema
unfolding get_active_baseline_snapshot
get_active_baseline e t = Option.map (λ s. s.normalized_schema) (get_active_baseline_snapshot e t)

-- UPDATE ... SET is_active_baseline = FALSE WHERE endpoint_id = ...
abbrev pub deactivate : ℕ → Snapshot → Snapshot
deactivate e s = if s.endpoint_id == e then record s { is_active_baseline = false } else s

-- UPDATE ... SET is_active_baseline = TRUE WHERE endpoint_id = ... AND fingerprint = ...
abbrev pub activate : ℕ → String → Snapshot → Snapshot
activate e fp s = if is_snapshot e fp s then record s { is_active_baseline = true } else s

unfoldable pub set_baseline : ℕ → String → Tables → Tables
set_baseline e fp t = record t { snapshots = map (activate e fp) (map (deactivate e) t.snapshots) }

-- `log_drift_violations`
unfoldable pub log_drift_violations : ℕ → String → List Drift → Tables → Tables
log_drift_violations e fp [] t = t
log_drift_violations e fp (d ∷ ds) t = elim d.severity [
  | none ↦ log_drift_violations e fp ds t
  | some s ↦ log_drift_violations e fp ds (record t {
    violations =
        record {
          endpoint_id = e;
          observed_fingerprint = fp;
          severity = s;
          path = d.path;
          old = d.old;
          new = d.new;
        }
        ∷ t.violations;
  })
]

abbrev pub same_severity : Severity → Severity → Bool
same_severity safe safe = true
same_severity risky risky = true
same_severity breaking breaking = true
same_severity _ _ = false

abbrev pub has_severity : Severity → Drift → Bool
has_severity s d = elim d.severity [ none ↦ false | some v ↦ same_severity v s ]

abbrev pub is_graded : Drift → Bool
is_graded d = elim d.severity [ none ↦ false | some v ↦ true ]

-- A severity that no row has is not in the dict.
abbrev counted : ℕ → Option ℕ
counted n = if n == 0 then none else some n

pub record Metrics : Type 0 where
  pub endpoint_count : ℕ
  pub snapshot_count : ℕ
  pub severity_counts : Severity → Option ℕ

unfoldable pub get_runtime_metrics : Tables → Metrics
get_runtime_metrics t = record {
  endpoint_count = length t.api_endpoints;
  snapshot_count = length t.snapshots;
  severity_counts = λ s. counted (length (filter (λ v. same_severity v.severity s) t.violations));
}

-- What the second half of `track_payload` adds to its result.
pub record Legacy : Type 0 where
  pub legacy_endpoint_id : ℕ
  pub structural : String
  pub inserted : Bool
  pub severities : Severity → ℕ
  pub legacy_diff_count : ℕ

-- The baseline's fingerprint and schema, after a first payload became one.
unfoldable pub baseline_of : ℕ → Bool → String → Schema → Tables → Option (String × Schema) × Tables
unfolding get_active_baseline_snapshot set_baseline
baseline_of e inserted fp normalized t = elim (get_active_baseline_snapshot e t) [
  | some s ↦ (some (s.fingerprint, s.normalized_schema), t)
  | none ↦ if inserted then (some (fp, normalized), set_baseline e fp t) else (none, t)
]

-- The items of the diff against the baseline, which are logged.
unfoldable pub drifts_against : Option (String × Schema) → String → Schema → List Drift
unfolding classify_contract_drift structural_diff
drifts_against none fp normalized = []
drifts_against (some (baseline_fp, baseline)) fp normalized =
    if baseline_fp == fp then [] else classify_contract_drift (structural_diff baseline normalized)

-- what follows the fingerprint in `track_payload`
unfoldable pub track_with : String → String → Route → Schema → ℕ → Tables → Legacy × Tables
unfolding register_payload_snapshot baseline_of drifts_against log_drift_violations
track_with structural legacy_fp r normalized now t =
    let registered = register_payload_snapshot r legacy_fp normalized now t in
    let e = registered.0.0 in
    let inserted = registered.0.1 in
    let based = baseline_of e inserted legacy_fp normalized registered.1 in
    let diffs = drifts_against based.0 legacy_fp normalized in
    (
      record {
        legacy_endpoint_id = e;
        structural = structural;
        inserted = inserted;
        severities = λ s. length (filter (has_severity s) diffs);
        legacy_diff_count = length (filter is_graded diffs);
      },
      log_drift_violations e legacy_fp diffs based.1,
    )

-- `track_payload`, from `normalize_types` on, with SHA-256 as `digest`
unfoldable pub track_legacy :
    (String → String) → Route → Json → ℕ → Tables → Result (Legacy × Tables)
unfolding normalize_types structural_string fingerprint_schema track_with
track_legacy digest r payload now t = do
  structural ← structural_string payload
  legacy_fp ← fingerprint_schema digest payload
  ok (track_with structural legacy_fp r (normalize_types payload) now t)
