-- ===== src/Monitor/Tables.antt =====
-- backend/app/models.py: the rows that the monitor reads and writes. Identifiers and times are numbers.
use schema_pilot_api_contrac.Base.{
  ℕ, String, Bool, true, false, Option, none, some, List, if◌then◌else◌,
}
use schema_pilot_api_contrac.Json.{Json}
use schema_pilot_api_contrac.Monitor.Types.{JsonType, SchemaNode}
use schema_pilot_api_contrac.Monitor.Severity.{ChangeType}

-- A nullable JSONB column holds SQL's NULL, the JSON value null, or another value.
module _ {ℓ} where
  pub data Column (A : Type ℓ) : Type ℓ where
    sql_null : Column A
    json_null : Column A
    stored : A → Column A

-- `column.isnot(None)`
abbrev pub is_not_null {ℓ} : {A : Type ℓ} → Column A → Bool
is_not_null sql_null = false
is_not_null json_null = true
is_not_null (stored v) = true

-- What a row that is loaded gives for the column.
abbrev pub loaded {ℓ} : {A : Type ℓ} → Column A → Option A
loaded sql_null = none
loaded json_null = none
loaded (stored v) = some v

-- What is stored for an explicit None; `none_as_null` is the setting of the column's type.
abbrev pub store_none {ℓ} : {A : Type ℓ} → Bool → Column A
store_none none_as_null = if none_as_null then sql_null else json_null

-- `ApiEndpoint`
pub record ApiEndpoint : Type 0 where
  pub id : ℕ
  pub name : String
  pub provider : String
  pub url : String
  pub method : String
  pub headers : Json
  pub is_active : Bool

-- the values of `MonitorRun.status`
pub data RunStatus : Type 0 where
  running success partial_failure failed : RunStatus

-- `MonitorRun`
pub record MonitorRun : Type 0 where
  pub id : ℕ
  pub started_at : ℕ
  pub finished_at : Option ℕ
  pub status : RunStatus
  pub endpoints_checked : ℕ
  pub snapshots_created : ℕ
  pub diffs_detected : ℕ
  pub error_message : Option String

-- `SchemaSnapshot`
pub record SchemaSnapshot : Type 0 where
  pub id : ℕ
  pub endpoint_id : ℕ
  pub monitor_run_id : ℕ
  pub schema_hash : String
  pub status_code : ℕ
  pub response_time_ms : ℕ
  pub response_size_bytes : ℕ
  pub normalized_schema : Column (List SchemaNode)
  pub raw_sample : Column Json
  pub fetch_error : Option String
  pub created_at : ℕ

-- `SchemaDiff`
pub record SchemaDiff : Type 0 where
  pub id : ℕ
  pub endpoint_id : ℕ
  pub old_snapshot_id : Option ℕ
  pub new_snapshot_id : ℕ
  pub severity : String
  pub change_type : ChangeType
  pub path : String
  pub old_type : Option JsonType
  pub new_type : Option JsonType
  pub old_value : Option Json
  pub new_value : Option Json
  pub message : String
  pub created_at : ℕ

-- The tables, and the next identifier.
pub record Tables : Type 0 where
  pub endpoints : List ApiEndpoint
  pub runs : List MonitorRun
  pub snapshots : List SchemaSnapshot
  pub diffs : List SchemaDiff
  pub next_id : ℕ
