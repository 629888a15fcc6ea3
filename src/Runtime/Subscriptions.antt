-- ===== src/Runtime/Subscriptions.antt =====
-- app/runtime/subscriptions.py: who is told of drift on which endpoint.
pub mod Affected
pub mod Selection
pub mod Patching
use schema_pilot_api_contrac.Base.{
  ℕ, ◌+◌, String, Bool, true, false, ◌&&◌, Option, none, some, List, [], ◌∷◌, map, leb, ◌==◌,
  nat_eq, if◌then◌else◌,
}
use schema_pilot_api_contrac.Base.Result.{Result, ok, raised, integrity_error}
use schema_pilot_api_contrac.Base.Sequence.{filter, find?, sort_by_desc}
use schema_pilot_api_contrac.Json.{ℤ, pos, negsuc}
use schema_pilot_api_contrac.Runtime.Models.{severity_rank}
use schema_pilot_api_contrac.Runtime.Database.{Database, Subscription}

-- The keyword arguments of `create_subscription`.
pub record NewSubscription : Type 0 where
  pub consumer_id : String
  pub endpoint_id : ℕ
  pub target_url : String
  pub severity_threshold : String
  pub schema_version : Option ℤ
  pub active : Bool

-- The endpoint must exist: a foreign key.
unfoldable pub create_subscription :
    NewSubscription → ℕ → Database → Result (Subscription × Database)
create_subscription new now db = elim (find? (λ e. e.id == new.endpoint_id) db.endpoints) [
  | none ↦ raised integrity_error
  | some e ↦
      let row : Subscription = record {
        id = db.next_id;
        consumer_id = new.consumer_id;
        endpoint_id = new.endpoint_id;
        target_url = new.target_url;
        severity_threshold = new.severity_threshold;
        schema_version = new.schema_version;
        active = new.active;
        created_at = now;
        updated_at = now;
      } in
      ok (row, record db { next_id = db.next_id + 1; subscriptions = row ∷ db.subscriptions })
]

unfoldable pub list_subscriptions : Option ℕ → Database → List Subscription
unfolding sort_by_desc
list_subscriptions none db = sort_by_desc (λ s. s.created_at) db.subscriptions
list_subscriptions (some e) db =
    sort_by_desc (λ s. s.created_at) (filter (λ s. s.endpoint_id == e) db.subscriptions)

unfoldable pub get_subscription : ℕ → Database → Option Subscription
get_subscription i db = find? (λ s. s.id == i) db.subscriptions

-- The four columns that a patch may name.
pub record Patch : Type 0 where
  pub target_url : Option String
  pub severity_threshold : Option String
  pub schema_version : Option ℤ
  pub active : Option Bool

abbrev pub is_none {ℓ} : {A : Type ℓ} → Option A → Bool
is_none none = true
is_none (some a) = false

-- `not mutable`
abbrev pub is_empty : Patch → Bool
is_empty p =
    is_none p.target_url
    && (is_none p.severity_threshold && (is_none p.schema_version && is_none p.active))

abbrev pub given {ℓ} : {A : Type ℓ} → Option A → A → A
given none old = old
given (some new) old = new

-- UPDATE consumer_subscriptions SET ..., updated_at = NOW() WHERE id = :subscription_id
abbrev pub patched : Patch → ℕ → Subscription → Subscription
patched p now s = record s {
  target_url = given p.target_url s.target_url;
  severity_threshold = given p.severity_threshold s.severity_threshold;
  schema_version = elim p.schema_version [ none ↦ s.schema_version | some v ↦ some v ];
  active = given p.active s.active;
  updated_at = now;
}

unfoldable pub update_subscription : ℕ → Patch → ℕ → Database → Option Subscription × Database
unfolding get_subscription
update_subscription i p now db =
    if is_empty p
    then (get_subscription i db, db)
    else (let db' : Database = record db {
      subscriptions = map (λ s. if s.id == i then patched p now s else s) db.subscriptions;
    } in
        (get_subscription i db', db'))

-- `schema_version IS NULL OR schema_version <= :new_version`
unfoldable pub version_reached : Option ℤ → ℕ → Bool
version_reached none new_version = true
version_reached (some (pos v)) new_version = leb v new_version
version_reached (some (negsuc v)) new_version = true

-- The WHERE clause, and the test on the severity behind it.
unfoldable pub is_affected : ℕ → ℕ → String → Subscription → Bool
unfolding version_reached severity_rank
is_affected endpoint_id new_version severity s =
    (s.endpoint_id == endpoint_id && (s.active && version_reached s.schema_version new_version))
    && leb (severity_rank s.severity_threshold) (severity_rank severity)

unfoldable pub select_affected_subscriptions : ℕ → ℕ → String → Database → List Subscription
unfolding is_affected
select_affected_subscriptions endpoint_id new_version severity db =
    filter (is_affected endpoint_id new_version severity) db.subscriptions
