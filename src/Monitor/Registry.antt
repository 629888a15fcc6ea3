-- ===== src/Monitor/Registry.antt =====
-- backend/app/core/registry_loader.py: the endpoints that the registry file lists.
pub mod Written
use schema_pilot_api_contrac.Base.{
  ℕ, suc, String, Bool, true, false, ◌||◌, Option, none, some, List, [], ◌∷◌, ◌++◌, map, ◌==◌,
  contains, string_eq, nat_eq, if◌then◌else◌,
}
use schema_pilot_api_contrac.Base.Sequence.{find?}
use schema_pilot_api_contrac.Base.Result.{Result, raised, ok, key_error, integrity_error, ◌>>=◌}
use schema_pilot_api_contrac.Json.{
  Json, Items, Fields, null, boolean, integer, float, text, array, object, nil, cons, end, field,
}
use schema_pilot_api_contrac.Monitor.Tables.{ApiEndpoint, Tables}

-- An entry of the registry: none where it lacks the key.
pub record Entry : Type 0 where
  pub name : Option String
  pub provider : Option String
  pub url : Option String
  pub method : Option String
  pub headers : Option Fields
  pub is_active : Option Bool

-- `entry[key]`
abbrev pub required : String → Option String → Result String
required key none = raised (key_error key)
required key (some value) = ok value

-- `entry.get("method") or "GET"`
abbrev pub method_or : Option String → String
method_or none = "GET"
method_or (some method) = if method == "" then "GET" else method

-- `entry.get("headers") or {}`
abbrev pub headers_or : Option Fields → Fields
headers_or none = end
headers_or (some headers) = headers

-- `entry.get("is_active", True)`
abbrev pub active_or : Option Bool → Bool
active_or none = true
active_or (some active) = active

-- `name in existing`, and the row of that name
abbrev pub names : List ApiEndpoint → List String
names endpoints = map (λ ep. ep.name) endpoints

abbrev pub find_name : String → List ApiEndpoint → Option ApiEndpoint
find_name name endpoints = find? (λ ep. ep.name == name) endpoints

-- Whether a text stands twice: the unique constraint on names.
unfoldable pub has_duplicate : List String → Bool
has_duplicate [] = false
has_duplicate (s ∷ ss) = contains ss s || has_duplicate ss

abbrev pub append_id : List ℕ → Option ApiEndpoint → List ℕ
append_id ids none = ids
append_id ids (some ep) = ids ++ (ep.id ∷ [])

-- The endpoints of a list of identifiers that are active, in its order.
unfoldable pub active_endpoints : List ApiEndpoint → List ℕ → List ApiEndpoint
active_endpoints endpoints [] = []
active_endpoints endpoints (id ∷ ids) =
    let rest = active_endpoints endpoints ids in
    elim (find? (λ ep. ep.id == id) endpoints) [
      | none ↦ rest
      | some ep ↦ if ep.is_active then ep ∷ rest else rest
    ]

-- The body of the loop on an entry that was read: the row of its name is written, or a new one is added.
unfoldable pub upsert_row : List String → ApiEndpoint → Tables → Tables
upsert_row existing row tables =
    if contains existing row.name
    then record tables {
      endpoints =
          map (λ ep. if ep.name == row.name then record row { id = ep.id } else ep)
            tables.endpoints;
    }
    else record tables {
      endpoints = tables.endpoints ++ (record row { id = tables.next_id } ∷ []);
      next_id = suc tables.next_id;
    }

-- `os.path.expandvars` in the process's environment, and `str.upper`
module _ (expandvars : String → String) (upper : String → String) where
  -- `_expand_env`: texts, also those in nested dicts, but not those in lists
  unfoldable mutual
    pub expand_env : Json → Json
    expand_env (text s) = text (expandvars s)
    expand_env (object fs) = object (expand_fields fs)
    expand_env (array xs) = array xs
    expand_env null = null
    expand_env (boolean b) = boolean b
    expand_env (integer n) = integer n
    expand_env (float x) = float x

    pub expand_fields : Fields → Fields
    expand_fields end = end
    expand_fields (field k v fs) = field k (expand_env v) (expand_fields fs)

  -- The row of an entry, with all its values.
  unfoldable pub read_entry : Entry → Result ApiEndpoint
  unfolding expand_env
  read_entry entry = required "name" entry.name >>= λ name.
      required "provider" entry.provider >>= λ provider. required "url" entry.url >>= λ url.
      ok (record {
        id = 0;
        name = name;
        provider = provider;
        url = url;
        method = upper (method_or entry.method);
        headers = expand_env (object (headers_or entry.headers));
        is_active = active_or entry.is_active;
      })

  unfoldable pub upsert_entries :
      List String → List Entry → Tables → List ℕ → Result (Tables × List ℕ)
  unfolding read_entry upsert_row
  upsert_entries existing [] tables ids = ok (tables, ids)
  upsert_entries existing (entry ∷ entries) tables ids = read_entry entry >>= λ row.
      let after = upsert_row existing row tables in
      let written =
        (if contains existing row.name
          then append_id ids (find_name row.name after.endpoints)
          else ids ++ (tables.next_id ∷ [])) in
      upsert_entries existing entries after written

  -- `upsert_endpoints`, given the entries of the file
  unfoldable pub upsert_endpoints : List Entry → Tables → Result (Tables × List ApiEndpoint)
  unfolding upsert_entries has_duplicate active_endpoints
  upsert_endpoints entries tables =
      upsert_entries (names tables.endpoints) entries tables [] >>= λ (after, ids).
      if has_duplicate (names after.endpoints)
      then raised integrity_error
      else ok (after, active_endpoints after.endpoints ids)
