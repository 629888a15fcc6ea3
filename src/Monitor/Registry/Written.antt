-- ===== src/Monitor/Registry/Written.antt =====
-- What writing the registry's endpoints leaves of the tables.
use schema_pilot_api_contrac.Base.{
  ℕ, String, ◌≡◌, refl, subst, ◌∙◌, inl, inr, Bool-cases, List, [], ◌∷◌, contains, string_eq,
}
use schema_pilot_api_contrac.Base.Result.{ok, >>=-eq-ok, ok-injective}
use schema_pilot_api_contrac.Monitor.Tables.{ApiEndpoint, Tables}
use schema_pilot_api_contrac.Monitor.Registry.{
  Entry, names, has_duplicate, read_entry, upsert_row, upsert_entries, upsert_endpoints,
}

-- The other tables are the same.
abbrev pub SameHistory : Tables → Tables → Type 0
SameHistory a b = (b.runs ≡ a.runs) × (b.snapshots ≡ a.snapshots) × (b.diffs ≡ a.diffs)

upsert_row-SameHistory :
    (existing : List String) (row : ApiEndpoint) (tables : Tables)
    → SameHistory tables (upsert_row existing row tables)
unfolding upsert_row
upsert_row-SameHistory existing row tables = elim (Bool-cases (contains existing row.name)) [
  | inl there ↦ rw (there, upsert_row) (refl, refl, refl)
  | inr new ↦ rw (new, upsert_row) (refl, refl, refl)
]

SameHistory-trans : (a b c : Tables) → SameHistory a b → SameHistory b c → SameHistory a c
SameHistory-trans a b c g h = (h.0 ∙ g.0, h.1 ∙ g.1, h.2 ∙ g.2)

module _ (expandvars : String → String) (upper : String → String) where
  upsert_entries-SameHistory :
      (existing : List String) (entries : List Entry) (tables : Tables) (ids : List ℕ)
      (result : Tables × List ℕ)
      → upsert_entries expandvars upper existing entries tables ids ≡ ok result
      → SameHistory tables result.0
  unfolding upsert_entries
  upsert_entries-SameHistory existing [] tables ids result h =
      subst (λ r. SameHistory tables r.0) (ok-injective (tables, ids) result h) (refl, refl, refl)
  upsert_entries-SameHistory existing (entry ∷ entries) tables ids result h =
      let (row, read, rest) = >>=-eq-ok (read_entry expandvars upper entry) _ h in
      SameHistory-trans tables (upsert_row existing row tables) result.0
        (upsert_row-SameHistory existing row tables)
        (upsert_entries-SameHistory existing entries (upsert_row existing row tables) _ result rest)

  -- Writing the endpoints changes no other table.
  pub upsert_endpoints-SameHistory :
      (entries : List Entry) (tables : Tables) (result : Tables × List ApiEndpoint)
      → upsert_endpoints expandvars upper entries tables ≡ ok result
      → SameHistory tables result.0
  unfolding upsert_endpoints
  upsert_endpoints-SameHistory entries tables result h =
      let (written, upserted, rest) =
        >>=-eq-ok (upsert_entries expandvars upper (names tables.endpoints) entries tables []) _
          h in
      let same =
        upsert_entries-SameHistory (names tables.endpoints) entries tables [] written upserted in
      elim (Bool-cases (has_duplicate (names written.0.endpoints))) [
        | inl twice ↦ let e = rw twice at rest in cc
        | inr once ↦
            subst (λ r. SameHistory tables r.0) (ok-injective _ result (rw once at rest)) same
      ]
