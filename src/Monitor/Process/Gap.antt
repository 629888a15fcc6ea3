-- ===== src/Monitor/Process/Gap.antt =====
-- A failed fetch between two that succeed.
use text.Mathlib.TextLemmas.{cons-append}
use mathlib.Core.List.{append-nil}
use schema_pilot_api_contrac.Base.Text.{starts_with}
use schema_pilot_api_contrac.Base.{
  ℕ, ◌<◌, String, ◌<>◌, ◌≡◌, refl, sym, ap, subst, ◌∙◌, inl, inr, Bool-cases, Bool, true, false,
  not, ◌&&◌, some, List, [], ◌∷◌, ◌++◌, arith, ◌==◌, string_eq, nat_eq,
}
use schema_pilot_api_contrac.Base.Sequence.{filter, All}
use schema_pilot_api_contrac.Base.Descending.{sort_by_desc_last}
use schema_pilot_api_contrac.Monitor.Types.{SchemaNode}
use schema_pilot_api_contrac.Monitor.Tables.{
  ApiEndpoint, SchemaSnapshot, SchemaDiff, Tables, is_not_null,
}
use schema_pilot_api_contrac.Monitor.Process.{
  Environment, FetchResult, fetch_ok, compares, diffs_against, add_all, add_diffs, prior_snapshot,
  add_snapshot, failed_snapshot, new_snapshot, nodes_of, process_fetch, error_text,
}

-- A failed fetch's hash is told by its prefix.
starts_with-append : (prefix s : String) → starts_with prefix (prefix <> s) ≡ true
unfolding starts_with
starts_with-append String.[] s = refl
starts_with-append (String.◌∷◌ c prefix) s =
    rw (cons-append c prefix s) (ground (arith, starts_with-append prefix s))

no_diffs_after_failure :
    (prior : SchemaSnapshot) (error : String) (schema_hash : String) (nodes : List SchemaNode)
    → prior.schema_hash ≡ "FETCH_ERROR:" <> error
    → diffs_against (some prior) schema_hash nodes ≡ []
unfolding diffs_against compares
no_diffs_after_failure prior error schema_hash nodes h =
    let failed : starts_with "FETCH_ERROR:" prior.schema_hash ≡ true =
      ap (starts_with "FETCH_ERROR:") h ∙ starts_with-append "FETCH_ERROR:" error in
    ground (arith, failed)

filter-append :
    (p : SchemaSnapshot → Bool) (xs ys : List SchemaSnapshot)
    → filter p (xs ++ ys) ≡ filter p xs ++ filter p ys
filter-append p [] ys = refl
filter-append p (x ∷ xs) ys = ground (arith, filter-append p xs ys)

All-filter :
    (P : SchemaSnapshot → Type 0) (p : SchemaSnapshot → Bool) (xs : List SchemaSnapshot)
    → All P xs
    → All P (filter p xs)
All-filter P p [] h = tt
All-filter P p (x ∷ xs) h = elim (Bool-cases (p x)) [
  | inl keep ↦ rw keep (h.0, All-filter P p xs h.1)
  | inr drop ↦ rw drop (All-filter P p xs h.1)
]

-- The prior snapshot is the one before the current, if that is of the same endpoint, is not null for the
-- query, and is newer than all before it.
prior_snapshot_last :
    (endpoint_id : ℕ) (last current : SchemaSnapshot) (xs : List SchemaSnapshot)
    → last.endpoint_id ≡ endpoint_id
    → is_not_null last.normalized_schema ≡ true
    → last.id < current.id
    → All (λ s. s.created_at < last.created_at) xs
    → prior_snapshot endpoint_id current.id ((xs ++ (last ∷ [])) ++ (current ∷ [])) ≡ some last
unfolding prior_snapshot
prior_snapshot_last endpoint_id last current xs own visible older newer =
    let p : SchemaSnapshot → Bool = λ s.
      s.endpoint_id == endpoint_id && not (s.id == current.id) && is_not_null s.normalized_schema in
    let takes : p last ≡ true = ground (arith, own, visible, older) in
    let drops : p current ≡ false = ground arith in
    let seen : filter p ((xs ++ (last ∷ [])) ++ (current ∷ [])) ≡ filter p xs ++ (last ∷ []) =
      filter-append p (xs ++ (last ∷ [])) (current ∷ [])
      ∙ rw drops (
          append-nil (filter p (xs ++ (last ∷ [])))
          ∙ filter-append p xs (last ∷ [])
          ∙ rw takes refl) in
    let (rest, first) =
      sort_by_desc_last (λ s. s.created_at) last (filter p xs)
        (All-filter (λ s. s.created_at < last.created_at) p xs newer) in
    rw (seen, first, prior_snapshot) refl

-- The turn reports no differences, and records none besides those there were.
abbrev pub NoDrift :
    Environment → ApiEndpoint → ℕ → ℕ → FetchResult → List SchemaDiff → Tables → Type 0
NoDrift env endpoint run_id now fetch ds tables =
    ((process_fetch env endpoint run_id now fetch tables).0.diffs_detected ≡ 0)
    × ((process_fetch env endpoint run_id now fetch tables).1.diffs ≡ ds)

prior_failed-NoDrift :
    (env : Environment) (endpoint : ApiEndpoint) (tables : Tables) (run_id now : ℕ)
    (fetch : FetchResult) (prior : SchemaSnapshot) (error : String)
    → prior.schema_hash ≡ "FETCH_ERROR:" <> error
    → prior_snapshot endpoint.id tables.next_id
        (tables.snapshots ++ (new_snapshot env endpoint run_id now fetch tables ∷ []))
      ≡ some prior
    → NoDrift env endpoint run_id now fetch tables.diffs tables
unfolding process_fetch add_snapshot add_all add_diffs
prior_failed-NoDrift env endpoint tables run_id now fetch prior error hash seen =
    elim (Bool-cases (fetch_ok fetch)) [
      | inr failed ↦ rw (failed, process_fetch) (refl, refl)
      | inl fine ↦
          let none_found =
            no_diffs_after_failure prior error
              (new_snapshot env endpoint run_id now fetch tables).schema_hash (nodes_of env fetch)
              hash in
          rw (fine, process_fetch, seen, none_found) (refl, refl)
    ]

failed_turn :
    (env : Environment) (endpoint : ApiEndpoint) (tables : Tables) (run_id now : ℕ)
    (failure : FetchResult)
    → fetch_ok failure ≡ false
    → (process_fetch env endpoint run_id now failure tables).1
      ≡ add_snapshot (failed_snapshot env endpoint run_id now failure tables) tables
unfolding process_fetch
failed_turn env endpoint tables run_id now failure failed = rw (failed, process_fetch) refl

-- After a fetch that failed, the next fetch of the endpoint reports and records no differences, whatever
-- the schemas before and after the failure are, where the columns store None as the JSON value null (their
-- setting's default) and the failure is newer than all snapshots before it.
pub process_fetch-after_failure :
    (env : Environment) (endpoint : ApiEndpoint) (tables : Tables) (run_id run_id2 now now2 : ℕ)
    (failure fetch : FetchResult)
    → env.none_as_null ≡ false
    → fetch_ok failure ≡ false
    → All (λ s. s.created_at < now) tables.snapshots
    → NoDrift env endpoint run_id2 now2 fetch tables.diffs
        (process_fetch env endpoint run_id now failure tables).1
unfolding add_snapshot
process_fetch-after_failure env endpoint tables run_id run_id2 now now2 failure fetch json failed
      older =
    let last = failed_snapshot env endpoint run_id now failure tables in
    let tables2 = add_snapshot last tables in
    let current = new_snapshot env endpoint run_id2 now2 fetch tables2 in
    let visible : is_not_null last.normalized_schema ≡ true = rw json refl in
    let prior : prior_snapshot endpoint.id current.id (add_snapshot current tables2).snapshots
        ≡ some last =
      prior_snapshot_last endpoint.id last current tables.snapshots refl visible (omega arith)
        older in
    subst (NoDrift env endpoint run_id2 now2 fetch tables.diffs)
      (sym (failed_turn env endpoint tables run_id now failure failed))
      (prior_failed-NoDrift env endpoint tables2 run_id2 now2 fetch last (error_text failure.error)
        refl prior)
