-- ===== src/Monitor/Runner/Retention.antt =====
-- The retention sweep, row by row.
use schema_pilot_api_contrac.Base.{
  ℕ, zero, suc, ◌≡◌, refl, sym, ap, ap₂, ◌∙◌, inl, inr, Bool, true, false, not, ◌&&◌, Bool-cases,
  List, [], ◌∷◌, map, arith, ◌==◌, contains, nat_eq, if◌then◌else◌,
}
use mathlib.Core.List.{cons-ne-nil}
use schema_pilot_api_contrac.Base.Descending.{Elem-sort_by_desc_of, sort_by_desc-map}
use schema_pilot_api_contrac.Base.Sequence.{Elem-filter_of, filter, take, sort_by_desc, Elem}
use schema_pilot_api_contrac.Base.Keyed.{has_id, map-agree, map-map, map-same}
use schema_pilot_api_contrac.Monitor.Tables.{
  is_not_null, store_none, ApiEndpoint, SchemaSnapshot, Tables,
}
use schema_pilot_api_contrac.Monitor.Runner.{
  keep_ids, clear_sample, sweep_endpoint, sweep_all, retention_sweep, raw_retention_per_endpoint,
}

map_id : (xs : List SchemaSnapshot) → map (λ s. s) xs ≡ xs
map_id xs = map-same (λ s. s) xs (λ s. refl)

-- A change of rows that keeps their identifiers, endpoints and times.
abbrev KeepsKeys : (SchemaSnapshot → SchemaSnapshot) → Type 0
KeepsKeys f =
    (s : SchemaSnapshot)
    → ((f s).id ≡ s.id) × ((f s).endpoint_id ≡ s.endpoint_id) × ((f s).created_at ≡ s.created_at)

module _ (f : SchemaSnapshot → SchemaSnapshot) (keeps : KeepsKeys f) where
  filter-map :
      (id : ℕ) (xs : List SchemaSnapshot)
      → filter (λ s. s.endpoint_id == id) (map f xs) ≡ map f (filter (λ s. s.endpoint_id == id) xs)
  filter-map id [] = refl
  filter-map id (x ∷ xs) = ground (arith, (keeps x).1, filter-map id xs)

  ids-take-map :
      (n : ℕ) (xs : List SchemaSnapshot)
      → map (λ s. s.id) (take n (map f xs)) ≡ map (λ s. s.id) (take n xs)
  ids-take-map zero xs = refl
  ids-take-map (suc n) [] = refl
  ids-take-map (suc n) (x ∷ xs) = ap₂ (λ i is. i ∷ is) (keeps x).0 (ids-take-map n xs)

  keep_ids-map :
      (keep id : ℕ) (xs : List SchemaSnapshot) → keep_ids keep id (map f xs) ≡ keep_ids keep id xs
  unfolding keep_ids
  keep_ids-map keep id xs =
      ap (λ ys. map (λ s. s.id) (take keep (sort_by_desc (λ s. s.created_at) ys)))
        (filter-map id xs)
      ∙ ap (λ ys. map (λ s. s.id) (take keep ys))
          (sort_by_desc-map (λ s. s.created_at) f (λ s. (keeps s).2)
            (filter (λ s. s.endpoint_id == id) xs))
      ∙ ids-take-map keep (sort_by_desc (λ s. s.created_at) (filter (λ s. s.endpoint_id == id) xs))

clear_sample-KeepsKeys :
    (none_as_null : Bool) (id : ℕ) (kept : List ℕ) → KeepsKeys (clear_sample none_as_null id kept)
unfolding clear_sample
clear_sample-KeepsKeys none_as_null id kept s =
    elim (Bool-cases
      (s.endpoint_id == id && not (contains kept s.id) && is_not_null s.raw_sample)) [
        | inl clears ↦ rw (clears, clear_sample) (refl, refl, refl)
        | inr leaves ↦ rw (leaves, clear_sample) (refl, refl, refl)
      ]

nonempty :
    (n : ℕ) (s : SchemaSnapshot) (xs : List SchemaSnapshot)
    → map (λ x. x.id) (take (suc n) xs) ≡ []
    → Elem s xs
    → ⊥
nonempty n s [] h e = elim e [ ]
nonempty n s (x ∷ xs) h e = cons-ne-nil x.id (map (λ y. y.id) (take n xs)) h

-- No identifier is kept only where the endpoint has no snapshot.
no_rows :
    (n id : ℕ) (xs : List SchemaSnapshot) (s : SchemaSnapshot)
    → keep_ids (suc n) id xs ≡ []
    → Elem s xs
    → (s.endpoint_id == id) ≡ false
unfolding keep_ids
no_rows n id xs s h e = elim (Bool-cases (s.endpoint_id == id)) [
  | inr other ↦ other
  | inl same ↦
      let own = filter (λ x. x.endpoint_id == id) xs in
      absurd (
        nonempty n s (sort_by_desc (λ x. x.created_at) own) h (
          Elem-sort_by_desc_of (λ x. x.created_at) s own
            (Elem-filter_of (λ x. x.endpoint_id == id) s xs e same)))
]

clear_other :
    (none_as_null : Bool) (id : ℕ) (kept : List ℕ) (s : SchemaSnapshot)
    → (s.endpoint_id == id) ≡ false
    → clear_sample none_as_null id kept s ≡ s
unfolding clear_sample
clear_other none_as_null id kept s h = rw (h, clear_sample) refl

sweep_endpoint-map :
    (none_as_null : Bool) (n id : ℕ) (xs : List SchemaSnapshot)
    → sweep_endpoint none_as_null (suc n) id xs
      ≡ map (clear_sample none_as_null id (keep_ids (suc n) id xs)) xs
unfolding sweep_endpoint
sweep_endpoint-map none_as_null n id xs = split (keep_ids (suc n) id xs) refl
  where
    split :
        (ids : List ℕ)
        → keep_ids (suc n) id xs ≡ ids
        → sweep_endpoint none_as_null (suc n) id xs
          ≡ map (clear_sample none_as_null id (keep_ids (suc n) id xs)) xs
    split (i ∷ ids) h = rw (h, sweep_endpoint) refl
    split [] h =
        rw (h, sweep_endpoint)
          (sym (map_id xs)
            ∙ map-agree (λ s. s) (clear_sample none_as_null id []) xs
                (λ s e. sym (clear_other none_as_null id [] s (no_rows n id xs s h e))))

-- The sweeps of some endpoints on one row, with the identifiers that are kept for each.
abbrev swept_by : Bool → (ℕ → List ℕ) → List ApiEndpoint → SchemaSnapshot → SchemaSnapshot
swept_by none_as_null ids [] s = s
swept_by none_as_null ids (ep ∷ eps) s =
    swept_by none_as_null ids eps (clear_sample none_as_null ep.id (ids ep.id) s)

sweep_all-map :
    (none_as_null : Bool) (n : ℕ) (eps : List ApiEndpoint) (xs : List SchemaSnapshot)
    (ids : ℕ → List ℕ)
    → ((id : ℕ) → keep_ids (suc n) id xs ≡ ids id)
    → sweep_all none_as_null (suc n) eps xs ≡ map (swept_by none_as_null ids eps) xs
unfolding sweep_all
sweep_all-map none_as_null n [] xs ids h = sym (map_id xs)
sweep_all-map none_as_null n (ep ∷ eps) xs ids h =
    let clear = clear_sample none_as_null ep.id (ids ep.id) in
    let keeps = clear_sample-KeepsKeys none_as_null ep.id (ids ep.id) in
    let swept =
      sweep_endpoint-map none_as_null n ep.id xs
      ∙ ap (λ k. map (clear_sample none_as_null ep.id k) xs) (h ep.id) in
    ap (sweep_all none_as_null (suc n) eps) swept
    ∙ sweep_all-map none_as_null n eps (map clear xs) ids
        (λ id. keep_ids-map clear keeps (suc n) id xs ∙ h id)
    ∙ map-map (swept_by none_as_null ids eps) clear xs

-- What the sweep is to do to a row of some tables: clear its sample, if it has one, if its endpoint is
-- listed, and if it is not one of the endpoint's newest.
abbrev pub retained : Bool → ℕ → Tables → SchemaSnapshot → SchemaSnapshot
retained none_as_null keep tables s =
    if has_id (λ ep. ep.id) s.endpoint_id tables.endpoints
      && (not (contains (keep_ids keep s.endpoint_id tables.snapshots) s.id)
          && is_not_null s.raw_sample)
    then record s { raw_sample = store_none none_as_null }
    else s

abbrev cleared : Bool → SchemaSnapshot → SchemaSnapshot
cleared none_as_null s = record s { raw_sample = store_none none_as_null }

if_same : (b : Bool) (s : SchemaSnapshot) → (if b then s else s) ≡ s
if_same true s = refl
if_same false s = refl

if_and_false : (b : Bool) (s t : SchemaSnapshot) → (if b && false then s else t) ≡ t
if_and_false true s t = refl
if_and_false false s t = refl

-- The next endpoint's sweep on a row of this endpoint.
clear_own :
    (none_as_null : Bool) (id : ℕ) (kept : List ℕ) (s : SchemaSnapshot)
    → (s.endpoint_id == id) ≡ true
    → clear_sample none_as_null id kept s
      ≡ (if not (contains kept s.id) && is_not_null s.raw_sample then cleared none_as_null s else s)
unfolding clear_sample
clear_own none_as_null id kept s h = rw (h, clear_sample) refl

abbrev due : (ℕ → List ℕ) → SchemaSnapshot → Bool
due ids s = not (contains (ids s.endpoint_id) s.id) && is_not_null s.raw_sample

swept_by-retained :
    (none_as_null : Bool) (ids : ℕ → List ℕ) (eps : List ApiEndpoint) (s : SchemaSnapshot)
    → swept_by none_as_null ids eps s
      ≡ (if has_id (λ ep. ep.id) s.endpoint_id eps && due ids s then cleared none_as_null s else s)
swept_by-retained none_as_null ids [] s = refl
swept_by-retained none_as_null ids (ep ∷ eps) s = elim (Bool-cases (s.endpoint_id == ep.id)) [
  | inr other ↦
      let not_own : (ep.id == s.endpoint_id) ≡ false = ground arith in
      rw (clear_other none_as_null ep.id (ids ep.id) s other, not_own)
        (swept_by-retained none_as_null ids eps s)
  | inl own ↦
      let is_own : (ep.id == s.endpoint_id) ≡ true = ground arith in
      let e : ep.id ≡ s.endpoint_id = ground arith in
      let one : clear_sample none_as_null ep.id (ids ep.id) s
          ≡ (if due ids s then cleared none_as_null s else s) =
        clear_own none_as_null ep.id (ids ep.id) s own
        ∙ ap
            (λ k.
              if not (contains (ids k) s.id) && is_not_null s.raw_sample
              then cleared none_as_null s
              else s)
            e in
      let has = has_id (λ z. z.id) s.endpoint_id eps in
      let again = cleared none_as_null s in
      elim (Bool-cases (due ids s)) [
        | inr keeps ↦
            rw (one, is_own, keeps)
              (swept_by-retained none_as_null ids eps s
                ∙ ap (λ b. if has && b then again else s) keeps
                ∙ if_and_false has again s)
        | inl clears ↦
            rw (one, is_own, clears)
              (swept_by-retained none_as_null ids eps again ∙ if_same (has && due ids again) again)
      ]
]

-- The sweep changes just the rows that it is to clear, whatever the order of the endpoints: the newest ten
-- snapshots of each endpoint keep their samples, as do those of endpoints that are not listed.
pub retention_sweep-retained :
    (none_as_null : Bool) (tables : Tables)
    → retention_sweep none_as_null tables ≡ record tables {
      snapshots = map (retained none_as_null raw_retention_per_endpoint tables) tables.snapshots;
    }
unfolding retention_sweep
retention_sweep-retained none_as_null tables =
    let ids : ℕ → List ℕ = λ id. keep_ids 10 id tables.snapshots in
    ap (λ xs. record tables { snapshots = xs })
      (sweep_all-map none_as_null 9 tables.endpoints tables.snapshots ids (λ id. refl)
        ∙ map-agree (swept_by none_as_null ids tables.endpoints) (retained none_as_null 10 tables)
            tables.snapshots (λ s e. swept_by-retained none_as_null ids tables.endpoints s))
