-- ===== src/Runtime/Registry/Lineage.antt =====
-- The versions of one endpoint, newest first: a chain that counts down to 1, whose head alone is current.
use schema_pilot_api_contrac.Base.{
  ℕ, ◌+◌, ◌≤◌, ◌≡◌, refl, ◌∙◌, sym, suc, ◌<◌, ap, ◌≢◌, String, true, false, ◌&&◌, Option, none,
  some, List, [], ◌∷◌, map, arith, ◌==◌, nat_eq, string_eq, inl, inr, Bool-cases,
}
use schema_pilot_api_contrac.Base.Sequence.{All, length, filter, find?}
use schema_pilot_api_contrac.Runtime.Database.{Database, SchemaVersionRecord}
use schema_pilot_api_contrac.Runtime.Registry.{
  rows_of, latest, get_current_schema, retire, conflicts, next_version, previous_id,
}

abbrev pub head? : List SchemaVersionRecord → Option SchemaVersionRecord
head? [] = none
head? (v ∷ vs) = some v

-- Version numbers count down to 1, and each row links to the one before it.
abbrev pub IsChain : List SchemaVersionRecord → Type 0
IsChain [] = Unit
IsChain (v ∷ vs) =
    (v.version ≡ length vs + 1) × (v.previous_version_id ≡ previous_id (head? vs)) × IsChain vs

abbrev pub IsRetired : SchemaVersionRecord → Type 0
IsRetired v = v.is_current ≡ false

abbrev pub HeadIsCurrent : List SchemaVersionRecord → Type 0
HeadIsCurrent [] = Unit
HeadIsCurrent (v ∷ vs) = (v.is_current ≡ true) × All IsRetired vs

abbrev pub Lacks : String → List SchemaVersionRecord → Type 0
Lacks fp = All (λ v. v.fingerprint ≢ fp)

abbrev pub DistinctFingerprints : List SchemaVersionRecord → Type 0
DistinctFingerprints [] = Unit
DistinctFingerprints (v ∷ vs) = Lacks v.fingerprint vs × DistinctFingerprints vs

pub record IsLineage (rows : List SchemaVersionRecord) : Type 0 where
  pub chain : IsChain rows
  pub current : HeadIsCurrent rows
  pub distinct : DistinctFingerprints rows

abbrev current_only : List SchemaVersionRecord → List SchemaVersionRecord
current_only = filter (λ v. v.is_current)

current_only-retired : (vs : List SchemaVersionRecord) → All IsRetired vs → current_only vs ≡ []
current_only-retired [] h = refl
current_only-retired (v ∷ vs) h = rw (h.0) (current_only-retired vs h.1)

latest-current_only :
    (vs : List SchemaVersionRecord) → HeadIsCurrent vs → latest (current_only vs) ≡ head? vs
unfolding latest
latest-current_only [] h = refl
latest-current_only (v ∷ vs) h = rw (h.0, current_only-retired vs h.1)

-- The current schema is the newest row.
pub get_current_schema-head :
    (e : ℕ) (db : Database)
    → IsLineage (rows_of e db.versions)
    → get_current_schema e db ≡ head? (rows_of e db.versions)
unfolding get_current_schema
get_current_schema-head e db l = latest-current_only _ l.current

pub version-le :
    (vs : List SchemaVersionRecord) (n : ℕ)
    → IsChain vs
    → length vs ≤ n
    → All (λ v. v.version ≤ n) vs
version-le [] n h b = tt
version-le (v ∷ vs) n h b = (omega (arith, h.0), version-le vs n h.2 (omega arith))

pub next_version-head :
    (vs : List SchemaVersionRecord) → IsChain vs → next_version (head? vs) ≡ length vs + 1
next_version-head [] h = omega arith
next_version-head (v ∷ vs) h = omega (arith, h.0)

-- `is_current = FALSE`
abbrev pub retired : SchemaVersionRecord → SchemaVersionRecord
retired v = record v { is_current = false }

pub rows_of-retire :
    (e : ℕ) (vs : List SchemaVersionRecord)
    → rows_of e (map (retire e) vs) ≡ map retired (rows_of e vs)
rows_of-retire e [] = refl
rows_of-retire e (v ∷ vs) = ground (arith, rows_of-retire e vs)

pub rows_of-retire_ne :
    (d e : ℕ) (vs : List SchemaVersionRecord) → d ≢ e → rows_of d (map (retire e) vs) ≡ rows_of d vs
rows_of-retire_ne d e [] ne = refl
rows_of-retire_ne d e (v ∷ vs) ne = ground (arith, rows_of-retire_ne d e vs ne)

length-retired : (vs : List SchemaVersionRecord) → length (map retired vs) ≡ length vs
length-retired [] = refl
length-retired (v ∷ vs) = ap suc (length-retired vs)

previous_id-retired :
    (vs : List SchemaVersionRecord) → previous_id (head? (map retired vs)) ≡ previous_id (head? vs)
previous_id-retired [] = refl
previous_id-retired (v ∷ vs) = refl

IsChain-retired : (vs : List SchemaVersionRecord) → IsChain vs → IsChain (map retired vs)
IsChain-retired [] h = tt
IsChain-retired (v ∷ vs) h = (
  omega (arith, h.0, length-retired vs),
  h.1 ∙ sym (previous_id-retired vs),
  IsChain-retired vs h.2,
)

All-IsRetired : (vs : List SchemaVersionRecord) → All IsRetired (map retired vs)
All-IsRetired [] = tt
All-IsRetired (v ∷ vs) = (refl, All-IsRetired vs)

pub Lacks-retired :
    (fp : String) (vs : List SchemaVersionRecord) → Lacks fp vs → Lacks fp (map retired vs)
Lacks-retired fp [] h = tt
Lacks-retired fp (v ∷ vs) h = (h.0, Lacks-retired fp vs h.1)

DistinctFingerprints-retired :
    (vs : List SchemaVersionRecord)
    → DistinctFingerprints vs
    → DistinctFingerprints (map retired vs)
DistinctFingerprints-retired [] h = tt
DistinctFingerprints-retired (v ∷ vs) h =
    (Lacks-retired v.fingerprint vs h.0, DistinctFingerprints-retired vs h.1)

-- A new head over retired rows.
pub IsLineage-cons :
    (v : SchemaVersionRecord) (vs : List SchemaVersionRecord)
    → IsLineage vs
    → v.version ≡ length vs + 1
    → v.previous_version_id ≡ previous_id (head? vs)
    → v.is_current ≡ true
    → Lacks v.fingerprint vs
    → IsLineage (v ∷ map retired vs)
IsLineage-cons v vs l number link now fresh = record {
  chain = (
    omega (arith, number, length-retired vs),
    link ∙ sym (previous_id-retired vs),
    IsChain-retired vs l.chain,
  );
  current = (now, All-IsRetired vs);
  distinct = (Lacks-retired v.fingerprint vs fresh, DistinctFingerprints-retired vs l.distinct);
}

pub find_fingerprint-none :
    (e : ℕ) (fp : String) (vs : List SchemaVersionRecord)
    → find? (λ v. v.endpoint_id == e && v.fingerprint == fp) vs ≡ none
    → Lacks fp (rows_of e vs)
find_fingerprint-none e fp [] h = tt
find_fingerprint-none e fp (v ∷ vs) h = elim (Bool-cases (v.endpoint_id == e)) [
  | inl same ↦ rw same ((λ p. ground arith), find_fingerprint-none e fp vs (ground arith))
  | inr other ↦ rw other (find_fingerprint-none e fp vs (ground arith))
]

-- No row stands in the way of the new one.
pub conflicts-none :
    (row : SchemaVersionRecord) (vs : List SchemaVersionRecord) (n : ℕ)
    → All (λ v. v.version ≤ n) (rows_of row.endpoint_id vs)
    → Lacks row.fingerprint (rows_of row.endpoint_id vs)
    → n < row.version
    → find? (conflicts row) vs ≡ none
conflicts-none row [] n a b h = refl
conflicts-none row (v ∷ vs) n a b h = elim (Bool-cases (v.endpoint_id == row.endpoint_id)) [
  | inl same ↦
      let a' : All (λ w. w.version ≤ n) (v ∷ rows_of row.endpoint_id vs) = rw same at a in
      let b' : Lacks row.fingerprint (v ∷ rows_of row.endpoint_id vs) = rw same at b in
      ground (arith, a'.0, b'.0, conflicts-none row vs n a'.1 b'.1 h)
  | inr other ↦ ground (arith, conflicts-none row vs n (rw other at a) (rw other at b) h)
]
