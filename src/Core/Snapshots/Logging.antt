-- ===== src/Core/Snapshots/Logging.antt =====
-- The log of violations against what a call of `track_payload` reports.
use schema_pilot_api_contrac.Base.{
  ℕ, ◌+◌, String, Bool, ◌≡◌, refl, ◌∙◌, ap, inl, inr, Option-cases, List, [], ◌∷◌, arith, nat_eq,
  string_eq,
}
use schema_pilot_api_contrac.Base.Result.{Result, ok}
use schema_pilot_api_contrac.Base.Sequence.{length, filter}
use schema_pilot_api_contrac.Json.{Json, Fields, object}
use schema_pilot_api_contrac.Schema.{Schema}
use schema_pilot_api_contrac.Core.Parser.{normalize_types, structural_string, fingerprint_schema}
use schema_pilot_api_contrac.Core.Drift.{safe, risky, breaking, Drift}
use schema_pilot_api_contrac.Core.Snapshots.{
  Tables, Route, Legacy, has_severity, is_graded, ensure_api_endpoint, register_snapshot,
  register_payload_snapshot, set_baseline, baseline_of, drifts_against, log_drift_violations,
  track_with, track_legacy,
}

length-log_drift_violations :
    (e : ℕ) (fp : String) (ds : List Drift) (t : Tables)
    → length (log_drift_violations e fp ds t).violations
      ≡ length (filter is_graded ds) + length t.violations
unfolding log_drift_violations
length-log_drift_violations e fp [] t = omega arith
length-log_drift_violations e fp (d ∷ ds) t = elim (Option-cases d.severity) [
  | inl e1 ↦ rw e1 (length-log_drift_violations e fp ds t)
  | inr (s, e1) ↦ rw e1 (
      omega (
        arith,
        length-log_drift_violations e fp ds (record t {
          violations =
              record {
                endpoint_id = e;
                observed_fingerprint = fp;
                severity = s;
                path = d.path;
                old = d.old;
                new = d.new;
              }
              ∷ t.violations;
        }),
      ))
]

graded-split :
    (ds : List Drift)
    → length (filter (has_severity safe) ds)
        + length (filter (has_severity risky) ds)
        + length (filter (has_severity breaking) ds)
      ≡ length (filter is_graded ds)
graded-split [] = omega arith
graded-split (d ∷ ds) = ground (arith, graded-split ds)

violations-register :
    (r : Route) (fp : String) (n : Schema) (now : ℕ) (t : Tables)
    → (register_payload_snapshot r fp n now t).1.violations ≡ t.violations
unfolding register_payload_snapshot ensure_api_endpoint register_snapshot
violations-register r fp n now t = ground arith

violations-baseline_of :
    (e : ℕ) (inserted : Bool) (fp : String) (n : Schema) (t : Tables)
    → (baseline_of e inserted fp n t).1.violations ≡ t.violations
unfolding baseline_of set_baseline
violations-baseline_of e inserted fp n t = ground arith

-- What `track_payload` reports of the legacy tables, and what it leaves there.
pub record IsTracked (t : Tables) (r : Result (Legacy × Tables)) : Type 0 where
  pub result : Legacy
  pub t' : Tables
  pub returned : r ≡ ok (result, t')
  pub logged : length t'.violations ≡ result.legacy_diff_count + length t.violations
  pub split :
      result.severities safe + result.severities risky + result.severities breaking
      ≡ result.legacy_diff_count

structural_string-object : (fs : Fields) → (s : String) × (structural_string (object fs) ≡ ok s)
unfolding structural_string
structural_string-object fs = (_, refl)

track_legacy-with :
    (digest : String → String) (r : Route) (payload : Json) (now : ℕ) (t : Tables) (s : String)
    → structural_string payload ≡ ok s
    → track_legacy digest r payload now t
      ≡ ok (track_with s (digest s) r (normalize_types payload) now t)
unfolding track_legacy fingerprint_schema
track_legacy-with digest r payload now t s h = rw (h, fingerprint_schema) refl

logged-with :
    (structural fp : String) (r : Route) (n : Schema) (now : ℕ) (t : Tables)
    → length (track_with structural fp r n now t).1.violations
      ≡ (track_with structural fp r n now t).0.legacy_diff_count + length t.violations
unfolding track_with
logged-with structural fp r n now t =
    let g = register_payload_snapshot r fp n now t in
    let based = baseline_of g.0.0 g.0.1 fp n g.1 in
    length-log_drift_violations g.0.0 fp (drifts_against based.0 fp n) based.1
    ∙ ap (λ vs. length (filter is_graded (drifts_against based.0 fp n)) + length vs)
        (violations-baseline_of g.0.0 g.0.1 fp n g.1 ∙ violations-register r fp n now t)

split-with :
    (structural fp : String) (r : Route) (n : Schema) (now : ℕ) (t : Tables)
    → (track_with structural fp r n now t).0.severities safe
        + (track_with structural fp r n now t).0.severities risky
        + (track_with structural fp r n now t).0.severities breaking
      ≡ (track_with structural fp r n now t).0.legacy_diff_count
unfolding track_with
split-with structural fp r n now t =
    let g = register_payload_snapshot r fp n now t in
    graded-split (drifts_against (baseline_of g.0.0 g.0.1 fp n g.1).0 fp n)

-- For a payload that is a JSON object, `track_payload` returns; it logs as many violations as the diff
-- count that it reports, and the three severities that it reports add up to that count.
pub track_legacy-IsTracked :
    (digest : String → String) (r : Route) (fs : Fields) (now : ℕ) (t : Tables)
    → IsTracked t (track_legacy digest r (object fs) now t)
track_legacy-IsTracked digest r fs now t =
    let (s, h) = structural_string-object fs in
    let n = normalize_types (object fs) in
    let out = track_with s (digest s) r n now t in
    record {
      result = out.0;
      t' = out.1;
      returned = track_legacy-with digest r (object fs) now t s h;
      logged = logged-with s (digest s) r n now t;
      split = split-with s (digest s) r n now t;
    }
