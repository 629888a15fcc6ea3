-- ===== src/Core/Snapshots/Baselines.antt =====
-- Which snapshots are active baselines after a payload became one.
use schema_pilot_api_contrac.Base.{
  ℕ, String, true, ◌≡◌, List, [], ◌∷◌, map, arith, ◌==◌, nat_eq, string_eq, if◌then◌else◌,
}
use schema_pilot_api_contrac.Base.Sequence.{filter}
use schema_pilot_api_contrac.Core.Snapshots.{
  Snapshot, Tables, is_snapshot, is_baseline_of, deactivate, activate, set_baseline,
}

abbrev pub activated : Snapshot → Snapshot
activated s = record s { is_active_baseline = true }

baselines :
    (d e : ℕ) (fp : String) (ss : List Snapshot)
    → filter (is_baseline_of d) (map (activate e fp) (map (deactivate e) ss)) ≡ (
        if d == e
        then map activated (filter (is_snapshot e fp) ss)
        else filter (is_baseline_of d) ss)
baselines d e fp [] = ground arith
baselines d e fp (s ∷ ss) = ground (arith, baselines d e fp ss)

-- After a fingerprint became an endpoint's baseline, the endpoint's active baselines are its snapshots with
-- that fingerprint, and every other endpoint has those that it had.
pub set_baseline-activated :
    (d e : ℕ) (fp : String) (t : Tables)
    → filter (is_baseline_of d) (set_baseline e fp t).snapshots ≡ (
        if d == e
        then map activated (filter (is_snapshot e fp) t.snapshots)
        else filter (is_baseline_of d) t.snapshots)
unfolding set_baseline
set_baseline-activated d e fp t = baselines d e fp t.snapshots
