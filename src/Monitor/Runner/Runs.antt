-- ===== src/Monitor/Runner/Runs.antt =====
-- How a run ends and what it commits.
use schema_pilot_api_contrac.Base.{
  ℕ, ◌+◌, ◌≡◌, refl, ap, subst, ◌∙◌, true, List, map, arith, nat_eq,
}
use schema_pilot_api_contrac.Base.Sequence.{length}
use schema_pilot_api_contrac.Base.Result.{Exception, Result, raised, ok, >>=-eq-ok, ok-injective}
use schema_pilot_api_contrac.Monitor.Tables.{Tables}
use schema_pilot_api_contrac.Monitor.Registry.{Entry, upsert_endpoints}
use schema_pilot_api_contrac.Monitor.Registry.Written.{upsert_endpoints-SameHistory}
use schema_pilot_api_contrac.Monitor.Process.{Environment}
use schema_pilot_api_contrac.Monitor.Runner.{
  Outcomes, finished, aborted, count_snapshots, count_diffs, process_all, finish_run, fail_run,
  start_run, run_body, run_monitor,
}
use schema_pilot_api_contrac.Monitor.Runner.Turns.{process_all-Grown, retention_sweep-Grown}

-- The second tables are those that a run with the given results commits.
abbrev pub Committed : ℕ → ℕ → ℕ → Outcomes → Tables → Tables → Type 0
Committed run_id now checked rs old new =
    (new.runs ≡ map (finish_run run_id now checked rs) old.runs)
    × (length new.snapshots ≡ length old.snapshots + count_snapshots rs)
    × (length new.diffs ≡ length old.diffs + count_diffs rs)

module _ (env : Environment) where
  pub run_body-Committed :
      (run_id now : ℕ) (registry : Result (List Entry)) (tables committed : Tables)
      → run_body env run_id now registry tables ≡ ok committed
      → (checked : ℕ) × (rs : Outcomes) × Committed run_id now checked rs tables committed
  unfolding run_body
  run_body-Committed run_id now registry tables committed h =
      let (entries, loaded, rest) = >>=-eq-ok registry _ h in
      let (written, upserted, last) =
        >>=-eq-ok (upsert_endpoints env.expandvars env.upper entries tables) _ rest in
      let same =
        upsert_endpoints-SameHistory env.expandvars env.upper entries tables written upserted in
      let processed = process_all env written.1 run_id now written.0 in
      let grown = process_all-Grown env written.1 run_id now written.0 in
      let swept = retention_sweep-Grown env.none_as_null processed.1 in
      (
        length written.1,
        processed.0,
        subst (Committed run_id now (length written.1) processed.0 tables)
            (ok-injective _ committed last)
            (
              ap (map (finish_run run_id now (length written.1) processed.0))
                  (swept.2 ∙ grown.2 ∙ same.0),
              omega (arith, swept.0, grown.0, ap length same.1),
              omega (arith, swept.1, grown.1, ap length same.2),
            ),
      )

  -- The body of a run either returns or raises; so the run is finished or aborted.
  pub data Ending (now : ℕ) (registry : Result (List Entry)) (tables : Tables) : Type 0 where
    returned :
        (committed : Tables)
        → run_body env tables.next_id now registry (start_run now tables) ≡ ok committed
        → run_monitor env true now registry tables ≡ (finished tables.next_id, committed)
        → Ending now registry tables
    raising :
        (e : Exception)
        → run_monitor env true now registry tables ≡ (
          aborted e,
          record tables { runs = map (fail_run tables.next_id now (env.describe e)) tables.runs },
        )
        → Ending now registry tables

  pub ending :
      (now : ℕ) (registry : Result (List Entry)) (tables : Tables) → Ending now registry tables
  unfolding run_monitor
  ending now registry tables =
      split (run_body env tables.next_id now registry (start_run now tables)) refl
    where
      split :
          (r : Result Tables)
          → run_body env tables.next_id now registry (start_run now tables) ≡ r
          → Ending now registry tables
      split (ok committed) h = returned committed h (rw (h, run_monitor) refl)
      split (raised e) h = raising e (rw (h, run_monitor) refl)
