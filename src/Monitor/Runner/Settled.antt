-- ===== src/Monitor/Runner/Settled.antt =====
-- The table of runs, over any sequence of calls of `run_monitor`.
use schema_pilot_api_contrac.Base.{
  ℕ, ◌+◌, ◌≡◌, ◌≢◌, sym, ap, subst, ◌∙◌, Bool, true, false, none, List, [], ◌∷◌, ◌++◌, nat_eq,
}
use schema_pilot_api_contrac.Base.Sequence.{length, Elem, All}
use schema_pilot_api_contrac.Base.Keyed.{Free, Elem-map_of}
use schema_pilot_api_contrac.Base.Result.{Exception, Result}
use schema_pilot_api_contrac.Monitor.Tables.{MonitorRun, RunStatus, Tables}
use schema_pilot_api_contrac.Monitor.Registry.{Entry}
use schema_pilot_api_contrac.Monitor.Process.{Environment}
use schema_pilot_api_contrac.Monitor.Runner.{
  RunOutcome, conflict, finished, aborted, finish_run, start_run, run_monitor, new_run,
}
use schema_pilot_api_contrac.Monitor.Runner.Runs.{run_body-Committed, returned, raising, ending}
use schema_pilot_api_contrac.Monitor.Runner.Statuses.{
  map-fail_run, Elem-last, IsSettled, finish_run-new, finished-settled, failed-settled,
  running_id-none,
}

finished_id : RunOutcome → ℕ
finished_id (conflict id) = 0
finished_id (finished id) = id
finished_id (aborted e) = 0

finished-injective : (a b : ℕ) → finished a ≡ finished b → a ≡ b
unfolding finished_id
finished-injective a b h = ap finished_id h

-- The run is recorded, not as running, with the numbers of new snapshots and of new differences.
abbrev pub Recorded : ℕ → Tables → Tables → Type 0
Recorded run_id old new =
    (run : MonitorRun) × Elem run new.runs
    × (run.id ≡ run_id)
    × (run.status ≢ RunStatus.running)
    × (length new.snapshots ≡ length old.snapshots + run.snapshots_created)
    × (length new.diffs ≡ length old.diffs + run.diffs_detected)

module _ (env : Environment) where
  -- A run that raises leaves every table as it was, so it is not recorded as failed either, if no run has
  -- the new run's identifier.
  pub run_monitor-aborted :
      (now : ℕ) (registry : Result (List Entry)) (tables : Tables) (e : Exception)
      → Free (λ r. r.id) tables.next_id tables.runs
      → (run_monitor env true now registry tables).0 ≡ aborted e
      → (run_monitor env true now registry tables).1 ≡ tables
  run_monitor-aborted now registry tables e free h = elim (ending env now registry tables) [
    | returned committed body eq ↦ let f = sym (ap (λ r. r.0) eq) ∙ h in cc
    | raising e2 eq ↦
        ap (λ r. r.1) eq
        ∙ ap (λ runs. record tables { runs = runs })
            (map-fail_run tables.next_id now (env.describe e2) tables.runs free)
  ]

  -- A run that is finished is recorded with a settled status and with the number of snapshots and of
  -- differences by which it has grown the tables.
  pub run_monitor-counts :
      (now : ℕ) (registry : Result (List Entry)) (tables : Tables) (run_id : ℕ)
      → (run_monitor env true now registry tables).0 ≡ finished run_id
      → Recorded run_id tables (run_monitor env true now registry tables).1
  unfolding start_run
  run_monitor-counts now registry tables run_id h = elim (ending env now registry tables) [
    | raising e eq ↦ let f = sym (ap (λ r. r.0) eq) ∙ h in cc
    | returned committed body eq ↦
        let id = tables.next_id in
        let (checked, rs, c) =
          run_body-Committed env id now registry (start_run now tables) committed body in
        let finish = finish_run id now checked rs in
        let new = finish_run-new id now checked rs in
        let same : id ≡ run_id = finished-injective id run_id (sym (ap (λ r. r.0) eq) ∙ h) in
        let recorded : Recorded id tables committed = (
          finish (new_run id now),
          subst (Elem (finish (new_run id now))) (sym c.0) (
              Elem-map_of finish (new_run id now) (tables.runs ++ (new_run id now ∷ []))
                (Elem-last (new_run id now) tables.runs)),
          new.0,
          new.1,
          c.1 ∙ ap (λ n. length tables.snapshots + n) (sym new.2),
          c.2 ∙ ap (λ n. length tables.diffs + n) (sym new.3),
        ) in
        subst (λ k. Recorded k tables (run_monitor env true now registry tables).1) same
          (subst (Recorded id tables) (sym (ap (λ r. r.1) eq)) recorded)
  ]

  run_monitor-IsSettled :
      (got_lock : Bool) (now : ℕ) (registry : Result (List Entry)) (tables : Tables)
      → IsSettled tables
      → IsSettled (run_monitor env got_lock now registry tables).1
  unfolding run_monitor start_run
  run_monitor-IsSettled false now registry tables h = h
  run_monitor-IsSettled true now registry tables h = elim (ending env now registry tables) [
    | raising e eq ↦
        subst IsSettled (sym (ap (λ r. r.1) eq))
          (failed-settled tables.next_id now (env.describe e) tables.runs h)
    | returned committed body eq ↦
        let id = tables.next_id in
        let (checked, rs, c) =
          run_body-Committed env id now registry (start_run now tables) committed body in
        subst IsSettled (sym (ap (λ r. r.1) eq)) (
          subst (All (λ run. run.status ≢ RunStatus.running)) (sym c.0)
            (finished-settled id now checked rs tables.runs h))
  ]

-- The tables that calls of `run_monitor` commit, from empty ones, each call in an environment of its own.
pub data Reachable : Tables → Type 0 where
  empty : Reachable (record { endpoints = []; runs = []; snapshots = []; diffs = []; next_id = 0 })
  called :
      {tables : Tables}
      → Reachable tables
      → (env : Environment) (got_lock : Bool) (now : ℕ) (registry : Result (List Entry))
      → Reachable (run_monitor env got_lock now registry tables).1

pub Reachable-IsSettled : {tables : Tables} → Reachable tables → IsSettled tables
Reachable-IsSettled empty = tt
Reachable-IsSettled (called {tables} before_call env got_lock now registry) =
    run_monitor-IsSettled env got_lock now registry tables (Reachable-IsSettled before_call)

-- A run that finds the lock taken ends in 409 and changes nothing; and the run that holds the lock is never
-- named, since no committed run is recorded as running.
pub run_monitor-conflict :
    {tables : Tables}
    → Reachable tables
    → (env : Environment) (now : ℕ) (registry : Result (List Entry))
    → run_monitor env false now registry tables ≡ (conflict none, tables)
unfolding run_monitor
run_monitor-conflict {tables} reached env now registry =
    ap (λ id. (conflict id, tables)) (running_id-none tables.runs (Reachable-IsSettled reached))
