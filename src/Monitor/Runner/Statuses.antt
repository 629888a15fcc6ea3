-- ===== src/Monitor/Runner/Statuses.antt =====
-- The rows of runs under the updates that end a run.
use schema_pilot_api_contrac.Base.{
  ℕ, String, ◌≡◌, ◌≢◌, refl, subst, inl, inr, Bool-cases, true, false, none, List, [], ◌∷◌, ◌++◌,
  map, arith, ◌==◌, nat_eq,
}
use schema_pilot_api_contrac.Base.Sequence.{sort_by_desc, Elem, All}
use schema_pilot_api_contrac.Base.Keyed.{Free, filter-empty}
use schema_pilot_api_contrac.Monitor.Tables.{MonitorRun, RunStatus, Tables}
use schema_pilot_api_contrac.Monitor.Runner.{
  Outcomes, count_snapshots, count_diffs, finish_run, fail_run, new_run, running_id, is_running,
  any_failed,
}

pub map-fail_run :
    (run_id now : ℕ) (message : String) (runs : List MonitorRun)
    → Free (λ r. r.id) run_id runs
    → map (fail_run run_id now message) runs ≡ runs
unfolding fail_run
map-fail_run run_id now message [] free = refl
map-fail_run run_id now message (run ∷ runs) free =
    ground (arith, free.0, map-fail_run run_id now message runs free.1)

pub Elem-last : (x : MonitorRun) (xs : List MonitorRun) → Elem x (xs ++ (x ∷ []))
Elem-last x [] = inl refl
Elem-last x (y ∷ ys) = inr (Elem-last x ys)

-- No run is recorded as running.
abbrev pub IsSettled : Tables → Type 0
IsSettled tables = All (λ run. run.status ≢ RunStatus.running) tables.runs

finish_run-status :
    (run_id now checked : ℕ) (rs : Outcomes) (run : MonitorRun)
    → run.status ≢ RunStatus.running
    → (finish_run run_id now checked rs run).status ≢ RunStatus.running
unfolding finish_run
finish_run-status run_id now checked rs run h = elim (Bool-cases (run.id == run_id)) [
  | inl same ↦ elim (Bool-cases (any_failed rs)) [
    | inl partial ↦ rw (same, partial, finish_run) (λ e. cc)
    | inr fine ↦ rw (same, fine, finish_run) (λ e. cc)
  ]
  | inr other ↦ rw (other, finish_run) h
]

pub finish_run-new :
    (run_id now checked : ℕ) (rs : Outcomes)
    → ((finish_run run_id now checked rs (new_run run_id now)).id ≡ run_id)
      × ((finish_run run_id now checked rs (new_run run_id now)).status ≢ RunStatus.running)
      × ((finish_run run_id now checked rs (new_run run_id now)).snapshots_created
          ≡ count_snapshots rs)
      × ((finish_run run_id now checked rs (new_run run_id now)).diffs_detected ≡ count_diffs rs)
unfolding finish_run
finish_run-new run_id now checked rs =
    let same : (run_id == run_id) ≡ true = ground arith in
    elim (Bool-cases (any_failed rs)) [
      | inl partial ↦ rw (same, partial, finish_run) (refl, (λ e. cc), refl, refl)
      | inr fine ↦ rw (same, fine, finish_run) (refl, (λ e. cc), refl, refl)
    ]

fail_run-status :
    (run_id now : ℕ) (message : String) (run : MonitorRun)
    → run.status ≢ RunStatus.running
    → (fail_run run_id now message run).status ≢ RunStatus.running
unfolding fail_run
fail_run-status run_id now message run h = elim (Bool-cases (run.id == run_id)) [
  | inl same ↦ rw (same, fail_run) (λ e. cc)
  | inr other ↦ rw (other, fail_run) h
]

pub finished-settled :
    (run_id now checked : ℕ) (rs : Outcomes) (runs : List MonitorRun)
    → All (λ run. run.status ≢ RunStatus.running) runs
    → All
        (λ run. run.status ≢ RunStatus.running)
        (map (finish_run run_id now checked rs) (runs ++ (new_run run_id now ∷ [])))
finished-settled run_id now checked rs [] h = ((finish_run-new run_id now checked rs).1, tt)
finished-settled run_id now checked rs (run ∷ runs) h = (
  finish_run-status run_id now checked rs run h.0,
  finished-settled run_id now checked rs runs h.1,
)

pub failed-settled :
    (run_id now : ℕ) (message : String) (runs : List MonitorRun)
    → All (λ run. run.status ≢ RunStatus.running) runs
    → All (λ run. run.status ≢ RunStatus.running) (map (fail_run run_id now message) runs)
failed-settled run_id now message [] h = tt
failed-settled run_id now message (run ∷ runs) h =
    (fail_run-status run_id now message run h.0, failed-settled run_id now message runs h.1)

not_running : (status : RunStatus) → status ≢ RunStatus.running → is_running status ≡ false
not_running RunStatus.running h = absurd (h refl)
not_running RunStatus.success h = refl
not_running RunStatus.partial_failure h = refl
not_running RunStatus.failed h = refl

settled_Elem :
    (run : MonitorRun) (runs : List MonitorRun)
    → All (λ r. r.status ≢ RunStatus.running) runs
    → Elem run runs
    → run.status ≢ RunStatus.running
settled_Elem run [] h e = elim e [ ]
settled_Elem run (r ∷ runs) h (inl here) = subst (λ z. z.status ≢ RunStatus.running) here h.0
settled_Elem run (r ∷ runs) h (inr late) = settled_Elem run runs h.1 late

pub running_id-none :
    (runs : List MonitorRun)
    → All (λ run. run.status ≢ RunStatus.running) runs
    → running_id runs ≡ none
unfolding running_id sort_by_desc
running_id-none runs h =
    rw
      (
        filter-empty (λ r. is_running r.status) runs
            (λ r e. not_running r.status (settled_Elem r runs h e)),
        running_id,
      )
      refl
