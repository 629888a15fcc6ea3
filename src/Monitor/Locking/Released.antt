-- ===== src/Monitor/Locking/Released.antt =====
-- When the lock is given back.
use schema_pilot_api_contrac.Base.{ℕ, ◌≡◌, ◌≢◌, refl, sym, ap, subst, true, none, some, List}
use schema_pilot_api_contrac.Base.Result.{Result}
use schema_pilot_api_contrac.Monitor.Tables.{Tables}
use schema_pilot_api_contrac.Monitor.Registry.{Entry}
use schema_pilot_api_contrac.Monitor.Process.{Environment}
use schema_pilot_api_contrac.Monitor.Runner.{conflict, run_monitor}
use schema_pilot_api_contrac.Monitor.Runner.Settled.{Reachable, called, run_monitor-conflict}
use schema_pilot_api_contrac.Monitor.Locking.{LockService, release, locked_run}

module _ (service : LockService) (env : Environment) where
  -- A run that finds the lock free does its work, and gives the lock back however it ends, if it does so on
  -- the connection that took it.
  pub locked_run-released :
      (connection now : ℕ) (registry : Result (List Entry)) (lock : service.State) (tables : Tables)
      → service.holds lock ≡ none
      → ((locked_run service env connection connection now registry (lock, tables)).0
          ≡ (run_monitor env true now registry tables).0)
        × (service.holds
              (locked_run service env connection connection now registry (lock, tables)).1
            ≡ none)
        × ((locked_run service env connection connection now registry (lock, tables)).2
            ≡ (run_monitor env true now registry tables).1)
  unfolding locked_run release
  locked_run-released connection now registry lock tables unlocked =
      let (got, once) = service.try-free connection lock unlocked in
      rw got (refl, service.unlock-last connection (service.try_lock connection lock).1 once, refl)

  -- While another connection holds the lock, a run ends in 409 and changes neither lock nor tables.
  pub locked_run-conflict :
      (enter leave now holder n : ℕ) (registry : Result (List Entry)) (lock : service.State)
      {tables : Tables}
      → Reachable tables
      → service.holds lock ≡ some (holder, n)
      → holder ≢ enter
      → locked_run service env enter leave now registry (lock, tables)
        ≡ (conflict none, lock, tables)
  unfolding locked_run release
  locked_run-conflict enter leave now holder n registry lock {tables} reached taken other =
      let (refused, same) = service.try-other enter holder n lock taken other in
      let ended = run_monitor-conflict reached env now registry in rw (refused, same, ended) refl

  -- The run itself and what it leaves, with the lock given back on another connection.
  kept_lock :
      (enter leave now : ℕ) (registry : Result (List Entry)) (lock : service.State)
      (tables : Tables)
      → service.holds lock ≡ none
      → enter ≢ leave
      → (service.holds (locked_run service env enter leave now registry (lock, tables)).1
          ≡ some (enter, 1))
        × ((locked_run service env enter leave now registry (lock, tables)).2
            ≡ (run_monitor env true now registry tables).1)
  unfolding locked_run release
  kept_lock enter leave now registry lock tables unlocked elsewhere =
      let (got, once) = service.try-free enter lock unlocked in
      rw got
        (service.unlock-other leave enter 1 (service.try_lock enter lock).1 once elsewhere, refl)

  -- If the session gives the lock back on another connection than it took it on, the first one keeps it: a
  -- later run through another connection ends in 409.
  pub locked_run-leaked :
      (enter leave enter2 leave2 now now2 : ℕ) (registry registry2 : Result (List Entry))
      (lock : service.State) {tables : Tables}
      → Reachable tables
      → service.holds lock ≡ none
      → enter ≢ leave
      → enter ≢ enter2
      → (locked_run service env enter2 leave2 now2 registry2 (
        (locked_run service env enter leave now registry (lock, tables)).1,
        (locked_run service env enter leave now registry (lock, tables)).2,
      )).0
        ≡ conflict none
  locked_run-leaked enter leave enter2 leave2 now now2 registry registry2 lock {tables} reached
        unlocked elsewhere other =
      let (kept, ran) = kept_lock enter leave now registry lock tables unlocked elsewhere in
      let reached2 = subst Reachable (sym ran) (called reached env true now registry) in
      ap (λ r. r.0)
        (locked_run-conflict enter2 leave2 now2 enter 1 registry2
          (locked_run service env enter leave now registry (lock, tables)).1 reached2 kept other)
