-- ===== src/Monitor/Locking.antt =====
-- backend/app/core/locking.py: the advisory lock that `run_monitor` runs under.
pub mod Released
use schema_pilot_api_contrac.Base.{
  ℕ, suc, ◌≡◌, ◌≢◌, Bool, true, false, Option, none, some, List, if◌then◌else◌,
}
use schema_pilot_api_contrac.Base.Result.{Result}
use schema_pilot_api_contrac.Monitor.Tables.{Tables}
use schema_pilot_api_contrac.Monitor.Registry.{Entry}
use schema_pilot_api_contrac.Monitor.Process.{Environment}
use schema_pilot_api_contrac.Monitor.Runner.{RunOutcome, run_monitor}

-- The database's session-level advisory lock of one key, as PostgreSQL documents it: the connection that holds
-- it takes it again, others do not get it, and each unlock by the holder takes back one lock.
pub record LockService : Type 1 where
  pub State : Type 0
  pub holds : State → Option (ℕ × ℕ)
  pub try_lock : ℕ → State → Bool × State
  pub unlock : ℕ → State → State
  pub try-free :
      (c : ℕ) (s : State)
      → holds s ≡ none
      → ((try_lock c s).0 ≡ true) × (holds (try_lock c s).1 ≡ some (c, 1))
  pub try-own :
      (c n : ℕ) (s : State)
      → holds s ≡ some (c, n)
      → ((try_lock c s).0 ≡ true) × (holds (try_lock c s).1 ≡ some (c, suc n))
  pub try-other :
      (c d n : ℕ) (s : State)
      → holds s ≡ some (d, n)
      → d ≢ c
      → ((try_lock c s).0 ≡ false) × ((try_lock c s).1 ≡ s)
  pub unlock-last : (c : ℕ) (s : State) → holds s ≡ some (c, 1) → holds (unlock c s) ≡ none
  pub unlock-other :
      (c d n : ℕ) (s : State) → holds s ≡ some (d, n) → d ≢ c → holds (unlock c s) ≡ some (d, n)

module _ (service : LockService) where
  -- the `finally` of `advisory_lock`
  unfoldable pub release : Bool → ℕ → service.State → service.State
  release acquired connection lock = if acquired then service.unlock connection lock else lock

  -- `run_monitor` under `advisory_lock`: the session takes the lock on one connection, and gives it back on
  -- the connection that it has then, which after a commit or a rollback may be another of the pool.
  unfoldable pub locked_run :
      Environment
      → (enter leave now : ℕ) → Result (List Entry)
      → service.State × Tables
      → RunOutcome × service.State × Tables
  unfolding release
  locked_run env enter leave now registry (lock, tables) =
      let (acquired, taken) = service.try_lock enter lock in
      let (outcome, after) = run_monitor env acquired now registry tables in
      (outcome, release acquired leave taken, after)
