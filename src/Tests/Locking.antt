-- ===== src/Tests/Locking.antt =====
-- Runs of the monitor under a lock.
use schema_pilot_api_contrac.Base.{
  ℕ, suc, ◌-◌, ◌≡◌, ◌≢◌, refl, Bool, true, false, Option, some, none, [], ◌∷◌, string_eq, nat_eq,
  if◌then◌else◌, ◌==◌, arith,
}
use schema_pilot_api_contrac.Base.Result.{ok}
use schema_pilot_api_contrac.Monitor.Runner.{conflict}
use schema_pilot_api_contrac.Monitor.Runner.Settled.{empty}
use schema_pilot_api_contrac.Monitor.Locking.{LockService, locked_run}
use schema_pilot_api_contrac.Monitor.Locking.Released.{locked_run-leaked}
use schema_pilot_api_contrac.Tests.Runner.{env, entry, no_tables}

-- A lock manager: the holding connection and its count.
abbrev Held : Type 0
Held = Option (ℕ × ℕ)

self : (c : ℕ) → (c == c) ≡ true
self c = ground arith

try_held : ℕ → Held → Bool × Held
try_held c none = (true, some (c, 1))
try_held c (some (d, n)) = if d == c then (true, some (c, suc n)) else (false, some (d, n))

drop_held : ℕ → Held → Held
drop_held c none = none
drop_held c (some (d, n)) =
    if d == c then (if n == 1 then none else some (d, n - 1)) else some (d, n)

try_held_free :
    (c : ℕ) (s : Held) → s ≡ none → ((try_held c s).0 ≡ true) × ((try_held c s).1 ≡ some (c, 1))
unfolding try_held
try_held_free c none h = (refl, refl)
try_held_free c (some (d, n)) h = cc

try_held_own :
    (c n : ℕ) (s : Held)
    → s ≡ some (c, n)
    → ((try_held c s).0 ≡ true) × ((try_held c s).1 ≡ some (c, suc n))
unfolding try_held
try_held_own c n s h = rw (h, try_held, (self c)) (refl, refl)

try_held_other :
    (c d n : ℕ) (s : Held)
    → s ≡ some (d, n)
    → d ≢ c
    → ((try_held c s).0 ≡ false) × ((try_held c s).1 ≡ s)
unfolding try_held
try_held_other c d n s h ne =
    let other : (d == c) ≡ false = ground (arith, ne) in rw (h, try_held, other) (refl, refl)

drop_held_last : (c : ℕ) (s : Held) → s ≡ some (c, 1) → drop_held c s ≡ none
unfolding drop_held nat_eq
drop_held_last c s h = rw (h, drop_held, (self c)) refl

drop_held_other : (c d n : ℕ) (s : Held) → s ≡ some (d, n) → d ≢ c → drop_held c s ≡ some (d, n)
unfolding drop_held
drop_held_other c d n s h ne =
    let other : (d == c) ≡ false = ground (arith, ne) in rw (h, drop_held, other) refl

abbrev manager : LockService
manager = record {
  State = Held;
  holds = λ s. s;
  try_lock = try_held;
  unlock = drop_held;
  try-free = try_held_free;
  try-own = try_held_own;
  try-other = try_held_other;
  unlock-last = drop_held_last;
  unlock-other = drop_held_other;
}

locked_run-leaked_example :
    (locked_run manager env 2 2 7 (ok (entry ∷ [])) (
      (locked_run manager env 0 1 5 (ok (entry ∷ [])) (none, no_tables)).1,
      (locked_run manager env 0 1 5 (ok (entry ∷ [])) (none, no_tables)).2,
    )).0
    ≡ conflict none
locked_run-leaked_example =
    locked_run-leaked manager env 0 1 2 2 5 7 (ok (entry ∷ [])) (ok (entry ∷ [])) none empty refl
      (λ e. cc) (λ e. cc)
