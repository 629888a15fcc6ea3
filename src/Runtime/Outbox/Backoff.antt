-- ===== src/Runtime/Outbox/Backoff.antt =====
-- The waiting time after a failed delivery.
use native.Mathlib.Nat.{pow-le-pow_right}
use schema_pilot_api_contrac.Base.{ℕ, ◌+◌, ◌≤◌, ◌≡◌, arith, max}
use schema_pilot_api_contrac.Runtime.Outbox.{backoff_seconds}

-- The wait is between 2 seconds and a minute, it does not shrink as attempts go on, and from the sixth
-- attempt on it is a minute.
pub backoff_seconds_bounds :
    (n : ℕ)
    → (2 ≤ backoff_seconds n)
      × (backoff_seconds n ≤ 60)
      × (backoff_seconds n ≤ backoff_seconds (n + 1))
      × (backoff_seconds (6 + n) ≡ 60)
unfolding backoff_seconds
backoff_seconds_bounds n = (
  omega (arith, pow-le-pow_right {n = 2} (omega arith) {i = 1} {j = max 1 n} (omega arith)),
  omega arith,
  omega (
    arith,
    pow-le-pow_right {n = 2} (omega arith) {i = max 1 n} {j = max 1 (n + 1)} (omega arith),
  ),
  omega (arith, pow-le-pow_right {n = 2} (omega arith) {i = 6} {j = max 1 (6 + n)} (omega arith)),
)
