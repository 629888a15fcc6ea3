-- ===== src/Runtime/Events.antt =====
-- app/runtime/events.py: the publishing of a drift event over a backend that may raise.
-- A backend is a function from the number of the attempt to whether the call returns; the waits between
-- attempts are not modelled.
use schema_pilot_api_contrac.Base.{
  ℕ, zero, suc, ◌+◌, ◌≤◌, ◌≡◌, ap, Bool, true, false, ◌||◌, arith, ◌==◌, nat_eq, if◌then◌else◌,
}

-- Whether the call of `publish_with_retry` returned, and how often it called the backend.
pub record Publication : Type 0 where
  pub returned : Bool
  pub calls : ℕ

module _ (backend : ℕ → Bool) where
  -- Some of the next `rounds` calls returns.
  pub arrives : ℕ → ℕ → Bool
  arrives zero attempt = false
  arrives (suc rounds) attempt = backend attempt || arrives rounds (attempt + 1)

module _ (backend : ℕ → Bool) (retries : ℕ) where
  -- `for attempt in range(1, retries + 1)`, with the rounds that are left
  unfoldable pub publish_from : ℕ → ℕ → Publication
  publish_from zero attempt = record { returned = true; calls = 0 }
  publish_from (suc rounds) attempt =
      let rest = publish_from rounds (attempt + 1) in
      if backend attempt
      then record { returned = true; calls = 1 }
      else if attempt == retries
      then record { returned = false; calls = 1 }
      else record rest { calls = rest.calls + 1 }

  unfoldable pub publish_with_retry : Publication
  unfolding publish_from
  publish_with_retry = publish_from retries 1

  -- `publish_fire_and_forget`: the counter KAFKA_PUBLISH_FAILURES_TOTAL
  unfoldable pub publish_fire_and_forget : ℕ → ℕ
  unfolding publish_with_retry
  publish_fire_and_forget failures = if publish_with_retry.returned then failures else failures + 1

  published :
      (rounds attempt : ℕ)
      → 1 ≤ rounds
      → attempt + rounds ≡ retries + 1
      → ((publish_from rounds attempt).returned ≡ arrives backend rounds attempt)
        × ((publish_from rounds attempt).calls ≤ rounds)
  unfolding publish_from arrives
  published zero attempt l h = absurd (omega arith)
  published (suc zero) attempt l h = (ground arith, ground arith)
  published (suc (suc rounds)) attempt l h =
      let ih = published (suc rounds) (attempt + 1) (omega arith) (omega arith) in
      (ground (arith, ih.0), ground (arith, ih.1))

  -- With at least one attempt allowed, the call returns exactly if one of the allowed attempts does, no more
  -- than `retries` calls of the backend are made, and the failure counter grows by one exactly if none
  -- returned.
  pub publish_with_retry-arrives :
      (failures : ℕ)
      → 1 ≤ retries
      → (publish_with_retry.returned ≡ arrives backend retries 1)
        × (publish_with_retry.calls ≤ retries)
        × (publish_fire_and_forget failures
            ≡ (if arrives backend retries 1 then failures else failures + 1))
  unfolding publish_with_retry publish_fire_and_forget
  publish_with_retry-arrives failures l =
      let (back, bound) = published retries 1 l (omega arith) in
      (back, bound, ap (λ b. if b then failures else failures + 1) back)
