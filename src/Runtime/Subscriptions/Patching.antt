-- ===== src/Runtime/Subscriptions/Patching.antt =====
-- What a patch of a subscription changes.
use mathlib.Core.Option
use schema_pilot_api_contrac.Base.{
  ℕ, ◌≡◌, refl, inl, inr, Bool-cases, List, [], ◌∷◌, map, arith, ◌==◌, nat_eq, if◌then◌else◌,
}
use schema_pilot_api_contrac.Base.Sequence.{find?}
use schema_pilot_api_contrac.Runtime.Database.{Database, Subscription}
use schema_pilot_api_contrac.Runtime.Subscriptions.{
  get_subscription, Patch, is_empty, patched, update_subscription,
}

find-patched :
    (i j : ℕ) (p : Patch) (now : ℕ) (xs : List Subscription)
    → find? (λ s. s.id == j) (map (λ s. if s.id == i then patched p now s else s) xs) ≡ (
        if j == i
        then Option.map (patched p now) (find? (λ s. s.id == j) xs)
        else find? (λ s. s.id == j) xs)
find-patched i j p now [] = ground arith
find-patched i j p now (s ∷ xs) = ground (arith, find-patched i j p now xs)

-- After a patch of subscription `i`: with no column given, every subscription is as it was; otherwise the
-- subscription of that id has the given columns and the new time, and the others are as they were. The
-- call returns what the table then has under `i`.
pub update_subscription-patched :
    (i j : ℕ) (p : Patch) (now : ℕ) (db : Database)
    → (get_subscription j (update_subscription i p now db).1 ≡ (
        if is_empty p
        then get_subscription j db
        else if j == i
        then Option.map (patched p now) (get_subscription j db)
        else get_subscription j db))
      × ((update_subscription i p now db).0 ≡ get_subscription i (update_subscription i p now db).1)
unfolding update_subscription get_subscription
update_subscription-patched i j p now db = elim (Bool-cases (is_empty p)) [
  | inl e ↦ rw e (refl, refl)
  | inr e ↦ rw e (find-patched i j p now db.subscriptions, refl)
]
