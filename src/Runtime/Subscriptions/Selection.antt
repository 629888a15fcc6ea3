-- ===== src/Runtime/Subscriptions/Selection.antt =====
-- Which subscriptions a drift event goes to, told without the functions that choose them.
use schema_pilot_api_contrac.Base.{
  ℕ, ◌≤◌, ◌≡◌, ◌≢◌, refl, sym, subst, inl, inr, Bool-cases, String, Bool, true, false, Option, none,
  some, List, [], ◌∷◌, arith, ◌==◌, string_eq,
}
use schema_pilot_api_contrac.Base.Sequence.{filter}
use schema_pilot_api_contrac.Base.Dict.{key_eq}
use schema_pilot_api_contrac.Json.{ℤ, pos, negsuc}
use schema_pilot_api_contrac.Runtime.Models.{severity_rank}
use schema_pilot_api_contrac.Runtime.Database.{Database, Subscription}
use schema_pilot_api_contrac.Runtime.Subscriptions.{
  version_reached, is_affected, select_affected_subscriptions,
}
use schema_pilot_api_contrac.Runtime.Subscriptions.Affected.{
  is_affected-IsAffected, IsAffected-is_affected,
}

-- The second list has just the items of the first that satisfy the predicate, in their order and as often.
pub data Picks {A : Type 0} (P : A → Type 0) : List A → List A → Type 0 where
  stops : Picks P [] []
  takes : (x : A) (xs ys : List A) → P x → Picks P xs ys → Picks P (x ∷ xs) (x ∷ ys)
  skips : (x : A) (xs ys : List A) → ¬ P x → Picks P xs ys → Picks P (x ∷ xs) ys

-- A version bound that a version number has come to: no bound, or a number of at most the version.
pub data IsReached (v : ℕ) : Option ℤ → Type 0 where
  unbound : IsReached v none
  at_most : (n : ℕ) → n ≤ v → IsReached v (some (pos n))
  below : (n : ℕ) → IsReached v (some (negsuc n))

-- The order of the classes' texts. Every other text, "SAFE" included, comes first.
pub data HasRank : String → ℕ → Type 0 where
  backward : HasRank "BACKWARD_COMPATIBLE" 1
  forward : HasRank "FORWARD_COMPATIBLE" 2
  risky : HasRank "RISKY" 3
  breaking : HasRank "BREAKING" 4
  lowest :
      (t : String)
      → t ≢ "BACKWARD_COMPATIBLE"
      → t ≢ "FORWARD_COMPATIBLE"
      → t ≢ "RISKY"
      → t ≢ "BREAKING"
      → HasRank t 0

-- What makes a subscription one of those that an event of a class, for a version of an endpoint, goes to.
pub record Wants (e v : ℕ) (severity : String) (s : Subscription) : Type 0 where
  pub endpoint : s.endpoint_id ≡ e
  pub on : s.active ≡ true
  pub reached : IsReached v s.schema_version
  pub threshold : ℕ
  pub grade : ℕ
  pub threshold_rank : HasRank s.severity_threshold threshold
  pub grade_rank : HasRank severity grade
  pub severe : threshold ≤ grade

version_reached-IsReached : (b : Option ℤ) (v : ℕ) → version_reached b v ≡ true → IsReached v b
unfolding version_reached
version_reached-IsReached none v h = unbound
version_reached-IsReached (some (pos n)) v h = at_most n (ground arith)
version_reached-IsReached (some (negsuc n)) v h = below n

IsReached-version_reached : (b : Option ℤ) (v : ℕ) → IsReached v b → version_reached b v ≡ true
unfolding version_reached
IsReached-version_reached none v unbound = refl
IsReached-version_reached (some (pos n)) v (at_most m h) = ground arith
IsReached-version_reached (some (negsuc n)) v (below m) = refl

HasRank-severity_rank : (t : String) (n : ℕ) → HasRank t n → severity_rank t ≡ n
unfolding severity_rank string_eq
HasRank-severity_rank t n backward = refl
HasRank-severity_rank t n forward = refl
HasRank-severity_rank t n risky = refl
HasRank-severity_rank t n breaking = refl
HasRank-severity_rank t n (lowest u b f r k) = ground arith

HasRank-here : (t u : String) (n : ℕ) → (t == u) ≡ true → HasRank u n → HasRank t (severity_rank t)
HasRank-here t u n h r =
    subst (λ w. HasRank w (severity_rank w)) (sym (key_eq t u h))
      (subst (HasRank u) (sym (HasRank-severity_rank u n r)) r)

HasRank-lowest :
    (t : String)
    → (t == "BACKWARD_COMPATIBLE") ≡ false
    → (t == "FORWARD_COMPATIBLE") ≡ false
    → (t == "RISKY") ≡ false
    → (t == "BREAKING") ≡ false
    → HasRank t (severity_rank t)
HasRank-lowest t b f r k =
    let low =
      lowest t (λ e. ground arith) (λ e. ground arith) (λ e. ground arith) (λ e. ground arith) in
    subst (HasRank t) (sym (HasRank-severity_rank t 0 low)) low

severity_rank-HasRank : (t : String) → HasRank t (severity_rank t)
severity_rank-HasRank t = elim (Bool-cases (t == "BACKWARD_COMPATIBLE")) [
  | inl b ↦ HasRank-here t "BACKWARD_COMPATIBLE" 1 b backward
  | inr b ↦ elim (Bool-cases (t == "FORWARD_COMPATIBLE")) [
    | inl f ↦ HasRank-here t "FORWARD_COMPATIBLE" 2 f forward
    | inr f ↦ elim (Bool-cases (t == "RISKY")) [
      | inl r ↦ HasRank-here t "RISKY" 3 r risky
      | inr r ↦ elim (Bool-cases (t == "BREAKING")) [
        | inl k ↦ HasRank-here t "BREAKING" 4 k breaking
        | inr k ↦ HasRank-lowest t b f r k
      ]
    ]
  ]
]

filter-Picks :
    {A : Type 0} (P : A → Type 0) (p : A → Bool) (xs : List A)
    → ((x : A) → p x ≡ true → P x)
    → ((x : A) → P x → p x ≡ true)
    → Picks P xs (filter p xs)
filter-Picks P p [] to from = stops
filter-Picks P p (x ∷ xs) to from = elim (Bool-cases (p x)) [
  | inl keep ↦ rw keep (takes x xs (filter p xs) (to x keep) (filter-Picks P p xs to from))
  | inr drop ↦
      rw drop
        (skips x xs (filter p xs) (λ has. let h = from x has in cc) (filter-Picks P p xs to from))
]

-- The subscriptions that are selected are those rows of the table, in its order, that are active, are for the
-- endpoint, have no version bound or one of at most the new version, and have a threshold whose class is not
-- above the event's; a text that names no class counts as the lowest one.
pub select_affected_subscriptions-Picks :
    (e v : ℕ) (severity : String) (db : Database)
    → Picks (Wants e v severity) db.subscriptions (select_affected_subscriptions e v severity db)
unfolding select_affected_subscriptions
select_affected_subscriptions-Picks e v severity db =
    filter-Picks (Wants e v severity) (is_affected e v severity) db.subscriptions
      (λ s h.
        let a = is_affected-IsAffected e v severity s h in
        record {
          endpoint = a.endpoint;
          on = a.on;
          reached = version_reached-IsReached s.schema_version v a.reached;
          threshold = severity_rank s.severity_threshold;
          grade = severity_rank severity;
          threshold_rank = severity_rank-HasRank s.severity_threshold;
          grade_rank = severity_rank-HasRank severity;
          severe = a.severe;
        })
      (λ s w. IsAffected-is_affected e v severity s (record {
        endpoint = w.endpoint;
        on = w.on;
        reached = IsReached-version_reached s.schema_version v w.reached;
        severe = omega (
          arith,
          w.severe,
          HasRank-severity_rank s.severity_threshold w.threshold w.threshold_rank,
          HasRank-severity_rank severity w.grade w.grade_rank,
        );
      }))
