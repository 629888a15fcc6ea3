-- ===== src/Runtime/Subscriptions/Affected.antt =====
-- Which subscriptions a drift event goes to.
use schema_pilot_api_contrac.Base.{ℕ, ◌≤◌, ◌≡◌, ◌↔◌, String, true, arith, nat_eq}
use schema_pilot_api_contrac.Base.Sequence.{Elem, Elem-filter, Elem-filter_of}
use schema_pilot_api_contrac.Runtime.Models.{
  Compatibility, breaking, rank, name, severity_rank, severity_rank-name,
}
use schema_pilot_api_contrac.Runtime.Database.{Database, Subscription}
use schema_pilot_api_contrac.Runtime.Subscriptions.{
  version_reached, is_affected, select_affected_subscriptions,
}

-- What makes a subscription affected, as facts.
pub record IsAffected (endpoint_id new_version : ℕ) (severity : String) (s : Subscription)
    : Type 0 where
  pub endpoint : s.endpoint_id ≡ endpoint_id
  pub on : s.active ≡ true
  pub reached : version_reached s.schema_version new_version ≡ true
  pub severe : severity_rank s.severity_threshold ≤ severity_rank severity

pub is_affected-IsAffected :
    (e v : ℕ) (severity : String) (s : Subscription)
    → is_affected e v severity s ≡ true
    → IsAffected e v severity s
unfolding is_affected
is_affected-IsAffected e v severity s h = record {
  endpoint = ground arith;
  on = ground arith;
  reached = ground arith;
  severe = ground arith;
}

pub IsAffected-is_affected :
    (e v : ℕ) (severity : String) (s : Subscription)
    → IsAffected e v severity s
    → is_affected e v severity s ≡ true
unfolding is_affected
IsAffected-is_affected e v severity s h = ground arith

-- A subscription is selected exactly when it is in the table, is active, is for the endpoint, has no version
-- or one that is reached, and has a threshold of at most the event's rank.
pub select_affected_subscriptions_iff :
    (e v : ℕ) (severity : String) (s : Subscription) (db : Database)
    → Elem s (select_affected_subscriptions e v severity db)
      ↔ (Elem s db.subscriptions × IsAffected e v severity s)
unfolding select_affected_subscriptions
select_affected_subscriptions_iff e v severity s db = (
  λ h.
      let r = Elem-filter (is_affected e v severity) s db.subscriptions h in
      (r.0, is_affected-IsAffected e v severity s r.1),
  λ h.
      Elem-filter_of (is_affected e v severity) s db.subscriptions h.0
        (IsAffected-is_affected e v severity s h.1),
)

severity_rank-le-breaking : (t : String) → severity_rank t ≤ rank breaking
unfolding severity_rank rank
severity_rank-le-breaking t = ground arith

-- A BREAKING event reaches every active subscription of the endpoint whose version is reached, whatever its
-- threshold is, a text that names no class included.
pub breaking_reaches :
    (e v : ℕ) (s : Subscription) (db : Database)
    → Elem s db.subscriptions
    → s.endpoint_id ≡ e
    → s.active ≡ true
    → version_reached s.schema_version v ≡ true
    → Elem s (select_affected_subscriptions e v (name breaking) db)
breaking_reaches e v s db there at on reached =
    (select_affected_subscriptions_iff e v (name breaking) s db).1 (
      there,
      record {
        endpoint = at;
        on = on;
        reached = reached;
        severe =
            omega
              (arith, severity_rank-le-breaking s.severity_threshold, severity_rank-name breaking);
      },
    )

-- Nobody misses a worse event: whoever is told of an event of one class is told of one of any class of at
-- least that rank.
pub select_affected_subscriptions_mono :
    (e v : ℕ) (c worse : Compatibility) (s : Subscription) (db : Database)
    → rank c ≤ rank worse
    → Elem s (select_affected_subscriptions e v (name c) db)
    → Elem s (select_affected_subscriptions e v (name worse) db)
select_affected_subscriptions_mono e v c worse s db h m =
    let (there, a) = (select_affected_subscriptions_iff e v (name c) s db).0 m in
    (select_affected_subscriptions_iff e v (name worse) s db).1 (
      there,
      record {
        endpoint = a.endpoint;
        on = a.on;
        reached = a.reached;
        severe = omega (arith, a.severe, severity_rank-name c, severity_rank-name worse);
      },
    )
