-- ===== src/Track/Served.antt =====
-- What a request to POST /track returns and leaves.
use schema_pilot_api_contrac.Base.{
  ℕ, ◌+◌, ◌≤◌, ◌≡◌, refl, ap, inl, inr, Bool-cases, String, Bool, true, false, ◌||◌, none, some,
  max, arith,
}
use schema_pilot_api_contrac.Base.Result.{Result, ok, ◌>>=◌}
use schema_pilot_api_contrac.Base.Sequence.{length}
use schema_pilot_api_contrac.Json.{object}
use schema_pilot_api_contrac.Schema.{Schema}
use schema_pilot_api_contrac.Runtime.Database.{Database, Subscription}
use schema_pilot_api_contrac.Runtime.Webhook.{Reply}
use schema_pilot_api_contrac.Runtime.Service.{Tracked, track_contract}
use schema_pilot_api_contrac.Core.Snapshots.{Tables, Legacy}
use schema_pilot_api_contrac.Core.Snapshots.Logging.{track_legacy-IsTracked}
use schema_pilot_api_contrac.Track.{
  PayloadSubmission, Response, merged, key_of, route_of, is_benchmark, dual_write, track_payload,
}

-- What the response tells of the legacy tables, by whether the request is benchmark traffic.
abbrev pub Kept : Bool → Tracked → Response → Tables → Tables → Type 0
Kept true result response t t' = (response ≡ record { result = result; legacy = none }) × (t' ≡ t)
Kept false result response t t' =
    (l : Legacy) × (response.legacy ≡ some l)
    × (response.result.inserted ≡ (result.inserted || l.inserted))
    × (response.result.diff_count ≡ max result.diff_count l.legacy_diff_count)
    × (length t'.violations ≡ l.legacy_diff_count + length t.violations)

-- The response to a request whose runtime half returned `result` and left `db'`.
pub record IsServed (benchmark : Bool) (result : Tracked) (db' : Database) (t : Tables)
    (r : Result (Response × Database × Tables)) : Type 0 where
  pub response : Response
  pub t' : Tables
  pub returned : r ≡ ok (response, db', t')
  pub kept : Kept benchmark result response t t'
  pub logged : length t'.violations ≤ response.result.diff_count + length t.violations

module _ (lower upper : String → String) (fingerprint : Schema → String) (digest : String → String)
    (inline_delivery : Bool) (replies : Subscription → Reply) where
  abbrev writes :
      PayloadSubmission → ℕ → Tracked → Database → Tables → Result (Response × Database × Tables)
  writes = dual_write lower upper fingerprint digest inline_delivery replies

  dual_write-IsServed :
      (s : PayloadSubmission) (now : ℕ) (result : Tracked) (db' : Database) (t : Tables)
      → IsServed (is_benchmark lower s) result db' t (writes s now result db' t)
  unfolding dual_write
  dual_write-IsServed s now result db' t = elim (Bool-cases (is_benchmark lower s)) [
    | inl k6 ↦ rw k6 (record {
      response = record { result = result; legacy = none };
      t' = t;
      returned = refl;
      kept = (refl, refl);
      logged = omega arith;
    })
    | inr plain ↦
        let r = track_legacy-IsTracked digest (route_of upper s) s.payload now t in
        let answer : Legacy × Tables → Result (Response × Database × Tables) =
          λ made. ok (merged result made.0, db', made.1) in
        rw plain (record {
          response = merged result r.result;
          t' = r.t';
          returned = ap (λ call. call >>= answer) r.returned;
          kept = (r.result, refl, refl, refl, r.logged);
          logged = omega (arith, r.logged);
        })
  ]

  -- Where the runtime half of a request returns, the request returns: with that half's result alone and the
  -- legacy tables as they were, if the namespace is a benchmark's; and otherwise with the larger of the two
  -- halves' diff counts, with `inserted` if either half inserted, and with one violation logged for each
  -- legacy difference. No more violations are logged than the diff count of the response.
  pub track_payload-IsServed :
      (s : PayloadSubmission) (now : ℕ) (db db' : Database) (t : Tables) (result : Tracked)
      → track_contract fingerprint inline_delivery replies
          (key_of upper s)
          (object s.payload)
          now
          db
        ≡ ok (result, db')
      → IsServed
          (is_benchmark lower s)
          result
          db'
          t
          (track_payload lower upper fingerprint digest inline_delivery replies s now db t)
  unfolding track_payload
  track_payload-IsServed s now db db' t result h = rw h (dual_write-IsServed s now result db' t)
