-- ===== src/Core/Snapshots/Registering.antt =====
-- A payload is registered once.
use schema_pilot_api_contrac.Base.{
  ℕ, String, false, ◌≡◌, refl, ◌∙◌, ap, inl, inr, some, Option-cases, arith, nat_eq, string_eq,
}
use schema_pilot_api_contrac.Base.Sequence.{find?}
use schema_pilot_api_contrac.Schema.{Schema}
use schema_pilot_api_contrac.Core.Snapshots.{
  ApiEndpoint, Snapshot, Tables, Route, is_route, is_snapshot, ensure_api_endpoint,
  register_snapshot, register_payload_snapshot,
}

-- The endpoint is found after it was ensured.
ensured :
    (r : Route) (t : Tables)
    → (e : ApiEndpoint) × (find? (is_route r) (ensure_api_endpoint r t).1.api_endpoints ≡ some e)
      × (e.id ≡ (ensure_api_endpoint r t).0)
unfolding ensure_api_endpoint
ensured r t = elim (Option-cases (find? (is_route r) t.api_endpoints)) [
  | inl absent ↦
      rw (absent, ensure_api_endpoint)
        (
          record {
            id = t.next_id;
            service_name = r.service_name;
            http_method = r.http_method;
            route_path = r.route_path;
          },
          ground arith,
          refl,
        )
  | inr (e, here) ↦ rw (here, ensure_api_endpoint) (e, here, refl)
]

ensure_found :
    (r : Route) (t : Tables) (e : ApiEndpoint)
    → find? (is_route r) t.api_endpoints ≡ some e
    → ensure_api_endpoint r t ≡ (e.id, t)
unfolding ensure_api_endpoint
ensure_found r t e h = rw (h, ensure_api_endpoint) refl

-- The snapshot is found after it was registered, and the endpoints are untouched.
registered :
    (e : ℕ) (fp : String) (n : Schema) (now : ℕ) (t : Tables)
    → ((s : Snapshot) × (find? (is_snapshot e fp) (register_snapshot e fp n now t).1.snapshots
          ≡ some s))
      × ((register_snapshot e fp n now t).1.api_endpoints ≡ t.api_endpoints)
unfolding register_snapshot
registered e fp n now t = elim (Option-cases (find? (is_snapshot e fp) t.snapshots)) [
  | inl absent ↦
      rw (absent, register_snapshot)
        (
          (
            record {
              endpoint_id = e;
              fingerprint = fp;
              normalized_schema = n;
              is_active_baseline = false;
              created_at = now;
            },
            ground arith,
          ),
          refl,
        )
  | inr (s, here) ↦ rw (here, register_snapshot) ((s, here), refl)
]

register_found :
    (e : ℕ) (fp : String) (n : Schema) (now : ℕ) (t : Tables) (s : Snapshot)
    → find? (is_snapshot e fp) t.snapshots ≡ some s
    → register_snapshot e fp n now t ≡ (false, t)
unfolding register_snapshot
register_found e fp n now t s h = rw (h, register_snapshot) refl

register_payload_found :
    (r : Route) (fp : String) (n : Schema) (now : ℕ) (t : Tables) (e : ApiEndpoint) (s : Snapshot)
    → find? (is_route r) t.api_endpoints ≡ some e
    → find? (is_snapshot e.id fp) t.snapshots ≡ some s
    → register_payload_snapshot r fp n now t ≡ ((e.id, false), t)
unfolding register_payload_snapshot
register_payload_found r fp n now t e s h k =
    rw (ensure_found r t e h, register_found e.id fp n now t s k)

-- Registering a fingerprint for a route again, with any schema at any time, gives the same endpoint, inserts
-- nothing and leaves the tables as they are.
pub register_payload_snapshot_again :
    (r : Route) (fp : String) (n n' : Schema) (now now' : ℕ) (t : Tables)
    → register_payload_snapshot r fp n' now' (register_payload_snapshot r fp n now t).1 ≡ (
      ((register_payload_snapshot r fp n now t).0.0, false),
      (register_payload_snapshot r fp n now t).1,
    )
unfolding register_payload_snapshot
register_payload_snapshot_again r fp n n' now now' t =
    let (e, found, same) = ensured r t in
    let ((s, here), kept) =
      registered (ensure_api_endpoint r t).0 fp n now (ensure_api_endpoint r t).1 in
    let t' = (register_payload_snapshot r fp n now t).1 in
    register_payload_found r fp n' now' t' e s (ap (find? (is_route r)) kept ∙ found)
      (ap (λ i. find? (is_snapshot i fp) t'.snapshots) same ∙ here)
    ∙ ap (λ (i : ℕ). ((i, false), t')) same
