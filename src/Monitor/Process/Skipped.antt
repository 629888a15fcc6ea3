-- ===== src/Monitor/Process/Skipped.antt =====
-- Schemas of one hash are not compared, and need not be.
use mathlib.Core.List.{cons-ne-nil}
use schema_pilot_api_contrac.Base.{
  String, ◌≡◌, refl, sym, ap, ◌∙◌, inl, inr, Bool-cases, false, some, List, [], ◌∷◌, map, arith,
  ◌==◌, string_eq,
}
use schema_pilot_api_contrac.Base.Dict.{key_eq}
use schema_pilot_api_contrac.Base.TextOrder.{IsIncreasing, FirstBefore}
use schema_pilot_api_contrac.Monitor.Types.{SchemaNode}
use schema_pilot_api_contrac.Monitor.Infer.Sorted.{paths}
use schema_pilot_api_contrac.Monitor.Diff.{diff_schemas}
use schema_pilot_api_contrac.Monitor.Diff.Unchanged.{SameNodes, diff_schemas-SameNodes}
use schema_pilot_api_contrac.Monitor.Canonical.{
  Projection, structural_projection, insert_projection, sort_projections, stable_schema_hash,
}
use schema_pilot_api_contrac.Monitor.Tables.{SchemaSnapshot, stored}
use schema_pilot_api_contrac.Monitor.Process.{compares, diffs_against, starts_with}

insert_projection_first :
    (n : SchemaNode) (ns : List SchemaNode)
    → FirstBefore n.path (paths ns)
    → insert_projection (structural_projection n) (map structural_projection ns)
      ≡ structural_projection n ∷ map structural_projection ns
unfolding insert_projection structural_projection
insert_projection_first n [] f = refl
insert_projection_first n (m ∷ ns) f = ground (arith, f)

-- The nodes of a schema in order are hashed in their order.
sort_projections_sorted :
    (ns : List SchemaNode)
    → IsIncreasing (paths ns)
    → sort_projections (map structural_projection ns) ≡ map structural_projection ns
unfolding sort_projections
sort_projections_sorted [] s = refl
sort_projections_sorted (n ∷ ns) s =
    ap (insert_projection (structural_projection n)) (sort_projections_sorted ns s.1)
    ∙ insert_projection_first n ns s.0

head_or : Projection → List Projection → Projection
head_or p [] = p
head_or p (q ∷ qs) = q

tail_of : List Projection → List Projection
tail_of [] = []
tail_of (q ∷ qs) = qs

projected_same :
    (old new : List SchemaNode)
    → map structural_projection old ≡ map structural_projection new
    → SameNodes old new
unfolding structural_projection head_or tail_of
projected_same [] [] h = tt
projected_same [] (b ∷ news) h =
    cons-ne-nil (structural_projection b) (map structural_projection news) (sym h)
projected_same (a ∷ olds) [] h =
    cons-ne-nil (structural_projection a) (map structural_projection olds) h
projected_same (a ∷ olds) (b ∷ news) h =
    let first : structural_projection a ≡ structural_projection b =
      ap (head_or (structural_projection a)) h in
    (
      (
        ap (λ p. p.path) first,
        ap (λ p. p.type) first,
        ap (λ p. p.nullable) first,
        ap (λ p. p.array_item_type) first,
        ap (λ p. p.enum_values) first,
      ),
      projected_same olds news (ap tail_of h),
    )

-- Against a prior snapshot that was fetched, the differences that are recorded are those of the two schemas,
-- whether the comparison is skipped for equal hashes or not, if the digest does not take the two schemas'
-- projections, when they differ, to one hash, and both are in order.
pub diffs_against-diff_schemas :
    (digest : List Projection → String) (prior : SchemaSnapshot) (old new : List SchemaNode)
    → prior.normalized_schema ≡ stored old
    → prior.schema_hash ≡ stable_schema_hash digest old
    → starts_with "FETCH_ERROR:" prior.schema_hash ≡ false
    → IsIncreasing (paths old)
    → IsIncreasing (paths new)
    → (digest (map structural_projection old) ≡ digest (map structural_projection new)
        → map structural_projection old ≡ map structural_projection new)
    → diffs_against (some prior) (stable_schema_hash digest new) new ≡ diff_schemas old new
unfolding diffs_against compares stable_schema_hash
diffs_against-diff_schemas digest prior old new kept hash fetched s t no_collision =
    elim (Bool-cases (prior.schema_hash == stable_schema_hash digest new)) [
      | inr other ↦ rw (other, fetched, kept) refl
      | inl same ↦
          let hashes : prior.schema_hash ≡ stable_schema_hash digest new =
            key_eq prior.schema_hash (stable_schema_hash digest new) same in
          let digests : digest (map structural_projection old)
              ≡ digest (map structural_projection new) =
            ap digest (sym (sort_projections_sorted old s))
            ∙ sym hash
            ∙ hashes
            ∙ ap digest (sort_projections_sorted new t) in
          rw same
            (sym (diff_schemas-SameNodes old new (projected_same old new (no_collision digests))))
    ]
