-- ===== src/Discovery/Counts.antt =====
-- Every ready endpoint of a resolved backend is counted once, at a version or as unmatched.
use native.Mathlib.Nat.{zero-add}
use kubetraffic.Prelude.{
  ℕ, ◌+◌, ◌≤◌, ◌<◌, ◌≡◌, refl, inl, inr, Option, none, some, List, [], ◌∷◌, map, arith,
  if◌then◌else◌, Bool-cases, Str, bytes, str_eq, length, is_empty, All,
}
use kubetraffic.Prelude.Int.{pos_part, neg_part, int32_half, pos}
use kubetraffic.Discovery.Reads.{not_found, Endpoint, EndpointSlice}
use kubetraffic.Discovery.{
  find_port, is_ready, VersionBucket, Progress, place, first_match, Cluster, RouteRule, target_of,
  pod_target, attribute, TargetRef, add_slices, Found, add_endpoints, Pod, found, failed, take_port,
  resolve, sorted_set, new_buckets, add_endpoint, finish, BackendVersion, version_bucket, Service,
  ok, empty_set, Resolution, service_resolution,
}
use kubetraffic.Discovery.Counted.{
  ready_endpoints, ready_in_slices, total_ready, AreCounts, bucket_ready, IsCount, Counted,
  length-count_at, InRange, place-Counted, first_match-InRange,
}

module _ (cluster : Cluster) (namespace : Str) (rule : RouteRule) where
  pod_target-InRange :
      (bs : List VersionBucket) (ref : TargetRef) → InRange (pod_target cluster namespace bs ref) bs
  unfolding pod_target
  pod_target-InRange bs ref = elim (Bool-cases (str_eq ref.kind (bytes "Pod"))) [
    | inl e ↦ rw e (by_pod (cluster.get_pod namespace ref.name))
    | inr e ↦ rw e tt
  ]
    where
      by_pod :
          (read : Found Pod)
          → InRange
              (elim read [
                | found pod ↦ first_match pod.labels 0 bs
                | not_found ↦ none
                | failed e ↦ none
              ])
              bs
      by_pod (found pod) = first_match-InRange pod.labels bs
      by_pod not_found = tt
      by_pod (failed e) = tt

  attribute-InRange :
      (bs : List VersionBucket) (ep : Endpoint) → InRange (attribute cluster namespace ep bs) bs
  unfolding attribute
  attribute-InRange bs ep = by_ref ep.target_ref
    where
      by_ref :
          (target : Option TargetRef)
          → InRange
              (elim target [ none ↦ none | some ref ↦ pod_target cluster namespace bs ref ])
              bs
      by_ref none = tt
      by_ref (some ref) = pod_target-InRange bs ref

  target_of-InRange :
      (bs : List VersionBucket) (ep : Endpoint)
      → 0 < length bs
      → InRange (target_of cluster namespace rule ep bs) bs
  unfolding target_of
  target_of-InRange bs ep h = elim (Bool-cases (is_empty rule.versions)) [
    | inl e ↦ rw e h
    | inr e ↦ rw e (attribute-InRange bs ep)
  ]

  -- The number of buckets stays.
  length-place :
      (target : Option ℕ) (ep : Endpoint) (s : Progress)
      → length (place target ep s).buckets ≡ length s.buckets
  unfolding place
  length-place none ep s = ground arith
  length-place (some i) ep s = length-count_at i (is_ready ep) ep.addresses s.buckets

  add_endpoint-Counted :
      (ep : Endpoint) (s : Progress) (seen : ℕ)
      → 0 < length s.buckets
      → Counted seen s
      → (if is_ready ep then 1 else 0) + seen < int32_half
      → Counted ((if is_ready ep then 1 else 0) + seen) (add_endpoint cluster namespace rule ep s)
  unfolding add_endpoint
  add_endpoint-Counted ep s seen h c l =
      place-Counted (target_of cluster namespace rule ep s.buckets) ep s seen
        (target_of-InRange s.buckets ep h) c l

  length-add_endpoint :
      (ep : Endpoint) (s : Progress)
      → 0 < length s.buckets
      → 0 < length (add_endpoint cluster namespace rule ep s).buckets
  unfolding add_endpoint
  length-add_endpoint ep s h =
      omega (arith, length-place (target_of cluster namespace rule ep s.buckets) ep s)

  take_port-Counted :
      (port_name : Str) (slice : EndpointSlice) (s : Progress) (seen : ℕ)
      → 0 < length s.buckets
      → Counted seen s
      → let s' = take_port cluster namespace rule port_name slice s in
        (0 < length s'.buckets) × Counted seen s'
  unfolding take_port
  take_port-Counted port_name slice s seen h c = ground arith

  add_endpoints-Counted :
      (eps : List Endpoint) (s : Progress) (seen : ℕ)
      → 0 < length s.buckets
      → Counted seen s
      → ready_endpoints eps + seen < int32_half
      → let s' = add_endpoints cluster namespace rule eps s in
        Counted (ready_endpoints eps + seen) s' × (0 < length s'.buckets)
  unfolding add_endpoints
  add_endpoints-Counted [] s seen h c l = rw zero-add (c, h)
  add_endpoints-Counted (ep ∷ rest) s seen h c l =
      let one = if is_ready ep then 1 else 0 in
      let small : one ≤ 1 = ground arith in
      let more : ready_endpoints rest + (one + seen) ≡ one + ready_endpoints rest + seen =
        omega arith in
      rw (← more) (
        add_endpoints-Counted rest (add_endpoint cluster namespace rule ep s) (one + seen)
          (length-add_endpoint ep s h) (add_endpoint-Counted ep s seen h c (omega arith))
          (omega arith))

  add_slices-Counted :
      (port_name : Str) (slices : List EndpointSlice) (s : Progress) (seen : ℕ)
      → 0 < length s.buckets
      → Counted seen s
      → ready_in_slices slices + seen < int32_half
      → Counted
          (ready_in_slices slices + seen)
          (add_slices cluster namespace rule port_name slices s)
  unfolding add_slices
  add_slices-Counted port_name [] s seen h c l = rw zero-add c
  add_slices-Counted port_name (slice ∷ rest) s seen h c l =
      let s' = take_port cluster namespace rule port_name slice s in
      let (h', c') = take_port-Counted port_name slice s seen h c in
      let (c2, h2) = add_endpoints-Counted slice.endpoints s' seen h' c' (omega arith) in
      let more : ready_in_slices rest + (ready_endpoints slice.endpoints + seen)
          ≡ ready_endpoints slice.endpoints + ready_in_slices rest + seen =
        omega arith in
      rw (← more) (
        add_slices-Counted port_name rest (add_endpoints cluster namespace rule slice.endpoints s')
          (ready_endpoints slice.endpoints + seen) h2 c2 (omega arith))

total-sorted :
    (bs : List VersionBucket)
    → All IsCount bs
    → AreCounts (map sorted_set bs) × (total_ready (map sorted_set bs) ≡ bucket_ready bs)
total-sorted [] c = (tt, refl)
total-sorted (b ∷ rest) c = let (counts, e) = total-sorted rest c.1 in ((c.0, counts), omega arith)

new_buckets-empty :
    (rule : RouteRule) (label : Str)
    → (0 < length (new_buckets rule label))
      × All IsCount (new_buckets rule label)
      × (bucket_ready (new_buckets rule label) ≡ 0)
unfolding new_buckets
new_buckets-empty rule label = of_versions rule.versions
  where
    fresh :
        (vs : List BackendVersion)
        → All IsCount (map (version_bucket label) vs)
          × (bucket_ready (map (version_bucket label) vs) ≡ 0)
    fresh [] = (tt, refl)
    fresh (v ∷ vs) = let (c, e) = fresh vs in ((refl, c), omega arith)

    of_versions :
        (vs : List BackendVersion)
        → let bs =
            if is_empty vs
            then record { set = empty_set []; selector = [] } ∷ []
            else map (version_bucket label) vs in
          (0 < length bs) × All IsCount bs × (bucket_ready bs ≡ 0)
    of_versions [] = (omega arith, (refl, tt), refl)
    of_versions (v ∷ vs) = let (c, e) = fresh vs in (omega arith, (refl, c), omega arith)

-- Where a backend's Service exists and its slices, with fewer than 2^31 ready endpoints, can be
-- listed, the ready counts of the versions and the unmatched count are no negative numbers, and sum
-- to the number of ready endpoints in the slices: each is counted exactly once.
pub resolve_counts :
    (cluster : Cluster) (namespace : Str) (rule : RouteRule) (label : Str) (svc : Service)
    (slices : List EndpointSlice)
    → cluster.get_service namespace rule.backend.service ≡ found svc
    → cluster.list_endpoint_slices namespace rule.backend.service ≡ ok slices
    → ready_in_slices slices < int32_half
    → (res : Resolution) × (resolve cluster namespace rule label ≡ ok res)
      × AreCounts res.versions
      × (neg_part res.unmatched ≡ 0)
      × (total_ready res.versions + pos_part res.unmatched ≡ ready_in_slices slices)
unfolding resolve finish
resolve_counts cluster namespace rule label svc slices e l few =
    let base = service_resolution (find_port rule.backend.port svc.ports) in
    let start : Progress = record {
      port = pos 0;
      buckets = new_buckets rule label;
      unmatched = pos 0;
    } in
    let (some', counts, none') = new_buckets-empty rule label in
    let s = add_slices cluster namespace rule base.port_name slices start in
    let c =
      add_slices-Counted cluster namespace rule base.port_name slices start 0 some'
        (record { counts = counts; unmatched = refl; total = omega arith }) (omega arith) in
    let (sorted, same) = total-sorted s.buckets c.counts in
    let t = c.total in (finish base s, ground arith, sorted, c.unmatched, omega arith)
