-- ===== src/Discovery/Sets.antt =====
-- What the loops of `Resolve` keep of every version's endpoint set.
use mathlib.Core.Path.{subst}
use kubetraffic.Prelude.{
  ℕ, zero, suc, Str, Bool, true, Option, none, some, List, [], ◌∷◌, arith, ◌≡◌, refl, sym, ap, ◌∙◌,
  inl, inr, map, is_empty, Bool-cases, All,
}
use kubetraffic.Prelude.Int.{pos}
use kubetraffic.Api.{RouteRule, BackendVersion}
use kubetraffic.Discovery.{
  EndpointSet, Resolution, VersionBucket, version_bucket, new_buckets, empty_set, count_endpoint,
  count_at, Progress, place, is_ready, add_endpoint, add_endpoints, take_port, add_slices, finish,
  sorted_set, resolve, resolve_slices, service_resolution, find_port,
}
use kubetraffic.Discovery.Order.{set_versions, reported, resolve_versions}
use kubetraffic.Discovery.Reads.{
  Cluster, Service, Found, found, not_found, failed, ok, Fallible-cases, Endpoint, EndpointSlice,
}

abbrev pub AllEndpoints : (Endpoint → Type 0) → List EndpointSlice → Type 0
AllEndpoints E slices = All (λ (s : EndpointSlice). All E s.endpoints) slices

-- Every endpoint that the cluster lists for a Service of the namespace.
abbrev pub ListsOnly : (Endpoint → Type 0) → Cluster → Str → Type 0
ListsOnly E cluster namespace =
    (service : Str) (slices : List EndpointSlice)
    → cluster.list_endpoint_slices namespace service ≡ ok slices
    → AllEndpoints E slices

-- A property of sets that holds of new ones, and that counting an endpoint and sorting keep.
pub record IsKept (P : EndpointSet → Type 0) (E : Endpoint → Type 0) : Type 0 where
  pub counted :
      (ready : Bool) (ep : Endpoint) (b : VersionBucket)
      → E ep
      → P b.set
      → P (count_endpoint ready ep.addresses b).set
  pub sorted : (b : VersionBucket) → P b.set → P (sorted_set b)

module _ (P : EndpointSet → Type 0) (E : Endpoint → Type 0) (k : IsKept P E) where
  abbrev AllSets : List VersionBucket → Type 0
  AllSets bs = All (λ (b : VersionBucket). P b.set) bs

  count_at-AllSets :
      (i : ℕ) (ready : Bool) (ep : Endpoint) (bs : List VersionBucket)
      → E ep
      → AllSets bs
      → AllSets (count_at i ready ep.addresses bs)
  unfolding count_at
  count_at-AllSets zero ready ep [] e h = tt
  count_at-AllSets (suc i) ready ep [] e h = tt
  count_at-AllSets zero ready ep (b ∷ rest) e h = (k.counted ready ep b e h.0, h.1)
  count_at-AllSets (suc i) ready ep (b ∷ rest) e h = (h.0, count_at-AllSets i ready ep rest e h.1)

  place-AllSets :
      (target : Option ℕ) (ep : Endpoint) (s : Progress)
      → E ep
      → AllSets s.buckets
      → AllSets (place target ep s).buckets
  unfolding place
  place-AllSets none ep s e h = elim (Bool-cases (is_ready ep)) [ inl r ↦ rw r h | inr r ↦ rw r h ]
  place-AllSets (some i) ep s e h = count_at-AllSets i (is_ready ep) ep s.buckets e h

  module _ (cluster : Cluster) (namespace : Str) (rule : RouteRule) where
    add_endpoints-AllSets :
        (eps : List Endpoint) (s : Progress)
        → All E eps
        → AllSets s.buckets
        → AllSets (add_endpoints cluster namespace rule eps s).buckets
    unfolding add_endpoints
    add_endpoints-AllSets [] s e h = h
    add_endpoints-AllSets (ep ∷ rest) s e h =
        add_endpoints-AllSets rest (add_endpoint cluster namespace rule ep s) e.1
          (place-AllSets _ ep s e.0 h)

    take_port-buckets :
        (port_name : Str) (slice : EndpointSlice) (s : Progress)
        → (take_port cluster namespace rule port_name slice s).buckets ≡ s.buckets
    unfolding take_port
    take_port-buckets port_name slice s = ground arith

    add_slices-AllSets :
        (port_name : Str) (slices : List EndpointSlice) (s : Progress)
        → AllEndpoints E slices
        → AllSets s.buckets
        → AllSets (add_slices cluster namespace rule port_name slices s).buckets
    unfolding add_slices
    add_slices-AllSets port_name [] s e h = h
    add_slices-AllSets port_name (slice ∷ rest) s e h =
        add_slices-AllSets port_name rest _ e.1
          (add_endpoints-AllSets slice.endpoints _ e.0 (rw (take_port-buckets port_name slice s) h))

  sorted-AllSets : (bs : List VersionBucket) → AllSets bs → All P (map sorted_set bs)
  sorted-AllSets [] h = tt
  sorted-AllSets (b ∷ rest) h = (k.sorted b h.0, sorted-AllSets rest h.1)

  map-AllSets :
      (label : Str) (vs : List BackendVersion)
      → All (λ (v : BackendVersion). P (empty_set v.name)) vs
      → AllSets (map (version_bucket label) vs)
  unfolding version_bucket
  map-AllSets label [] h = tt
  map-AllSets label (v ∷ vs) h = (h.0, map-AllSets label vs h.1)

  new_buckets-AllSets :
      (rule : RouteRule) (label : Str)
      → P (empty_set [])
      → All (λ (v : BackendVersion). P (empty_set v.name)) rule.versions
      → AllSets (new_buckets rule label)
  unfolding new_buckets
  new_buckets-AllSets rule label none' h = elim (Bool-cases (is_empty rule.versions)) [
    | inl e ↦ rw e (none', tt)
    | inr e ↦ rw e (map-AllSets label rule.versions h)
  ]

-- What a resolution with its Service was made of.
pub record IsFound (cluster : Cluster) (namespace : Str) (rule : RouteRule) : Type 0 where
  pub svc : Service
  pub slices : List EndpointSlice
  pub service : cluster.get_service namespace rule.backend.service ≡ found svc
  pub listed : cluster.list_endpoint_slices namespace rule.backend.service ≡ ok slices

module _ (cluster : Cluster) (namespace : Str) (rule : RouteRule) (label : Str) (res : Resolution)
    (resolved : resolve cluster namespace rule label ≡ ok res)
    (shown : res.service_found ≡ true) where
  pub resolve-IsFound : IsFound cluster namespace rule
  unfolding resolve resolve_slices
  resolve-IsFound = by_service (cluster.get_service namespace rule.backend.service) refl
    where
      by_service :
          (f : Found Service)
          → cluster.get_service namespace rule.backend.service ≡ f
          → IsFound cluster namespace rule
      by_service not_found q = absurd (ground (arith, resolved, q, shown))
      by_service (failed e) q = absurd (ground (arith, resolved, q))
      by_service (found svc) q =
          elim (Fallible-cases (cluster.list_endpoint_slices namespace rule.backend.service)) [
            | inl (slices, l) ↦ record { svc = svc; slices = slices; service = q; listed = l }
            | inr (e, l) ↦ absurd (ground (arith, resolved, q, l))
          ]

  pub resolve-reported : set_versions res.versions ≡ reported rule
  resolve-reported =
      let f = resolve-IsFound in
      let (res', e, same) =
        resolve_versions cluster namespace rule label f.svc f.slices f.service f.listed in
      let res-eq : res' ≡ res = cc (sym e ∙ resolved) in
      ap (λ (r : Resolution). set_versions r.versions) (sym res-eq) ∙ same

  -- What holds of new sets, and is kept, holds of the resolved ones.
  pub resolve-AllSets :
      (P : EndpointSet → Type 0) (E : Endpoint → Type 0)
      → IsKept P E
      → P (empty_set [])
      → All (λ (v : BackendVersion). P (empty_set v.name)) rule.versions
      → ListsOnly E cluster namespace
      → All P res.versions
  unfolding resolve finish
  resolve-AllSets P E k none' new have =
      let f = resolve-IsFound in
      let base = service_resolution (find_port rule.backend.port f.svc.ports) in
      let start : Progress = record {
        port = pos 0;
        buckets = new_buckets rule label;
        unmatched = pos 0;
      } in
      let s = add_slices cluster namespace rule base.port_name f.slices start in
      let made : resolve cluster namespace rule label ≡ ok (finish base s) =
        ground (arith, f.service, f.listed) in
      let res-eq : finish base s ≡ res = cc (sym made ∙ resolved) in
      subst (λ (r : Resolution). All P r.versions) res-eq
        (sorted-AllSets P E k s.buckets (
          add_slices-AllSets P E k cluster namespace rule base.port_name f.slices start
            (have rule.backend.service f.slices f.listed)
            (new_buckets-AllSets P E k rule label none' new)))
