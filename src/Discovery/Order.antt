-- ===== src/Discovery/Order.antt =====
-- The versions of a resolution are those of the rule, in its order, whatever the endpoints.
use kubetraffic.Prelude.{
  ℕ, zero, suc, Str, Bool, true, false, Option, none, some, List, [], ◌∷◌, arith, ◌≡◌, refl, ap,
  ◌∙◌, map, is_empty, if◌then◌else◌, Bool-cases, inl, inr,
}
use kubetraffic.Prelude.Int.{pos}
use kubetraffic.Api.{RouteRule, BackendVersion}
use kubetraffic.Webhook.Versions.{names}
use kubetraffic.Discovery.{
  EndpointSet, Resolution, VersionBucket, version_bucket, new_buckets, count_endpoint, count_at,
  Progress, place, add_endpoint, add_endpoints, take_port, add_slices, finish, sorted_set, resolve,
  service_resolution, find_port,
}
use kubetraffic.Discovery.Reads.{Cluster, Service, found, ok, Endpoint, EndpointSlice}

abbrev pub set_versions : List EndpointSet → List Str
set_versions [] = []
set_versions (es ∷ rest) = es.version ∷ set_versions rest

abbrev bucket_versions : List VersionBucket → List Str
bucket_versions [] = []
bucket_versions (b ∷ rest) = b.set.version ∷ bucket_versions rest

-- What a resolution reports: the declared versions, or the one version "" of a rule with none.
abbrev pub reported : RouteRule → List Str
reported rule = if is_empty rule.versions then [] ∷ [] else names rule.versions

version-count_endpoint :
    (ready : Bool) (as' : List Str) (b : VersionBucket)
    → (count_endpoint ready as' b).set.version ≡ b.set.version
unfolding count_endpoint
version-count_endpoint true as' b = refl
version-count_endpoint false as' b = refl

versions-count_at :
    (i : ℕ) (ready : Bool) (as' : List Str) (bs : List VersionBucket)
    → bucket_versions (count_at i ready as' bs) ≡ bucket_versions bs
unfolding count_at
versions-count_at zero ready as' [] = refl
versions-count_at (suc i) ready as' [] = refl
versions-count_at zero ready as' (b ∷ rest) =
    ap (λ v. v ∷ bucket_versions rest) (version-count_endpoint ready as' b)
versions-count_at (suc i) ready as' (b ∷ rest) =
    ap (λ t. b.set.version ∷ t) (versions-count_at i ready as' rest)

versions-place :
    (target : Option ℕ) (ep : Endpoint) (s : Progress)
    → bucket_versions (place target ep s).buckets ≡ bucket_versions s.buckets
unfolding place
versions-place none ep s = ground arith
versions-place (some i) ep s = versions-count_at i _ ep.addresses s.buckets

module _ (cluster : Cluster) (namespace : Str) (rule : RouteRule) where
  versions-add_endpoints :
      (eps : List Endpoint) (s : Progress)
      → bucket_versions (add_endpoints cluster namespace rule eps s).buckets
        ≡ bucket_versions s.buckets
  unfolding add_endpoints
  versions-add_endpoints [] s = refl
  versions-add_endpoints (ep ∷ rest) s =
      versions-add_endpoints rest (add_endpoint cluster namespace rule ep s) ∙ versions-place _ ep s

  versions-take_port :
      (port_name : Str) (slice : EndpointSlice) (s : Progress)
      → bucket_versions (take_port cluster namespace rule port_name slice s).buckets
        ≡ bucket_versions s.buckets
  unfolding take_port
  versions-take_port port_name slice s = ground arith

  versions-add_slices :
      (port_name : Str) (slices : List EndpointSlice) (s : Progress)
      → bucket_versions (add_slices cluster namespace rule port_name slices s).buckets
        ≡ bucket_versions s.buckets
  unfolding add_slices
  versions-add_slices port_name [] s = refl
  versions-add_slices port_name (slice ∷ rest) s =
      versions-add_slices port_name rest _
      ∙ (versions-add_endpoints slice.endpoints _ ∙ versions-take_port port_name slice s)

versions-sorted : (bs : List VersionBucket) → set_versions (map sorted_set bs) ≡ bucket_versions bs
versions-sorted [] = refl
versions-sorted (b ∷ rest) = ap (λ t. b.set.version ∷ t) (versions-sorted rest)

versions-map :
    (label : Str) (vs : List BackendVersion)
    → bucket_versions (map (version_bucket label) vs) ≡ names vs
unfolding version_bucket
versions-map label [] = refl
versions-map label (v ∷ vs) = ap (λ t. v.name ∷ t) (versions-map label vs)

versions-new_buckets :
    (rule : RouteRule) (label : Str) → bucket_versions (new_buckets rule label) ≡ reported rule
unfolding new_buckets
versions-new_buckets rule label = elim (Bool-cases (is_empty rule.versions)) [
  | inl e ↦ rw e
  | inr e ↦ rw e (versions-map label rule.versions)
]

-- A backend whose Service exists, and whose slices can be listed, is resolved: one entry for each
-- declared version, in the order of the spec, or one for "" where none is declared.
pub resolve_versions :
    (cluster : Cluster) (namespace : Str) (rule : RouteRule) (label : Str) (svc : Service)
    (slices : List EndpointSlice)
    → cluster.get_service namespace rule.backend.service ≡ found svc
    → cluster.list_endpoint_slices namespace rule.backend.service ≡ ok slices
    → (res : Resolution) × (resolve cluster namespace rule label ≡ ok res)
      × (set_versions res.versions ≡ reported rule)
unfolding resolve finish
resolve_versions cluster namespace rule label svc slices e l =
    let base = service_resolution (find_port rule.backend.port svc.ports) in
    let start : Progress = record {
      port = pos 0;
      buckets = new_buckets rule label;
      unmatched = pos 0;
    } in
    let s = add_slices cluster namespace rule base.port_name slices start in
    (
      finish base s,
      ground arith,
      versions-sorted s.buckets
          ∙ (versions-add_slices cluster namespace rule base.port_name slices start
              ∙ versions-new_buckets rule label),
    )
