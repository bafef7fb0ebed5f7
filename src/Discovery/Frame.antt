-- ===== src/Discovery/Frame.antt =====
-- What of a cluster the resolution of a backend depends on.
use kubetraffic.Prelude.{
  ◌≡◌, refl, ap, Str, Dict, Option, none, some, List, [], ◌∷◌, inl, inr, arith, Option-cases,
}
use kubetraffic.Api.{RouteRule}
use kubetraffic.Discovery.{
  VersionBucket, Progress, Resolution, attribute, add_endpoints, add_slices, take_port, resolve,
  resolve_slices, finish, service_resolution, find_port,
}
use kubetraffic.Discovery.Reads.{
  Cluster, Found, found, not_found, failed, Fallible, ok, err, Pod, Endpoint, EndpointSlice,
  Service,
}

-- The labels of a pod that was read, the only part of it that the resolver uses.
abbrev pub pod_labels : Found Pod → Option (Dict Str)
pod_labels (found pod) = some pod.labels
pod_labels not_found = none
pod_labels (failed e) = none

-- Two clusters that look the same to a rule of a namespace.
pub record LookSame (c c' : Cluster) (namespace : Str) (rule : RouteRule) : Type 0 where
  pub service :
      c.get_service namespace rule.backend.service ≡ c'.get_service namespace rule.backend.service
  pub slices :
      c.list_endpoint_slices namespace rule.backend.service
      ≡ c'.list_endpoint_slices namespace rule.backend.service
  pub labels :
      (name : Str) → pod_labels (c.get_pod namespace name) ≡ pod_labels (c'.get_pod namespace name)

module _ (c c' : Cluster) (namespace : Str) (rule : RouteRule)
    (same : LookSame c c' namespace rule) where
  attribute-LookSame :
      (ep : Endpoint) (buckets : List VersionBucket)
      → attribute c namespace ep buckets ≡ attribute c' namespace ep buckets
  unfolding attribute
  attribute-LookSame ep buckets = elim (Option-cases ep.target_ref) [
    | inl e ↦ ground (arith, e)
    | inr (ref, e) ↦ ground (arith, e, same.labels ref.name)
  ]

  add_endpoints-LookSame :
      (eps : List Endpoint) (s : Progress)
      → add_endpoints c namespace rule eps s ≡ add_endpoints c' namespace rule eps s
  unfolding add_endpoints
  add_endpoints-LookSame [] s = refl
  add_endpoints-LookSame (ep ∷ rest) s =
      rw (attribute-LookSame ep s.buckets) (add_endpoints-LookSame rest _)

  add_slices-LookSame :
      (port_name : Str) (slices : List EndpointSlice) (s : Progress)
      → add_slices c namespace rule port_name slices s
        ≡ add_slices c' namespace rule port_name slices s
  unfolding add_slices
  add_slices-LookSame port_name [] s = refl
  add_slices-LookSame port_name (slice ∷ rest) s =
      rw (add_endpoints-LookSame slice.endpoints (take_port c namespace rule port_name slice s))
        (add_slices-LookSame port_name rest _)

  resolve_slices-LookSame :
      (key : Str) (res : Resolution)
      → resolve_slices c namespace rule key res ≡ resolve_slices c' namespace rule key res
  unfolding resolve_slices
  resolve_slices-LookSame key res =
      by_slices (c.list_endpoint_slices namespace rule.backend.service) refl
    where
      by_slices :
          (o : Fallible (List EndpointSlice))
          → c.list_endpoint_slices namespace rule.backend.service ≡ o
          → resolve_slices c namespace rule key res ≡ resolve_slices c' namespace rule key res
      by_slices (err e) q = rw (← same.slices, q, resolve_slices) refl
      by_slices (ok slices) q =
          rw (← same.slices, q, resolve_slices)
            (ap (λ s. ok (finish res s)) (add_slices-LookSame res.port_name slices _))

  pub resolve-LookSame : (key : Str) → resolve c namespace rule key ≡ resolve c' namespace rule key
  unfolding resolve
  resolve-LookSame key = by_service (c.get_service namespace rule.backend.service) refl
    where
      by_service :
          (f : Found Service)
          → c.get_service namespace rule.backend.service ≡ f
          → resolve c namespace rule key ≡ resolve c' namespace rule key
      by_service not_found q = rw (← same.service, q, resolve) refl
      by_service (failed e) q = rw (← same.service, q, resolve) refl
      by_service (found svc) q =
          rw (← same.service, q, resolve)
            (resolve_slices-LookSame key
              (service_resolution (find_port rule.backend.port svc.ports)))
