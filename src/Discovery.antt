-- ===== src/Discovery.antt =====
-- controller/internal/discovery/resolver.go: from a rule's backend to ready endpoints by version.
pub mod Reads
pub mod Selectors
pub mod Order
pub mod Counted
pub mod Counts
pub mod Frame
pub mod Sets
pub mod Addresses
use kubetraffic.Prelude.{
  ℕ, zero, suc, ◌≡◌, Str, bytes, str_eq, str_ltb, is_nil, Dict, lookup, insert, or_else, Bool, true,
  false, not, ◌&&◌, ◌||◌, Option, none, some, List, [], ◌∷◌, ◌++◌, map, is_empty, sort,
  if◌then◌else◌,
}
use kubetraffic.Prelude.Int.{ℤ, pos, ◌+ℤ◌, eqb_ℤ, wrap32}
use kubetraffic.Api.{RouteRule, BackendVersion}
use Reads.{
  Cluster, Found, found, not_found, failed, Fallible, ok, err, Service, ServicePort, EndpointSlice,
  EndpointPort, Endpoint, TargetRef, Pod,
}

pub record EndpointSet : Type 0 where
  pub version : Str
  pub ready : ℤ
  pub not_ready : ℤ
  pub addresses : List Str

pub record Resolution : Type 0 where
  pub service_found : Bool
  pub port_found : Bool
  pub port_name : Str
  pub target_port : Str
  pub endpoint_port : ℤ
  pub versions : List EndpointSet
  pub unmatched : ℤ

-- `var res Resolution`
abbrev pub no_resolution : Resolution
no_resolution = record {
  service_found = false;
  port_found = false;
  port_name = [];
  target_port = [];
  endpoint_port = pos 0;
  versions = [];
  unmatched = pos 0;
}

pub record VersionBucket : Type 0 where
  pub set : EndpointSet
  pub selector : Dict Str

abbrev pub empty_set : Str → EndpointSet
empty_set version = record { version = version; ready = pos 0; not_ready = pos 0; addresses = [] }

version_selector : Str → BackendVersion → Dict Str
version_selector version_label v =
    if is_empty v.labels then insert version_label v.name [] else v.labels

version_bucket : Str → BackendVersion → VersionBucket
unfolding version_selector
version_bucket version_label v = record {
  set = empty_set v.name;
  selector = version_selector version_label v;
}

unfoldable pub new_buckets : RouteRule → Str → List VersionBucket
unfolding version_bucket
new_buckets rule version_label =
    if is_empty rule.versions
    then record { set = empty_set []; selector = [] } ∷ []
    else map (version_bucket version_label) rule.versions

-- The loop of `selectorMatches`; `have[k]` is "" where the key is missing.
all_match : Dict Str → Dict Str → Bool
all_match have [] = true
all_match have ((k, v) ∷ want) = str_eq (or_else (lookup k have) []) v && all_match have want

unfoldable pub selector_matches : Dict Str → Dict Str → Bool
unfolding all_match
selector_matches have want = not (is_empty want) && all_match have want

-- The bucket, by its place in the list, whose selector is the first to match.
unfoldable pub first_match : Dict Str → ℕ → List VersionBucket → Option ℕ
unfolding selector_matches
first_match labels i [] = none
first_match labels i (b ∷ rest) =
    let later = first_match labels (suc i) rest in
    if selector_matches labels b.selector then some i else later

pod_target : Cluster → Str → List VersionBucket → TargetRef → Option ℕ
pod_target cluster namespace buckets ref =
    if str_eq ref.kind (bytes "Pod")
    then elim (cluster.get_pod namespace ref.name) [
      | found pod ↦ first_match pod.labels 0 buckets
      | not_found ↦ none
      | failed e ↦ none
    ]
    else none

unfoldable pub attribute : Cluster → Str → Endpoint → List VersionBucket → Option ℕ
unfolding pod_target first_match
attribute cluster namespace ep buckets = elim ep.target_ref [
  | none ↦ none
  | some ref ↦ pod_target cluster namespace buckets ref
]

-- `p.Name == nil && portName == "" || p.Name != nil && *p.Name == portName`
abbrev port_named : Str → Option Str → Bool
port_named port_name none = is_nil port_name
port_named port_name (some name) = str_eq name port_name

-- The loop of `endpointPort`.
named_port : Str → List EndpointPort → ℤ
named_port port_name [] = pos 0
named_port port_name (p ∷ rest) = elim p.port [
  | none ↦ named_port port_name rest
  | some port ↦ if port_named port_name p.name then port else named_port port_name rest
]

abbrev sole_port : List EndpointPort → Option ℤ
sole_port (p ∷ []) = p.port
sole_port _ = none

unfoldable pub endpoint_port : EndpointSlice → Str → ℤ
unfolding named_port
endpoint_port slice port_name = or_else (sole_port slice.ports) (named_port port_name slice.ports)

abbrev inc32 : ℤ → ℤ
inc32 n = wrap32 (n +ℤ pos 1)

-- The first address, if there is one.
abbrev first_address : List Str → List Str
first_address [] = []
first_address (a ∷ rest) = a ∷ []

unfoldable pub count_endpoint : Bool → List Str → VersionBucket → VersionBucket
count_endpoint ready addresses b =
    if ready
    then record b {
      set = record b.set {
        ready = inc32 b.set.ready;
        addresses = b.set.addresses ++ first_address addresses;
      };
    }
    else record b { set = record b.set { not_ready = inc32 b.set.not_ready } }

-- `target` points into the buckets: the one at a place is changed.
unfoldable pub count_at : ℕ → Bool → List Str → List VersionBucket → List VersionBucket
unfolding count_endpoint
count_at i ready addresses [] = []
count_at zero ready addresses (b ∷ rest) = count_endpoint ready addresses b ∷ rest
count_at (suc i) ready addresses (b ∷ rest) = b ∷ count_at i ready addresses rest

-- What the loops over slices and endpoints change.
pub record Progress : Type 0 where
  pub port : ℤ
  pub buckets : List VersionBucket
  pub unmatched : ℤ

-- `ep.Conditions.Ready == nil || *ep.Conditions.Ready`
abbrev pub is_ready : Endpoint → Bool
is_ready ep = or_else ep.ready true

pub place : Option ℕ → Endpoint → Progress → Progress
place none ep s = if is_ready ep then record s { unmatched = inc32 s.unmatched } else s
place (some i) ep s = record s { buckets = count_at i (is_ready ep) ep.addresses s.buckets }

module _ (cluster : Cluster) (namespace : Str) (rule : RouteRule) where
  target_of : Endpoint → List VersionBucket → Option ℕ
  target_of ep buckets =
      if is_empty rule.versions then some 0 else attribute cluster namespace ep buckets

  add_endpoint : Endpoint → Progress → Progress
  unfolding place target_of
  add_endpoint ep s = place (target_of ep s.buckets) ep s

  add_endpoints : List Endpoint → Progress → Progress
  unfolding add_endpoint
  add_endpoints [] s = s
  add_endpoints (ep ∷ rest) s = add_endpoints rest (add_endpoint ep s)

  -- The port of the first slice that has one.
  take_port : Str → EndpointSlice → Progress → Progress
  take_port port_name slice s =
      let p = endpoint_port slice port_name in
      if not (eqb_ℤ p (pos 0)) && eqb_ℤ s.port (pos 0) then record s { port = p } else s

  add_slices : Str → List EndpointSlice → Progress → Progress
  unfolding add_endpoints take_port
  add_slices port_name [] s = s
  add_slices port_name (slice ∷ rest) s =
      add_slices port_name rest (add_endpoints slice.endpoints (take_port port_name slice s))

-- The port of the Service with the backend's number: the first, by `break`.
find_port : ℤ → List ServicePort → Option ServicePort
find_port port [] = none
find_port port (p ∷ rest) = if eqb_ℤ p.port port then some p else find_port port rest

service_resolution : Option ServicePort → Resolution
service_resolution none = record no_resolution { service_found = true }
service_resolution (some p) = record no_resolution {
  service_found = true;
  port_found = true;
  port_name = p.name;
  target_port = p.target_port;
}

-- The last loop: sorted addresses, bucket by bucket.
abbrev sorted_set : VersionBucket → EndpointSet
sorted_set b = record b.set { addresses = sort str_ltb b.set.addresses }

finish : Resolution → Progress → Resolution
finish res s = record res {
  endpoint_port = s.port;
  versions = map sorted_set s.buckets;
  unmatched = s.unmatched;
}

-- `Resolver.Resolve`. The resolution beside an error, which no caller reads, is left out.
module _ (cluster : Cluster) (namespace : Str) (rule : RouteRule) (version_label : Str) where
  resolve_slices : Resolution → Fallible Resolution
  unfolding add_slices finish
  resolve_slices res = elim (cluster.list_endpoint_slices namespace rule.backend.service) [
    | err e ↦
        err
          (bytes "list endpointslices for service " ++ (rule.backend.service ++ (bytes ": " ++ e)))
    | ok slices ↦ ok (
        finish res (
          add_slices cluster namespace rule res.port_name slices
            (record { port = pos 0; buckets = new_buckets rule version_label; unmatched = pos 0 })))
  ]

  unfoldable pub resolve : Fallible Resolution
  unfolding resolve_slices find_port service_resolution
  resolve = elim (cluster.get_service namespace rule.backend.service) [
    | not_found ↦ ok no_resolution
    | failed e ↦ err (
        bytes "get service "
        ++ (namespace ++ (bytes "/" ++ (rule.backend.service ++ (bytes ": " ++ e)))))
    | found svc ↦ resolve_slices (service_resolution (find_port rule.backend.port svc.ports))
  ]
