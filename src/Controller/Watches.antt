-- ===== src/Controller/Watches.antt =====
-- The watches of trafficroute_controller.go: which routes an event of another object concerns.
pub mod Index
pub mod Setup
pub mod Affected
pub mod Complete
use kubetraffic.Prelude.{
  Str, bytes, str_eq, is_nil, contains, Bool, true, false, not, ◌||◌, Option, none, some, Dict,
  lookup, or_else, List, [], ◌∷◌, map, if◌then◌else◌,
}
use kubetraffic.Api.{TrafficRoute, RouteRule, NamespacedName}
use kubetraffic.Discovery.Reads.{Fallible, ok, err, Pod, PodCondition}
use kubetraffic.Controller.Helpers.{named}

-- The loop of `indexByBackendService`: what it appends.
unfoldable pub services_from : List Str → List RouteRule → List Str
services_from seen [] = []
services_from seen (rule ∷ rest) =
    let service = rule.backend.service in
    let skipped = services_from seen rest in
    let added = service ∷ services_from (service ∷ seen) rest in
    if is_nil service || contains service seen then skipped else added

-- An object of another type is none.
unfoldable pub index_by_backend_service : Option TrafficRoute → List Str
unfolding services_from
index_by_backend_service none = []
index_by_backend_service (some tr) = services_from [] tr.spec.routes

unfoldable pub to_requests : List TrafficRoute → List NamespacedName
to_requests = map named

-- An object of an event: what the map functions read of it.
pub record Object : Type 0 where
  pub namespace : Str
  pub name : Str
  pub labels : Dict Str

-- `obj.GetLabels()[discoveryv1.LabelServiceName]`
abbrev pub service_label : Object → Str
service_label obj = or_else (lookup (bytes "kubernetes.io/service-name") obj.labels) []

-- `r.List`: the routes of a namespace, by their index value where one is given.
module _ (list : Str → Option Str → Fallible (List TrafficRoute)) where
  listed : Str → Option Str → List NamespacedName
  listed namespace service = elim (list namespace service) [
    | err e ↦ []
    | ok items ↦ to_requests items
  ]

  unfoldable pub routes_for_service : Str → Str → List NamespacedName
  unfolding listed
  routes_for_service namespace name = listed namespace (some name)

  unfoldable pub map_service : Object → List NamespacedName
  map_service obj = routes_for_service obj.namespace obj.name

  unfoldable pub map_endpoint_slice : Object → List NamespacedName
  map_endpoint_slice obj =
      let svc = service_label obj in if is_nil svc then [] else routes_for_service obj.namespace svc

  unfoldable pub map_namespace : Object → List NamespacedName
  unfolding listed
  map_namespace obj = listed obj.namespace none

-- `podReady`: the first condition of type Ready decides.
unfoldable pub ready_from : List PodCondition → Bool
ready_from [] = false
ready_from (c ∷ rest) =
    if str_eq c.kind (bytes "Ready") then str_eq c.status (bytes "True") else ready_from rest

unfoldable pub pod_ready : Pod → Bool
unfolding ready_from
pod_ready p = ready_from p.conditions

abbrev bool_eq : Bool → Bool → Bool
bool_eq true b = b
bool_eq false b = not b

-- The event of a watched pod; in an update an object of another type is none.
pub data PodEvent : Type 0 where
  created deleted generic : PodEvent
  changed : Option Pod → Option Pod → PodEvent

unfoldable pub pod_readiness_changed : PodEvent → Bool
unfolding pod_ready
pod_readiness_changed created = true
pod_readiness_changed deleted = true
pod_readiness_changed generic = false
pod_readiness_changed (changed (some old) (some new)) =
    not (bool_eq (pod_ready old) (pod_ready new)) || not (str_eq old.pod_ip new.pod_ip)
pod_readiness_changed (changed _ _) = false
