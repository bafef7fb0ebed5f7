-- ===== src/Controller/Watches/Setup.antt =====
-- `SetupWithManager`: the sources of the reconciler's requests. The manager and its builder are
-- parameters, and so is `predicate.GenerationChangedPredicate`.
use kubetraffic.Prelude.{Str, Bool, Option, none, some, List, [], ◌∷◌, if◌then◌else◌}
use kubetraffic.Api.{TrafficRoute, NamespacedName}
use kubetraffic.Discovery.Reads.{Fallible}
use kubetraffic.Controller.Watches.{
  Object, PodEvent, map_service, map_endpoint_slice, map_namespace, pod_readiness_changed,
  index_by_backend_service,
}

-- What the builder is told to watch.
pub data Source : Type 0 where
  routes services endpoint_slices pods decisions : Source

-- `IndexField` with its function, and `Complete` for the sources: an error, if there is one.
pub record Builder : Type 0 where
  pub index_field : (Option TrafficRoute → List Str) → Option Str
  pub complete : List Source → Option Str

abbrev pub sources : Bool → List Source
sources decision_events =
    routes ∷ services ∷ endpoint_slices ∷ pods ∷ (if decision_events then decisions ∷ [] else [])

unfoldable pub setup_with_manager : Builder → Bool → Option Str
setup_with_manager mgr decision_events = elim (mgr.index_field index_by_backend_service) [
  | some e ↦ some e
  | none ↦ mgr.complete (sources decision_events)
]

-- An event of a source. An update of a route comes with the predicate's verdict.
pub data Event : Type 0 where
  route_event : Bool → NamespacedName → Event
  service_event : Object → Event
  slice_event : Object → Event
  pod_event : PodEvent → Object → Event
  decision_event : NamespacedName → Event

-- The requests that an event enqueues.
module _ (list : Str → Option Str → Fallible (List TrafficRoute)) where
  unfoldable pub enqueued : Event → List NamespacedName
  enqueued (route_event passes nn) = if passes then nn ∷ [] else []
  enqueued (service_event obj) = map_service list obj
  enqueued (slice_event obj) = map_endpoint_slice list obj
  enqueued (pod_event e obj) = if pod_readiness_changed e then map_namespace list obj else []
  enqueued (decision_event nn) = nn ∷ []
