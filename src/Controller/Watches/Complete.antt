-- ===== src/Controller/Watches/Complete.antt =====
-- The watches miss no change that a survey of a route depends on, but for the labels of pods.
use mathlib.Core.Path.{subst}
use kubetraffic.Prelude.{
  ◌≡◌, ◌≢◌, refl, sym, ap, ◌∙◌, ◌⊎◌, inl, inr, Bool, true, false, ◌&&◌, Str, str_eq, str_eq_iff,
  str_eq_sound, Option, none, some, List, [], ◌∷◌, contains, is_nil, Bool-cases, arith,
  if◌then◌else◌, map,
}
use kubetraffic.Api.{TrafficRoute}
use kubetraffic.Discovery.Reads.{Cluster, Fallible, ok}
use kubetraffic.Discovery.Frame.{pod_labels}
use kubetraffic.Controller.World.{Env}
use kubetraffic.Controller.Helpers.{named}
use kubetraffic.Controller.Issues.{Survey}
use kubetraffic.Controller.Watches.{
  Object, PodEvent, created, deleted, generic, changed, pod_ready, service_label,
  index_by_backend_service, routes_for_service, map_service, map_endpoint_slice, map_namespace,
  to_requests, pod_readiness_changed,
}
use kubetraffic.Controller.Watches.Index.{uses_service, index_by_backend_service_lem}
use kubetraffic.Controller.Watches.Setup.{Event, service_event, slice_event, pod_event, enqueued}
use kubetraffic.Controller.Watches.Affected.{all_same, same_or_used, SameSurvey, SameSurvey-of_all}

-- The route is in the list.
abbrev pub Has : {A : Type 0} → A → List A → Type 0
Has a [] = ⊥
Has a (x ∷ xs) = (x ≡ a) ⊎ Has a xs

-- The routes that a selection keeps.
abbrev pub selected : (TrafficRoute → Bool) → List TrafficRoute → List TrafficRoute
selected p [] = []
selected p (tr ∷ rest) = if p tr then tr ∷ selected p rest else selected p rest

-- A list call answers from the routes there are, by namespace and by the index.
pub record Lists (list : Str → Option Str → Fallible (List TrafficRoute))
    (stored : List TrafficRoute) : Type 0 where
  pub by_namespace : (ns : Str) → list ns none ≡ ok (selected (λ tr. str_eq tr.namespace ns) stored)
  pub by_service :
      (ns name : Str)
      → list ns (some name)
        ≡ ok (
            selected
              (λ tr. str_eq tr.namespace ns && contains name (index_by_backend_service (some tr)))
              stored)

Has-selected :
    (p : TrafficRoute → Bool) (tr : TrafficRoute) (stored : List TrafficRoute)
    → Has tr stored
    → p tr ≡ true
    → Has (named tr) (map named (selected p stored))
Has-selected p tr [] h e = absurd h
Has-selected p tr (x ∷ rest) (inl same) e = rw same (rw e (inl refl))
Has-selected p tr (x ∷ rest) (inr later) e = elim (Bool-cases (p x)) [
  | inl kept ↦ rw kept (inr (Has-selected p tr rest later e))
  | inr left_out ↦ rw left_out (Has-selected p tr rest later e)
]

is_nil-false : (s : Str) → s ≢ [] → is_nil s ≡ false
is_nil-false [] h = absurd (h refl)
is_nil-false (x ∷ s) h = refl

-- An event that says that a pod came or went, or that its readiness or its address changed.
abbrev pub IsNotable : PodEvent → Type 0
IsNotable created = Unit
IsNotable deleted = Unit
IsNotable generic = ⊥
IsNotable (changed (some old) (some new)) =
    (pod_ready old ≢ pod_ready new) ⊎ (old.pod_ip ≢ new.pod_ip)
IsNotable (changed _ _) = ⊥

notable-passes : (e : PodEvent) → IsNotable e → pod_readiness_changed e ≡ true
unfolding pod_readiness_changed
notable-passes created h = refl
notable-passes deleted h = refl
notable-passes generic h = absurd h
notable-passes (changed (some old) (some new)) (inl h) = ground (arith, h)
notable-passes (changed (some old) (some new)) (inr h) =
    ground (arith, h, str_eq_iff old.pod_ip new.pod_ip)
notable-passes (changed (some old) none) h = absurd h
notable-passes (changed none n) h = absurd h

-- An event of the cluster, with the change that it reports. An update of a pod that keeps its
-- labels may change anything else.
pub data Change : Event → Cluster → Cluster → Type 0 where
  service_change :
      (obj : Object) (c c' : Cluster)
      → obj.name ≢ []
      → ((ns name : Str)
          → (ns ≢ obj.namespace) ⊎ (name ≢ obj.name)
          → c.get_service ns name ≡ c'.get_service ns name)
      → c.list_endpoint_slices ≡ c'.list_endpoint_slices
      → c.get_pod ≡ c'.get_pod
      → Change (service_event obj) c c'
  slice_change :
      (obj : Object) (c c' : Cluster)
      → service_label obj ≢ []
      → c.get_service ≡ c'.get_service
      → ((ns name : Str)
          → (ns ≢ obj.namespace) ⊎ (name ≢ service_label obj)
          → c.list_endpoint_slices ns name ≡ c'.list_endpoint_slices ns name)
      → c.get_pod ≡ c'.get_pod
      → Change (slice_event obj) c c'
  pod_notably_changes :
      (e : PodEvent) (obj : Object) (c c' : Cluster)
      → IsNotable e
      → c.get_service ≡ c'.get_service
      → c.list_endpoint_slices ≡ c'.list_endpoint_slices
      → ((ns name : Str)
          → (ns ≢ obj.namespace) ⊎ (name ≢ obj.name)
          → c.get_pod ns name ≡ c'.get_pod ns name)
      → Change (pod_event e obj) c c'
  pod_keeps_labels :
      (e : PodEvent) (obj : Object) (c c' : Cluster)
      → c.get_service ≡ c'.get_service
      → c.list_endpoint_slices ≡ c'.list_endpoint_slices
      → ((ns name : Str) → pod_labels (c.get_pod ns name) ≡ pod_labels (c'.get_pod ns name))
      → Change (pod_event e obj) c c'

module _ (list : Str → Option Str → Fallible (List TrafficRoute)) (stored : List TrafficRoute)
    (lists : Lists list stored) (tr : TrafficRoute) (is_stored : Has tr stored) where
  routes_for_service-Has :
      (ns name : Str)
      → name ≢ []
      → (tr.namespace ≡ ns) × (uses_service name tr.spec.routes ≡ true)
      → Has (named tr) (routes_for_service list ns name)
  unfolding routes_for_service to_requests
  routes_for_service-Has ns name some_name (at_ns, used) =
      let keeps = λ (r : TrafficRoute).
        str_eq r.namespace ns && contains name (index_by_backend_service (some r)) in
      let found' : routes_for_service list ns name ≡ map named (selected keeps stored) =
        ground (arith, lists.by_service ns name) in
      subst (Has (named tr)) (sym found') (
        Has-selected keeps tr stored is_stored (
          ground (
            arith,
            str_eq_iff tr.namespace ns,
            at_ns,
            used,
            is_nil-false name some_name,
            (index_by_backend_service_lem tr).1 name,
          )))

  map_namespace-Has :
      (obj : Object) → tr.namespace ≡ obj.namespace → Has (named tr) (map_namespace list obj)
  unfolding map_namespace to_requests
  map_namespace-Has obj at_ns =
      let keeps = λ (r : TrafficRoute). str_eq r.namespace obj.namespace in
      let found' : map_namespace list obj ≡ map named (selected keeps stored) =
        ground (arith, lists.by_namespace obj.namespace) in
      subst (Has (named tr)) (sym found')
        (Has-selected keeps tr stored is_stored ((str_eq_iff tr.namespace obj.namespace).1 at_ns))

  module _ (env : Env) (s : Survey) where
    -- Where list calls answer from the stored routes, by namespace and by the index: an event
    -- either enqueues a stored route or leaves its survey as it is, if it reports a change of one
    -- Service, of the slices of one Service, of one pod that comes, goes, or changes its readiness
    -- or its address, or of pods that keep their labels. It says nothing of a pod that changes its
    -- labels and neither its readiness nor its address.
    pub watches_complete :
        (e : Event) (c c' : Cluster)
        → Change e c c'
        → SameSurvey env tr s c c' ⊎ Has (named tr) (enqueued list e)
    unfolding enqueued map_service map_endpoint_slice
    watches_complete _ _ _ (service_change obj c c' some_name services slices pods) =
        elim (same_or_used env tr s c c' obj.namespace obj.name
          (λ other apart. (services _ other apart, ap (λ f. f tr.namespace other) slices))
          (λ other. ap (λ f. pod_labels (f tr.namespace other)) pods)) [
            | inl same ↦ inl same
            | inr used ↦ inr (routes_for_service-Has obj.namespace obj.name some_name used)
          ]
    watches_complete _ _ _ (slice_change obj c c' some_name services slices pods) =
        elim (same_or_used env tr s c c' obj.namespace (service_label obj)
          (λ other apart. (ap (λ f. f tr.namespace other) services, slices _ other apart))
          (λ other. ap (λ f. pod_labels (f tr.namespace other)) pods)) [
            | inl same ↦ inl same
            | inr used ↦ inr (
                rw (is_nil-false (service_label obj) some_name)
                  (routes_for_service-Has obj.namespace (service_label obj) some_name used))
          ]
    watches_complete _ _ _ (pod_notably_changes e obj c c' notable services slices pods) =
        elim (Bool-cases (str_eq tr.namespace obj.namespace)) [
          | inl at_ns ↦
              inr (rw (notable-passes e notable) (map_namespace-Has obj (str_eq_sound _ _ at_ns)))
          | inr away ↦
              let apart : tr.namespace ≢ obj.namespace =
                λ q. cc (sym away ∙ (str_eq_iff tr.namespace obj.namespace).1 q) in
              inl (
                SameSurvey-of_all env tr s c c' (
                  all_same c c' tr.namespace tr.spec.routes
                    (λ other. (
                      ap (λ f. f tr.namespace other) services,
                      ap (λ f. f tr.namespace other) slices,
                    ))
                    (λ other. ap pod_labels (pods _ other (inl apart)))))
        ]
    watches_complete _ _ _ (pod_keeps_labels e obj c c' services slices labels) = inl (
        SameSurvey-of_all env tr s c c' (
          all_same c c' tr.namespace tr.spec.routes
            (λ other.
              (ap (λ f. f tr.namespace other) services, ap (λ f. f tr.namespace other) slices))
            (λ other. labels _ other)))
