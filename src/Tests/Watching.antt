-- ===== src/Tests/Watching.antt =====
-- Events of the cluster and the routes that they enqueue.
use kubetraffic.Prelude.{
  ◌≡◌, ◌≢◌, ◌⊎◌, refl, inl, inr, ◌&&◌, Str, bytes, str_eq, str_eq_iff, str_eq_refl, Bool-cases,
  Dict, Option, none, some, List, [], ◌∷◌, if◌then◌else◌, arith, contains,
}
use kubetraffic.Api.{TrafficRoute}
use kubetraffic.Discovery.Reads.{Cluster, Fallible, ok, Found, found, not_found, Service, Pod}
use kubetraffic.Controller.{named, no_survey}
use kubetraffic.Controller.Watches.{
  Object, index_by_backend_service, changed, pod_ready, pod_readiness_changed,
}
use kubetraffic.Controller.Watches.Setup.{service_event, pod_event, enqueued}
use kubetraffic.Controller.Watches.Affected.{SameSurvey}
use kubetraffic.Controller.Watches.Complete.{
  Has, Lists, selected, Change, service_change, watches_complete,
}
use kubetraffic.Tests.Data.{payment, payment_service, empty_cluster}
use kubetraffic.Tests.Served.{serving}

abbrev stored : List TrafficRoute
stored = payment ∷ []

abbrev list : Str → Option Str → Fallible (List TrafficRoute)
list ns none = ok (selected (λ tr. str_eq tr.namespace ns) stored)
list ns (some name) = ok (
    selected (λ tr. str_eq tr.namespace ns && contains name (index_by_backend_service (some tr)))
      stored)

Lists-list : Lists list stored
Lists-list = record { by_namespace = λ ns. refl; by_service = λ ns name. refl }

abbrev payment_object : Object
payment_object = record { namespace = bytes "demo"; name = bytes "payment"; labels = [] }

abbrev new_service : Str → Str → Found Service
new_service ns n =
    if str_eq ns (bytes "demo") && str_eq n (bytes "payment")
    then found payment_service
    else not_found

abbrev with_service : Cluster
with_service = record empty_cluster { get_service = new_service }

new_service-elsewhere :
    (ns n : Str) → (ns ≢ bytes "demo") ⊎ (n ≢ bytes "payment") → not_found ≡ new_service ns n
new_service-elsewhere ns n (inl h) = ground (arith, str_eq_iff ns (bytes "demo"), h)
new_service-elsewhere ns n (inr h) = ground (arith, str_eq_iff n (bytes "payment"), h)

appears : Change (service_event payment_object) empty_cluster with_service
appears =
    service_change payment_object empty_cluster with_service (λ e. cc e) new_service-elsewhere refl
      refl

watches_complete_example :
    SameSurvey serving payment no_survey empty_cluster with_service
    ⊎ Has (named payment) (enqueued list (service_event payment_object))
watches_complete_example =
    watches_complete list stored Lists-list payment (inl refl) serving no_survey
      (service_event payment_object) empty_cluster with_service appears

-- An update that gives a pod other labels, and changes neither its readiness nor its address,
-- enqueues nothing, although `attribute` reads the labels.
relabelled :
    (p : Pod) (labels : Dict Str)
    → enqueued list
        (pod_event (changed (some p) (some (record p { labels = labels }))) payment_object)
      ≡ []
unfolding enqueued pod_readiness_changed
relabelled p labels = elim (Bool-cases (pod_ready p)) [
  | inl e ↦ ground (arith, str_eq_refl p.pod_ip, e)
  | inr e ↦ ground (arith, str_eq_refl p.pod_ip, e)
]
