-- ===== src/Tests/Served.antt =====
-- A route whose two versions each have a ready endpoint, from discovery to the data plane.
use mathlib.Core.Path.{subst}
use kubetraffic.Discovery.Addresses.{HasAddress, ListsAddresses}
use kubetraffic.Discovery.Sets.{AllEndpoints}
use kubetraffic.Model.{build_rule, rule_path}
use kubetraffic.Prelude.{
  ◌+◌, ◌≡◌, refl, true, not, ◌&&◌, none, some, [], ◌∷◌, arith, if◌then◌else◌, Str, bytes, str_eq,
  is_nil, Dict, lookup, contains, sort, str_ltb, Distinct,
}
use kubetraffic.Prelude.Int.{pos, ◌≤ℤ◌, wrap32, pos_part, neg_part}
use kubetraffic.Api.{TrafficRouteStatus, ready}
use kubetraffic.Discovery.{
  Resolution, EndpointSet, resolve, new_buckets, attribute, first_match, endpoint_port, count_at,
}
use kubetraffic.Discovery.Reads.{Cluster, found, ok, err, EndpointSlice, Endpoint, Pod}
use kubetraffic.Discovery.Counted.{AreCounts, total_ready, ready_in_slices}
use kubetraffic.Discovery.Counts.{resolve_counts}
use kubetraffic.Model.ServerNames.{server_names, build_rule-Distinct}
use kubetraffic.Proxy.{Config}
use kubetraffic.Controller.{
  Env, DataPlane, reconcile, Survey, no_survey, record_rule, route_issues, survey_rules,
}
use kubetraffic.Controller.Reconcile.Safety.{
  IsActive, IsReconciled-of_IsActive, reconcile-steps, steps_settle,
}
use kubetraffic.Controller.Steps.Fallback.{register_ok}
use kubetraffic.Controller.Reconcile.Programming.{
  IsServed, applied_configs, written_statuses, reconcile_served,
}
use kubetraffic.Controller.Reconcile.Remembered.{IsSurveyed, reconcile_remembers}
use kubetraffic.Controller.Reconcile.History.{settle-cache, fresh, pass, Issued, cache_Issued}
use kubetraffic.Controller.Watches.{index_by_backend_service}
use kubetraffic.Controller.Watches.Index.{uses_service, index_by_backend_service_lem}
use kubetraffic.Tests.Data.{
  payment, payment_rule, payment-IsWellFormed, payment-valid, v1, v2, payment_service, request,
  config, answering, world,
}

abbrev pod : Str → Pod
pod v = record {
  labels = (bytes "app.kubernetes.io/version", v) ∷ [];
  pod_ip = [];
  conditions = [];
}

abbrev endpoint : Str → Str → Endpoint
endpoint address name = record {
  addresses = address ∷ [];
  ready = none;
  target_ref = some (record { kind = bytes "Pod"; name = name });
}

abbrev pub slice : EndpointSlice
slice = record {
  ports = record { name = some (bytes "http"); port = some (pos 8080) } ∷ [];
  endpoints = endpoint (bytes "10.0.0.1") v1 ∷ endpoint (bytes "10.0.0.2") v2 ∷ [];
}

-- A pod is named for its version.
abbrev pub busy_cluster : Cluster
busy_cluster = record {
  get_service = λ ns n. found payment_service;
  list_endpoint_slices = λ ns n. ok (slice ∷ []);
  get_pod = λ ns n. found (pod n);
}

resolve_counts_example :
    (res : Resolution) × (resolve busy_cluster (bytes "demo") payment_rule (bytes "version")
      ≡ ok res)
    × AreCounts res.versions
    × (neg_part res.unmatched ≡ 0)
    × (total_ready res.versions + pos_part res.unmatched ≡ ready_in_slices (slice ∷ []))
resolve_counts_example =
    resolve_counts busy_cluster (bytes "demo") payment_rule (bytes "version") payment_service
      (slice ∷ []) refl refl (omega arith)

abbrev endpoint_set : Str → Str → EndpointSet
endpoint_set v address = record {
  version = v;
  ready = pos 1;
  not_ready = pos 0;
  addresses = address ∷ [];
}

abbrev pub served_resolution : Resolution
served_resolution = record {
  service_found = true;
  port_found = true;
  port_name = bytes "http";
  target_port = bytes "8080";
  endpoint_port = pos 8080;
  versions = endpoint_set v1 (bytes "10.0.0.1") ∷ endpoint_set v2 (bytes "10.0.0.2") ∷ [];
  unmatched = pos 0;
}

abbrev resolutions : Dict Resolution
resolutions = (bytes "/payment", served_resolution) ∷ []

found-payment : lookup (rule_path payment_rule.path) resolutions ≡ some served_resolution
unfolding lookup str_eq
found-payment = refl

build_rule-Distinct_example :
    Distinct (server_names (build_rule (bytes "h") resolutions payment_rule).servers)
build_rule-Distinct_example =
    build_rule-Distinct (bytes "h") resolutions payment_rule served_resolution found-payment refl
      payment-IsWellFormed.rules.0.versions

abbrev haproxy_config : Config
haproxy_config = record { raw = bytes "frontend kubetraffic" }

abbrev pub plane : DataPlane
plane = record { generate_config = λ m. ok haproxy_config; apply_config = λ c. none }

abbrev pub serving : Env
serving = record (world payment (answering (ok config) none)) {
  cluster = busy_cluster;
  proxy = some plane;
}

abbrev pub served_survey : Survey
served_survey = record_rule serving payment_rule served_resolution no_survey

pub surveyed : survey_rules serving payment payment.spec.routes no_survey ≡ ok served_survey
unfolding survey_rules resolve new_buckets attribute first_match endpoint_port count_at sort str_ltb
    lookup str_eq wrap32
surveyed = refl

pub IsActive-payment : IsActive serving request payment
unfolding contains str_eq
IsActive-payment = record { read = refl; stays = refl; held = refl }

pub no-issues : served_survey.issues ≡ []
unfolding record_rule route_issues
no-issues = refl

IsServed-payment : IsServed serving request [] payment served_survey plane haproxy_config
IsServed-payment = record {
  active = IsReconciled-of_IsActive serving request payment IsActive-payment;
  valid = payment-valid;
  surveyed = surveyed;
  resolved = no-issues;
  on = refl;
  generated = refl;
  taken = refl;
}

reconcile_served_example :
    let o = reconcile serving request [] in
    (st : TrafficRouteStatus) × (st.phase ≡ ready)
    × (st.observed_generation ≡ payment.generation)
    × (applied_configs o.calls ≡ haproxy_config ∷ [])
    × (written_statuses o.calls ≡ (if serving.status_equal payment.status st then [] else st ∷ []))
    × (pos 1 ≤ℤ o.requeue_after)
reconcile_served_example =
    reconcile_served serving request [] payment served_survey plane haproxy_config IsServed-payment

pub listed : ListsAddresses busy_cluster (bytes "demo")
listed service slices e =
    let same : slice ∷ [] ≡ slices = cc e in
    subst (AllEndpoints HasAddress) same ((refl, (refl, tt)), tt)

-- What the first pass leaves in the cache.
cached : lookup (bytes "demo/payment-route") (reconcile serving request []).cache ≡ some config
cached =
    rw
      (
        reconcile-steps serving request [] payment IsActive-payment,
        steps_settle serving request [] payment served_survey payment-valid surveyed,
        settle-cache serving payment [] served_survey,
      )
      (register_ok serving payment [] (answering (ok config) none) refl config refl).2

cache_Issued_example : Issued (pass serving request fresh) (bytes "demo/payment-route") config
cache_Issued_example =
    cache_Issued (pass serving request fresh) (bytes "demo/payment-route") config cached

index_by_backend_service_lem_example :
    let values = index_by_backend_service (some payment) in
    Distinct values
    × ((s : Str) → contains s values ≡ (not (is_nil s) && uses_service s payment.spec.routes))
index_by_backend_service_lem_example = index_by_backend_service_lem payment

-- A pass after that, while the control plane fails.
abbrev without : Env
without = record serving {
  control_plane = some (answering (err (bytes "unavailable")) (some (bytes "unavailable")));
}

IsSurveyed-serving : IsSurveyed serving request payment served_survey
IsSurveyed-serving = record {
  active = IsReconciled-of_IsActive serving request payment IsActive-payment;
  valid = payment-valid;
  surveyed = surveyed;
}

IsSurveyed-without : IsSurveyed without request payment served_survey
unfolding survey_rules record_rule route_issues
IsSurveyed-without = record {
  active = IsReconciled-of_IsActive without request payment (record {
    read = IsActive-payment.read;
    stays = IsActive-payment.stays;
    held = IsActive-payment.held;
  });
  valid = payment-valid;
  surveyed = surveyed;
}

reconcile_remembers_example :
    applied_configs (reconcile without request (reconcile serving request []).cache).calls
    ≡ haproxy_config ∷ []
reconcile_remembers_example =
    reconcile_remembers serving without request payment [] (answering (ok config) none)
      (answering (err (bytes "unavailable")) (some (bytes "unavailable"))) config
      (bytes "unavailable") served_survey served_survey plane haproxy_config IsSurveyed-serving refl
      refl refl IsSurveyed-without refl refl no-issues refl refl refl
