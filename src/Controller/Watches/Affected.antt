-- ===== src/Controller/Watches/Affected.antt =====
-- The changes of a cluster that a survey of a route depends on.
use kubetraffic.Prelude.{
  ◌≡◌, ◌≢◌, refl, sym, ◌∙◌, ◌⊎◌, inl, inr, true, false, Str, str_eq, str_eq_iff, str_eq_sound, List,
  [], ◌∷◌, All, Bool-cases, arith,
}
use kubetraffic.Api.{TrafficRoute, RouteRule}
use kubetraffic.Discovery.{resolve}
use kubetraffic.Discovery.Reads.{Cluster, Fallible-cases}
use kubetraffic.Discovery.Frame.{LookSame, pod_labels, resolve-LookSame}
use kubetraffic.Controller.World.{Env}
use kubetraffic.Controller.Helpers.{version_label_key}
use kubetraffic.Controller.Issues.{Survey, survey_rules, record_rule, route_issues}
use kubetraffic.Controller.Watches.Index.{uses_service}

-- The same world with another state of the cluster.
abbrev pub with_cluster : Env → Cluster → Env
with_cluster env c = record env { cluster = c }

module _ (env : Env) (tr : TrafficRoute) (c : Cluster) where
  survey-LookSame :
      (rules : List RouteRule) (s : Survey)
      → All (LookSame env.cluster c tr.namespace) rules
      → survey_rules (with_cluster env c) tr rules s ≡ survey_rules env tr rules s
  unfolding survey_rules record_rule route_issues
  survey-LookSame [] s h = refl
  survey-LookSame (r ∷ rs) s h =
      let same = resolve-LookSame env.cluster c tr.namespace r h.0 (version_label_key tr) in
      elim (Fallible-cases (resolve env.cluster tr.namespace r (version_label_key tr))) [
        | inl (res, e) ↦
            rw (← same, e, survey_rules) (survey-LookSame rs (record_rule env r res s) h.1)
        | inr (msg, e) ↦ rw (← same, e, survey_rules) refl
      ]

module _ (c c' : Cluster) (namespace : Str) where
  -- A service that no rule of a route uses is none that they look at.
  unused_service :
      (name : Str) (rules : List RouteRule)
      → uses_service name rules ≡ false
      → ((other : Str)
          → other ≢ name
          → (c.get_service namespace other ≡ c'.get_service namespace other)
            × (c.list_endpoint_slices namespace other ≡ c'.list_endpoint_slices namespace other))
      → ((other : Str)
          → pod_labels (c.get_pod namespace other) ≡ pod_labels (c'.get_pod namespace other))
      → All (LookSame c c' namespace) rules
  unused_service name [] e h k = tt
  unused_service name (r ∷ rs) e h k =
      let both =
        h r.backend.service
          (λ q. absurd (ground (arith, e, str_eq_iff r.backend.service name, q))) in
      (
        record { service = both.0; slices = both.1; labels = k },
        unused_service name rs (ground (arith, e)) h k,
      )

  pub all_same :
      (rules : List RouteRule)
      → ((other : Str)
          → (c.get_service namespace other ≡ c'.get_service namespace other)
            × (c.list_endpoint_slices namespace other ≡ c'.list_endpoint_slices namespace other))
      → ((other : Str)
          → pod_labels (c.get_pod namespace other) ≡ pod_labels (c'.get_pod namespace other))
      → All (LookSame c c' namespace) rules
  all_same [] h k = tt
  all_same (r ∷ rs) h k =
      let both = h r.backend.service in
      (record { service = both.0; slices = both.1; labels = k }, all_same rs h k)

module _ (env : Env) (tr : TrafficRoute) (s : Survey) (c c' : Cluster) where
  abbrev pub SameSurvey : Type 0
  SameSurvey =
      survey_rules (with_cluster env c') tr tr.spec.routes s
      ≡ survey_rules (with_cluster env c) tr tr.spec.routes s

  pub SameSurvey-of_all : All (LookSame c c' tr.namespace) tr.spec.routes → SameSurvey
  SameSurvey-of_all h = survey-LookSame (with_cluster env c) tr c' tr.spec.routes s h

  -- A change at one service leaves the survey as it is, or the route uses the service.
  pub same_or_used :
      (ns name : Str)
      → ((other : Str)
          → (tr.namespace ≢ ns) ⊎ (other ≢ name)
          → (c.get_service tr.namespace other ≡ c'.get_service tr.namespace other)
            × (c.list_endpoint_slices tr.namespace other
                ≡ c'.list_endpoint_slices tr.namespace other))
      → ((other : Str)
          → pod_labels (c.get_pod tr.namespace other) ≡ pod_labels (c'.get_pod tr.namespace other))
      → SameSurvey ⊎ ((tr.namespace ≡ ns) × (uses_service name tr.spec.routes ≡ true))
  same_or_used ns name h k = elim (Bool-cases (str_eq tr.namespace ns)) [
    | inr away ↦
        let apart : tr.namespace ≢ ns = λ q. cc (sym away ∙ (str_eq_iff tr.namespace ns).1 q) in
        inl (
          SameSurvey-of_all
            (all_same c c' tr.namespace tr.spec.routes (λ other. h other (inl apart)) k))
    | inl at_ns ↦ elim (Bool-cases (uses_service name tr.spec.routes)) [
      | inl used ↦ inr (str_eq_sound tr.namespace ns at_ns, used)
      | inr unused ↦ inl (
          SameSurvey-of_all (
            unused_service c c' tr.namespace name tr.spec.routes unused
              (λ other apart. h other (inr apart)) k))
    ]
  ]
