-- ===== src/Controller/Reconcile/Remembered.antt =====
-- A configuration of the control plane outlives the pass that got it.
use kubetraffic.Prelude.{◌≡◌, ap, ◌∙◌, some, [], ◌∷◌, Str}
use kubetraffic.Api.{TrafficRoute, NamespacedName}
use kubetraffic.Webhook.{validate_traffic_route}
use kubetraffic.Discovery.Reads.{ok, err}
use kubetraffic.Model.{build}
use kubetraffic.ControlPlane.{build_route_spec}
use kubetraffic.ControlPlane.Wire.{RouteConfig}
use kubetraffic.Proxy.{Config}
use kubetraffic.Controller.World.{Env, Rpc, Cache, DataPlane}
use kubetraffic.Controller.Helpers.{named}
use kubetraffic.Controller.Issues.{Survey, survey_rules, no_survey}
use kubetraffic.Controller.Steps.{register_with_control_plane}
use kubetraffic.Controller.Steps.Fallback.{register_remembers}
use kubetraffic.Controller.Weights.{apply_effective_weights}
use kubetraffic.Controller.Reconcile.{reconcile, Outcome, none}
use kubetraffic.Controller.Reconcile.Safety.{IsReconciled, reconcile-after, steps_settle}
use kubetraffic.Controller.Reconcile.History.{settle-cache}
use kubetraffic.Controller.Reconcile.Programming.{applied_configs, reconcile_served}

-- A pass over a valid route that stays, whose finalizer is there or can be added, and whose
-- backends can be surveyed.
pub record IsSurveyed (env : Env) (req : NamespacedName) (tr : TrafficRoute) (s : Survey)
    : Type 0 where
  pub active : IsReconciled env req tr
  pub valid : validate_traffic_route tr ≡ []
  pub surveyed : survey_rules env tr tr.spec.routes no_survey ≡ ok s

cache-reconcile :
    (env : Env) (req : NamespacedName) (cache : Cache) (tr : TrafficRoute) (s : Survey)
    → IsSurveyed env req tr s
    → (reconcile env req cache).cache ≡ (register_with_control_plane env tr cache).cache
cache-reconcile env req cache tr s v =
    (reconcile-after env req cache tr v.active).0
    ∙ (ap (λ (o : Outcome). o.cache) (steps_settle env req cache tr s v.valid v.surveyed)
        ∙ settle-cache env tr cache s)

-- After a pass over a surveyed route that the control plane answered with a configuration, a pass
-- over the same route, with the cache that the first left, that finds the route resolved while the
-- control plane fails, and whose data plane takes what it makes of the rules with the weights of
-- that configuration: it applies what the data plane makes of them, and nothing else.
pub reconcile_remembers :
    (first second : Env) (req : NamespacedName) (tr : TrafficRoute) (cache : Cache) (up down : Rpc)
    (answer : RouteConfig) (e : Str) (s s' : Survey) (plane : DataPlane) (cfg : Config)
    → IsSurveyed first req tr s
    → first.control_plane ≡ some up
    → up.register_route (build_route_spec tr) ≡ ok answer
    → second.route_key (named tr) ≡ first.route_key (named tr)
    → IsSurveyed second req tr s'
    → second.control_plane ≡ some down
    → down.register_route (build_route_spec tr) ≡ err e
    → s'.issues ≡ []
    → second.proxy ≡ some plane
    → plane.generate_config
        (build tr.spec.host (apply_effective_weights tr.spec.routes (some answer)) s'.resolutions)
      ≡ ok cfg
    → plane.apply_config cfg ≡ none
    → applied_configs (reconcile second req (reconcile first req cache).cache).calls ≡ cfg ∷ []
reconcile_remembers first second req tr cache up down answer e s s' plane cfg v on good key v' on'
      bad resolved proxied made taken =
    let left = cache-reconcile first req cache tr s v in
    let used : (register_with_control_plane second tr (reconcile first req cache).cache).config
        ≡ some answer =
      ap (λ c. (register_with_control_plane second tr c).config) left
      ∙ register_remembers first second tr cache up down answer e on on' key good bad in
    let (st, ph, gen, applied, written, due) =
      reconcile_served second req (reconcile first req cache).cache tr s' plane cfg (record {
        active = v'.active;
        valid = v'.valid;
        surveyed = v'.surveyed;
        resolved = resolved;
        on = proxied;
        generated =
            ap
              (λ c.
                plane.generate_config
                  (build tr.spec.host (apply_effective_weights tr.spec.routes c) s'.resolutions))
              used
            ∙ made;
        taken = taken;
      }) in
    applied
