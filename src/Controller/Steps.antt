-- ===== src/Controller/Steps.antt =====
-- Registration with the control plane, programming of the data plane and the status write of
-- trafficroute_controller.go. Each returns the calls that it makes, in order.
pub mod Fallback
pub mod Settled
use kubetraffic.Prelude.{
  Str, bytes, format_int, Bool, true, false, Dict, lookup, insert, Option, none, some, List, [],
  ◌∷◌, ◌++◌, take, if◌then◌else◌,
}
use kubetraffic.Prelude.Int.{ℤ}
use kubetraffic.Api.{
  TrafficRoute, TrafficRouteStatus, TrafficRoutePhase, none_yet, ready, RouteRule, RouteStatus,
  Condition,
}
use kubetraffic.Discovery.{Resolution}
use kubetraffic.Discovery.Reads.{Fallible, ok, err}
use kubetraffic.Model.{build}
use kubetraffic.ControlPlane.{build_route_spec}
use kubetraffic.ControlPlane.Wire.{RouteConfig}
use kubetraffic.Proxy.{Config}
use kubetraffic.Controller.World.{
  Env, DataPlane, StatusWrite, written, conflict, refused, Call, registered, applied, warned, noted,
  wrote_status, Cache, Rpc,
}
use kubetraffic.Controller.Helpers.{
  condition, condition_control_plane, condition_programmed, max_condition_message, named, truncate,
  cached_config, set_cached_config,
}

-- The condition, the configuration to use if there is one, the cache and the calls.
pub record Registration : Type 0 where
  pub cond : Condition
  pub config : Option RouteConfig
  pub cache : Cache
  pub calls : List Call

module _ (env : Env) (tr : TrafficRoute) where
  -- `ControlPlaneUnavailable`: the last-known-good configuration, if there is one.
  unavailable : Str → Cache → Registration
  unavailable e cache =
      let event = warned (bytes "ControlPlaneUnavailable") (truncate e 256) in
      elim (cached_config env (named tr) cache) [
        | some cached ↦ record {
          cond =
              condition condition_control_plane false (bytes "Unavailable")
                (truncate (bytes "using last-known-good config: " ++ e) max_condition_message);
          config = some cached;
          cache = cache;
          calls = registered (build_route_spec tr) ∷ event ∷ [];
        }
        | none ↦ record {
          cond =
              condition condition_control_plane false (bytes "Unavailable")
                (truncate e max_condition_message);
          config = none;
          cache = cache;
          calls = registered (build_route_spec tr) ∷ event ∷ [];
        }
      ]

  register_with : Rpc → Cache → Registration
  unfolding unavailable
  register_with rpc cache = elim (rpc.register_route (build_route_spec tr)) [
    | ok cfg ↦ record {
      cond =
          condition condition_control_plane true (bytes "Registered")
            (bytes "registered at control-plane generation " ++ format_int cfg.generation);
      config = some cfg;
      cache = set_cached_config env (named tr) cfg cache;
      calls = registered (build_route_spec tr) ∷ [];
    }
    | err e ↦ unavailable e cache
  ]

  unfoldable pub register_with_control_plane : Cache → Registration
  unfolding register_with
  register_with_control_plane cache = elim env.control_plane [
    | none ↦ record {
      cond = condition condition_control_plane false (bytes "ControlPlaneNotConfigured") (
          bytes "controller started without --control-plane-grpc-url; using spec weights directly");
      config = none;
      cache = cache;
      calls = [];
    }
    | some rpc ↦ register_with rpc cache
  ]

-- `program`: the Programmed condition, the phase to adopt (`none_yet` for ""), the error, the calls.
pub record Programming : Type 0 where
  pub cond : Condition
  pub phase : TrafficRoutePhase
  pub error : Option Str
  pub calls : List Call

proxy_error : List Call → Str → Programming
proxy_error before e = record {
  cond =
      condition condition_programmed false (bytes "ProxyError") (truncate e max_condition_message);
  phase = none_yet;
  error = some (bytes "apply proxy config: " ++ e);
  calls = before ++ warned (bytes "ProxyError") (truncate e 256) ∷ [];
}

module _ (env : Env) where
  programmed : Config → Programming
  programmed cfg =
      let sum = take 12 (env.config_sum cfg.raw) in
      record {
        cond =
            condition condition_programmed true (bytes "Programmed")
              (bytes "data plane serving config " ++ sum);
        phase = ready;
        error = none;
        calls =
            applied cfg
            ∷ noted (bytes "Programmed")
                (bytes "applied routing config " ++ (sum ++ bytes " to the data plane"))
            ∷ [];
      }

  deliver : DataPlane → Fallible Config → Programming
  unfolding proxy_error programmed
  deliver plane (err e) = proxy_error [] e
  deliver plane (ok cfg) = elim (plane.apply_config cfg) [
    | some e ↦ proxy_error (applied cfg ∷ []) e
    | none ↦ programmed cfg
  ]

  unfoldable pub program : TrafficRoute → Bool → List RouteRule → Dict Resolution → Programming
  unfolding deliver
  program tr resolved effective_routes resolutions = elim env.proxy [
    | none ↦ record {
      cond =
          condition condition_programmed false (bytes "ProxyNotConfigured")
            (bytes "controller started without --haproxy-dataplane-url");
      phase = none_yet;
      error = none;
      calls = [];
    }
    | some plane ↦
        if resolved
        then deliver plane (plane.generate_config (build tr.spec.host effective_routes resolutions))
        else record {
          cond =
              condition condition_programmed false (bytes "EndpointsUnavailable") (
                bytes "not programming while endpoints are unavailable; last good config retained");
          phase = none_yet;
          error = none;
          calls = [];
        }
  ]

  -- The loop of `applyStatus` over its conditions.
  pub set_conditions : ℤ → List Condition → List Condition → List Condition
  set_conditions generation old [] = old
  set_conditions generation old (c ∷ rest) =
      set_conditions generation
        (env.set_condition old (record c { observed_generation = generation })) rest

  unfoldable pub updated_status :
      TrafficRoute → TrafficRoutePhase → List RouteStatus → List Condition → TrafficRouteStatus
  unfolding set_conditions
  updated_status tr phase routes conditions = record tr.status {
    phase = phase;
    observed_generation = tr.generation;
    routes = routes;
    conditions = set_conditions tr.generation tr.status.conditions conditions;
  }

  abbrev write_error : StatusWrite → Option Str
  write_error written = none
  write_error conflict = none
  write_error (refused e) = some e

  unfoldable pub apply_status :
      TrafficRoute → TrafficRoutePhase → List RouteStatus → List Condition → Option Str × List Call
  unfolding updated_status
  apply_status tr phase routes conditions =
      let status = updated_status tr phase routes conditions in
      if env.status_equal tr.status status
      then (none, [])
      else (write_error (env.update_status status), wrote_status status ∷ [])
