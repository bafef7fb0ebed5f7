-- ===== src/Controller/World.antt =====
-- What trafficroute_controller.go is given: the libraries' functions that it calls, the outside
-- world during one pass, and the calls that it makes there. Each write is made at most once in a
-- pass, so a world that answers each call by a function loses nothing; a later pass has its own.
use kubetraffic.Prelude.{Str, Bool, Option, List, Dict}
use kubetraffic.Prelude.Int.{ℤ}
use kubetraffic.Api.{TrafficRoute, TrafficRouteStatus, Condition, NamespacedName}
use kubetraffic.Webhook.Errors.{FieldError}
use kubetraffic.Discovery.Reads.{Cluster, Found, Fallible}
use kubetraffic.Model.{RoutingModel}
use kubetraffic.ControlPlane.Wire.{RouteSpec, RouteConfig, RouteRef}
use kubetraffic.Proxy.{Config}

-- k8s.io/apimachinery and controller-runtime, fmt's `%q`, and `Config.Sum` (SHA-256 in hex).
pub record Libraries : Type 0 where
  -- `errs.ToAggregate().Error()`
  pub aggregate : List FieldError → Str
  pub quote : Str → Str
  -- `types.NamespacedName.String()`
  pub route_key : NamespacedName → Str
  -- `controllerutil`, on the list of finalizers.
  pub contains_finalizer : List Str → Str → Bool
  pub add_finalizer : List Str → Str → List Str
  pub remove_finalizer : List Str → Str → List Str
  -- `meta.SetStatusCondition`
  pub set_condition : List Condition → Condition → List Condition
  -- `apiequality.Semantic.DeepEqual`
  pub status_equal : TrafficRouteStatus → TrafficRouteStatus → Bool
  pub config_sum : Str → Str

-- `r.Status().Update`: done, a conflict, or another error.
pub data StatusWrite : Type 0 where
  written conflict : StatusWrite
  refused : Str → StatusWrite

-- The two remote calls of the control plane that the reconciler makes.
pub record Rpc : Type 0 where
  pub register_route : RouteSpec → Fallible RouteConfig
  pub delete_route : RouteRef → Option Str

pub record DataPlane : Type 0 where
  pub generate_config : RoutingModel → Fallible Config
  pub apply_config : Config → Option Str

-- `update_route` is the error of `r.Update`, if there is one: of what an accepted update gives back,
-- only the resource version is new, and that is not modelled.
-- `control_plane` and `proxy` are none where the reconciler has none. The intervals are durations.
pub record Env : Type 0 where
  pub libraries : Libraries
  pub open libraries use *
  pub cluster : Cluster
  pub get_route : NamespacedName → Found TrafficRoute
  pub update_route : TrafficRoute → Option Str
  pub update_status : TrafficRouteStatus → StatusWrite
  pub control_plane : Option Rpc
  pub proxy : Option DataPlane
  pub resync_interval : ℤ
  pub control_plane_retry_interval : ℤ

-- A write to the outside, in the order of the program.
pub data Call : Type 0 where
  updated : TrafficRoute → Call
  registered : RouteSpec → Call
  deleted : RouteRef → Call
  applied : Config → Call
  warned : Str → Str → Call
  noted : Str → Str → Call
  wrote_status : TrafficRouteStatus → Call

-- `r.cpCache`, under its mutex.
abbrev pub Cache : Type 0
Cache = Dict RouteConfig
