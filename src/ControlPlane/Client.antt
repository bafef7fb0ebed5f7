-- ===== src/ControlPlane/Client.antt =====
-- `GRPCClient` of controller/internal/controlplane/client.go. The generated stubs and grpc's
-- connection are parameters: a call has the timeout that bounds its context.
use kubetraffic.Prelude.{Option, none, some, List, [], ◌++◌, if◌then◌else◌, Str, bytes}
use kubetraffic.Prelude.Int.{ℤ, pos, leb_ℤ}
use kubetraffic.Api.{TrafficRoute, NamespacedName}
use kubetraffic.Discovery.Reads.{Fallible, ok, err}
use kubetraffic.ControlPlane.Defs.{build_route_spec}
use kubetraffic.ControlPlane.Wire.{RouteSpec, RouteConfig, RouteRef, Decision}

-- The connection is known by its target.
pub record GrpcClient : Type 0 where
  pub target : Str
  pub timeout : ℤ

-- What a stream delivers: the decisions received, and the error that ends it.
pub record DecisionStream : Type 0 where
  pub decisions : List Decision
  pub ended : Str

pub record Stubs : Type 0 where
  -- `grpc.NewClient`: an error, or none.
  pub new_client : Str → Option Str
  pub quote : Str → Str
  pub register_route : ℤ → RouteSpec → Fallible RouteConfig
  pub delete_route : ℤ → RouteRef → Option Str
  pub get_route_config : ℤ → RouteRef → Fallible RouteConfig
  pub stream_decisions : Fallible DecisionStream

module _ (stubs : Stubs) where
  -- Five seconds where the timeout is not positive.
  unfoldable pub dial : Str → ℤ → Fallible GrpcClient
  dial target timeout = elim (stubs.new_client target) [
    | some e ↦ err (bytes "dial control plane " ++ (stubs.quote target ++ (bytes ": " ++ e)))
    | none ↦ ok (record {
      target = target;
      timeout = if leb_ℤ timeout (pos 0) then pos 5000000000 else timeout;
    })
  ]

  unfoldable pub register_route : GrpcClient → TrafficRoute → Fallible RouteConfig
  register_route c tr = stubs.register_route c.timeout (build_route_spec tr)

  abbrev pub route_ref : NamespacedName → RouteRef
  route_ref ref = record { namespace = ref.namespace; name = ref.name }

  unfoldable pub delete_route : GrpcClient → NamespacedName → Option Str
  delete_route c ref = stubs.delete_route c.timeout (route_ref ref)

  unfoldable pub get_route_config : GrpcClient → NamespacedName → Fallible RouteConfig
  get_route_config c ref = stubs.get_route_config c.timeout (route_ref ref)

  -- The decisions that `onDecision` is called with, in order, and the error that it returns.
  unfoldable pub watch_decisions : GrpcClient → List Decision × Str
  watch_decisions c = elim stubs.stream_decisions [
    | err e ↦ ([], bytes "open decision stream: " ++ e)
    | ok stream ↦ (stream.decisions, stream.ended)
  ]
