-- ===== src/Controller/Reconcile/Settled.antt =====
-- A pass over a route whose status is up to date.
use kubetraffic.Api.{TrafficRoute}
use kubetraffic.Controller.World.{Env}
use kubetraffic.Discovery.Reads.{found}

-- The same world, but that the API server now answers with a given route.
abbrev pub rereading : Env → TrafficRoute → Env
rereading env tr = record env { get_route = λ n. found tr }
