-- ===== src/Controller/Reconcile/Deletion.antt =====
-- Deleting a route: the finalizer goes only after the control plane has been told.
use kubetraffic.Prelude.{true, none, some, [], ◌∷◌, arith, ◌≡◌, lookup, lookup-erase, str_eq_refl}
use kubetraffic.Api.{TrafficRoute, NamespacedName}
use kubetraffic.Discovery.Reads.{found}
use kubetraffic.ControlPlane.Wire.{RouteRef}
use kubetraffic.Controller.World.{Env, Rpc, updated, deleted, Cache}
use kubetraffic.Controller.Helpers.{traffic_route_finalizer, named}
use kubetraffic.Controller.Reconcile.{finalize, reconcile}

-- A route of a request that is being deleted and still has its finalizer.
pub record IsDoomed (env : Env) (req : NamespacedName) (tr : TrafficRoute) : Type 0 where
  pub read : env.get_route req ≡ found tr
  pub deleting : tr.deleting ≡ true
  pub held : env.contains_finalizer tr.finalizers traffic_route_finalizer ≡ true

abbrev pub route_ref : TrafficRoute → RouteRef
route_ref tr = record { namespace = tr.namespace; name = tr.name }

abbrev pub released : Env → TrafficRoute → TrafficRoute
released env tr = record tr {
  finalizers = env.remove_finalizer tr.finalizers traffic_route_finalizer;
}

module _ (env : Env) (req : NamespacedName) (cache : Cache) (tr : TrafficRoute) where
  reconcile-finalize : IsDoomed env req tr → reconcile env req cache ≡ finalize env tr cache
  unfolding reconcile
  reconcile-finalize d = ground arith

  -- For a route that is being deleted and has the finalizer, once the control plane agrees to the
  -- deletion, the object is written without its finalizer, after the deletion, and the route's
  -- cached configuration is gone.
  pub reconcile_deletion :
      (rpc : Rpc)
      → IsDoomed env req tr
      → env.control_plane ≡ some rpc
      → rpc.delete_route (route_ref tr) ≡ none
      → ((reconcile env req cache).calls ≡ deleted (route_ref tr) ∷ updated (released env tr) ∷ [])
        × (lookup (env.route_key (named tr)) (reconcile env req cache).cache ≡ none)
  unfolding finalize
  reconcile_deletion rpc d c r = rw (reconcile-finalize d) (
      ground (
        arith,
        lookup-erase (env.route_key (named tr)) (env.route_key (named tr)) cache,
        str_eq_refl (env.route_key (named tr)),
      ))
