-- ===== src/Controller/Steps/Fallback.antt =====
-- Registration falls back to the last-known-good configuration.
use kubetraffic.Prelude.{
  Str, true, false, some, arith, ◌≡◌, lookup, lookup-insert, str_eq_refl, ◌∙◌, ap,
}
use kubetraffic.Api.{TrafficRoute}
use kubetraffic.Discovery.Reads.{ok, err}
use kubetraffic.ControlPlane.{build_route_spec}
use kubetraffic.ControlPlane.Wire.{RouteConfig}
use kubetraffic.Controller.World.{Env, Rpc, Cache}
use kubetraffic.Controller.Helpers.{named}
use kubetraffic.Controller.Steps.{register_with_control_plane}

module _ (env : Env) (tr : TrafficRoute) (cache : Cache) (rpc : Rpc)
    (on : env.control_plane ≡ some rpc) where
  -- A registration that succeeds is used and remembered under the route's key.
  pub register_ok :
      (cfg : RouteConfig)
      → rpc.register_route (build_route_spec tr) ≡ ok cfg
      → let reg = register_with_control_plane env tr cache in
        (reg.config ≡ some cfg)
        × (reg.cond.status ≡ true)
        × (lookup (env.route_key (named tr)) reg.cache ≡ some cfg)
  unfolding register_with_control_plane
  register_ok cfg e = ground (
    arith,
    lookup-insert (env.route_key (named tr)) (env.route_key (named tr)) cfg cache,
    str_eq_refl (env.route_key (named tr)),
  )

  -- One that fails uses what is remembered, if anything is, and forgets nothing.
  pub register_err :
      (e : Str)
      → rpc.register_route (build_route_spec tr) ≡ err e
      → let reg = register_with_control_plane env tr cache in
        (reg.config ≡ lookup (env.route_key (named tr)) cache)
        × (reg.cond.status ≡ false)
        × (reg.cache ≡ cache)
  unfolding register_with_control_plane
  register_err e q = ground arith

-- After a pass that registered a route, a pass that cannot still uses that configuration.
pub register_remembers :
    (first second : Env) (tr : TrafficRoute) (cache : Cache) (up down : Rpc) (cfg : RouteConfig)
    (e : Str)
    → first.control_plane ≡ some up
    → second.control_plane ≡ some down
    → second.route_key (named tr) ≡ first.route_key (named tr)
    → up.register_route (build_route_spec tr) ≡ ok cfg
    → down.register_route (build_route_spec tr) ≡ err e
    → (register_with_control_plane second tr
        (register_with_control_plane first tr cache).cache).config
      ≡ some cfg
register_remembers first second tr cache up down cfg e on on' key good bad =
    let (used, known, kept) = register_ok first tr cache up on cfg good in
    let (fallback, failing, same) =
      register_err second tr (register_with_control_plane first tr cache).cache down on' e bad in
    fallback ∙ (ap (λ k. lookup k (register_with_control_plane first tr cache).cache) key ∙ kept)
