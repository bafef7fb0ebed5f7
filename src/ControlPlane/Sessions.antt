-- ===== src/ControlPlane/Sessions.antt =====
-- The in-memory control plane over several calls.
use kubetraffic.Prelude.{
  str_eq_refl, lookup, lookup-insert, lookup-erase, or_else, none, some, arith, ◌≡◌,
}
use kubetraffic.Prelude.Int.{pos, ◌+ℤ◌, wrap64}
use kubetraffic.Api.{TrafficRoute}
use kubetraffic.Discovery.Reads.{ok}
use kubetraffic.ControlPlane.{build_route_spec, pass_through_config}
use kubetraffic.ControlPlane.Fake.{Fake, key, named, register_route, delete_route, get_route_config}

-- A route that was registered is found with its own weights at its next generation; once deleted,
-- it is found no more, and a second deletion changes nothing of that.
pub register_get_delete :
    (tr : TrafficRoute) (f : Fake)
    → f.register_err ≡ none
    → f.delete_err ≡ none
    → f.get_err ≡ none
    → let registered = (register_route tr f).1 in
      let deleted = (delete_route (named tr) registered).1 in
      let generation = wrap64 (or_else (lookup (key (named tr)) f.generations) (pos 0) +ℤ pos 1) in
      (get_route_config (named tr) registered
        ≡ ok (some (pass_through_config (build_route_spec tr) generation)))
      × (get_route_config (named tr) deleted ≡ ok none)
      × (get_route_config (named tr) (delete_route (named tr) deleted).1 ≡ ok none)
unfolding register_route delete_route get_route_config
register_get_delete tr f r d g = grind (arith, lookup-insert, lookup-erase, str_eq_refl)
