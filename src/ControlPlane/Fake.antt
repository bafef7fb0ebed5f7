-- ===== src/ControlPlane/Fake.antt =====
-- controller/internal/controlplane/fake.go: the in-memory control plane, a method a function from
-- the state to the state and the result.
use kubetraffic.Prelude.{
  ℕ, Str, bytes, Dict, lookup, insert, erase, or_else, Option, none, some, List, [], ◌∷◌, ◌++◌,
  length,
}
use kubetraffic.Prelude.Int.{ℤ, pos, ◌+ℤ◌, wrap64}
use kubetraffic.Api.{TrafficRoute, NamespacedName}
use kubetraffic.Discovery.Reads.{Fallible, ok, err}
use kubetraffic.ControlPlane.Wire.{RouteSpec, RouteConfig}
use kubetraffic.ControlPlane.Defs.{build_route_spec, pass_through_config}

pub record Fake : Type 0 where
  pub generations : Dict ℤ
  pub configs : Dict RouteConfig
  pub registrations : List RouteSpec
  pub deleted : List NamespacedName
  pub register_err : Option Str
  pub delete_err : Option Str
  pub get_err : Option Str

abbrev pub new_fake : Fake
new_fake = record {
  generations = [];
  configs = [];
  registrations = [];
  deleted = [];
  register_err = none;
  delete_err = none;
  get_err = none;
}

unfoldable pub key : NamespacedName → Str
key ns = ns.namespace ++ (bytes "/" ++ ns.name)

abbrev pub named : TrafficRoute → NamespacedName
named tr = record { namespace = tr.namespace; name = tr.name }

unfoldable pub register_route : TrafficRoute → Fake → Fallible RouteConfig × Fake
register_route tr f = elim f.register_err [
  | some e ↦ (err e, f)
  | none ↦
      let spec = build_route_spec tr in
      let k = key (named tr) in
      let generation = wrap64 (or_else (lookup k f.generations) (pos 0) +ℤ pos 1) in
      let cfg = pass_through_config spec generation in
      (
        ok cfg,
        record f {
          registrations = f.registrations ++ spec ∷ [];
          generations = insert k generation f.generations;
          configs = insert k cfg f.configs;
        },
      )
]

unfoldable pub delete_route : NamespacedName → Fake → Option Str × Fake
delete_route ref f = elim f.delete_err [
  | some e ↦ (some e, f)
  | none ↦ (none, record f { deleted = f.deleted ++ ref ∷ []; configs = erase (key ref) f.configs })
]

-- A missing configuration is nil.
unfoldable pub get_route_config : NamespacedName → Fake → Fallible (Option RouteConfig)
get_route_config ref f = elim f.get_err [ some e ↦ err e | none ↦ ok (lookup (key ref) f.configs) ]

unfoldable pub register_count : Fake → ℕ
register_count f = length f.registrations
