-- ===== src/Model.antt =====
-- controller/internal/model/model.go: the routing model, between the resolved rules and the proxy.
mod Records
mod Apportion
mod Naming
mod Timeouts
pub mod Shares
pub mod Servers
pub mod Intended
pub mod Retries
pub mod ServerNames
pub use Records.*
unfoldable pub use Apportion.*
unfoldable pub use Naming.*
unfoldable pub use Timeouts.*
use kubetraffic.Prelude.{
  ℕ, zero, suc, ◌≡◌, Str, bytes, str_eq, str_ltb, is_nil, decimal, Dict, lookup, or_else, List, [],
  ◌∷◌, ◌++◌, map, length, is_empty, sort, if◌then◌else◌, Bool,
}
use kubetraffic.Prelude.Int.{ℤ, pos, eqb_ℤ}
use kubetraffic.Api.{RouteRule, BackendVersion}
use kubetraffic.Discovery.{EndpointSet, Resolution, no_resolution}

-- The loop of `specWeight`: the weight of the first version of that name, else 0.
unfoldable pub declared_weight : Str → List BackendVersion → ℤ
declared_weight version [] = pos 0
declared_weight version (v ∷ rest) =
    if str_eq v.name version then v.weight else declared_weight version rest

unfoldable pub spec_weight : RouteRule → Str → ℤ
unfolding declared_weight
spec_weight r version = if is_empty r.versions then pos 100 else declared_weight version r.versions

-- The inner loop of `Build`. `weights[j]` out of range would panic: the first clause for that
-- case is never reached, since `apportion` gives one weight to each address.
unfoldable pub servers_from : ℤ → Str → ℕ → List ℕ → List Str → List Server
servers_from port version j weights [] = []
servers_from port version j [] (a ∷ rest) = []
servers_from port version j (w ∷ weights) (a ∷ rest) =
    record { name = server_name version j; address = a; port = port; weight = w; version = version }
    ∷ servers_from port version (suc j) weights rest

unfoldable pub version_servers : RouteRule → ℤ → EndpointSet → List Server
version_servers rule port es =
    servers_from port es.version 0 (apportion (spec_weight rule es.version) (length es.addresses))
      es.addresses

unfoldable pub all_servers : RouteRule → ℤ → List EndpointSet → List Server
all_servers rule port [] = []
all_servers rule port (es ∷ rest) = version_servers rule port es ++ all_servers rule port rest

abbrev pub by_name : Server → Server → Bool
by_name a b = str_ltb a.name b.name

abbrev pub rule_path : Str → Str
rule_path path = if is_nil path then bytes "/" else path

abbrev pub dial_port : Resolution → RouteRule → ℤ
dial_port res rule =
    if eqb_ℤ res.endpoint_port (pos 0) then rule.backend.port else res.endpoint_port

unfoldable pub build_rule : Str → Dict Resolution → RouteRule → Rule
build_rule host resolutions rule =
    let path = rule_path rule.path in
    let res = or_else (lookup path resolutions) no_resolution in
    record {
      path = path;
      backend_name = backend_name host path;
      servers = sort by_name (all_servers rule (dial_port res rule) res.versions);
      resilience = build_resilience rule.resilience;
    }

unfoldable pub build : Str → List RouteRule → Dict Resolution → RoutingModel
unfolding build_rule
build host routes resolutions = record {
  host = host;
  rules = map (build_rule host resolutions) routes;
}
