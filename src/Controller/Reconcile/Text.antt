-- ===== src/Controller/Reconcile/Text.antt =====
-- From a route to the text that HAProxy reads: what a pass over a resolved route applies, read back.
use kubetraffic.Prelude.{All}
use kubetraffic.Api.{TrafficRoute, RouteRule, BackendVersion}
use kubetraffic.Discovery.Reads.{Endpoint}
use kubetraffic.Proxy.Reading.Words.{IsInWord, IsWord}
use kubetraffic.Controller.Helpers.{route_path}

-- An endpoint whose addresses are single words.
abbrev pub HasWords : Endpoint → Type 0
HasWords ep = All IsWord ep.addresses

-- A rule whose path is a single word, with version names that hold no blank and no line break.
pub record HasPlainNames (r : RouteRule) : Type 0 where
  pub path : IsWord (route_path r)
  pub versions : All (λ (v : BackendVersion). All IsInWord v.name) r.versions

pub record IsPlainSpec (tr : TrafficRoute) : Type 0 where
  pub host : IsWord tr.spec.host
  pub routes : All HasPlainNames tr.spec.routes
