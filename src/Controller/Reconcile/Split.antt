-- ===== src/Controller/Reconcile/Split.antt =====
-- From a route to the data plane: what a pass over a resolved route programs carries its split.
use mathlib.Core.Path.{subst}
use mathlib.Core.List.{Perm}
use kubetraffic.Prelude.{
  ◌≡◌, ◌≢◌, sym, ap, ◌∙◌, inl, inr, List, [], ◌∷◌, map, All, Distinct, lookup, some, is_nil, bytes,
  if◌then◌else◌, is_empty, false,
}
use kubetraffic.Prelude.Int.{pos}
use kubetraffic.Api.{TrafficRoute, NamespacedName, RouteRule}
use kubetraffic.Webhook.Routes.{IsWellFormed, IsRule, AllShort, validate_traffic_route_iff}
use kubetraffic.Discovery.{EndpointSet, Resolution, resolve}
use kubetraffic.Discovery.Reads.{ok}
use kubetraffic.Discovery.Order.{set_versions, reported}
use kubetraffic.Discovery.Addresses.{ListsAddresses, IsReachable, resolve-IsReachable}
use kubetraffic.Discovery.Sets.{resolve-reported}
use kubetraffic.Model.{Server, Rule, build, build_rule, all_servers, dial_port}
use kubetraffic.Model.Servers.{build_rule_servers}
use kubetraffic.Model.ServerNames.{
  server_names, prefixes, Distinct-reported, build_rule-Distinct_servers,
}
use kubetraffic.Model.Intended.{AreCarried, all_servers-AreCarried}
use kubetraffic.Proxy.{Config}
use kubetraffic.Controller.World.{Env, Cache, DataPlane}
use kubetraffic.Controller.Helpers.{route_path, version_label_key}
use kubetraffic.Controller.Issues.{Survey, no_survey}
use kubetraffic.Controller.Issues.Recorded.{IsRecorded, survey-IsRecorded, quiet-found, quiet-ready}
use kubetraffic.Controller.Weights.{apply_effective_weights}
use kubetraffic.Controller.Weights.PassThrough.{
  SameButWeights, AllSameButWeights, apply_effective_weights-SameButWeights,
}
use kubetraffic.Controller.Steps.{register_with_control_plane}
use kubetraffic.Controller.Reconcile.Programming.{IsServed}

-- What `built` programs for the rule `r` of a spec with the effective weights of `q`: servers with
-- different names that fall into parts, one for each declared version, with a server of that
-- version at each of its addresses, of which there is one at least, and with its weight.
pub record Carries (env : Env) (tr : TrafficRoute) (r q : RouteRule) (built : Rule) : Type 0 where
  pub res : Resolution
  pub resolved : resolve env.cluster tr.namespace r (version_label_key tr) ≡ ok res
  pub path : built.path ≡ route_path r
  pub versions : set_versions res.versions ≡ reported r
  pub ordered : List Server
  pub servers : Perm built.servers ordered
  pub carried : AreCarried q (dial_port res q) res.versions ordered
  pub distinct : Distinct (server_names built.servers)

abbrev pub AllCarry : Env → TrafficRoute → List RouteRule → List RouteRule → List Rule → Type 0
AllCarry env tr [] [] [] = Unit
AllCarry env tr (r ∷ rs) (q ∷ qs) (b ∷ bs) = Carries env tr r q b × AllCarry env tr rs qs bs
AllCarry _ _ _ _ _ = ⊥

addresses-of_ready :
    (sets : List EndpointSet)
    → All (λ (es : EndpointSet). es.ready ≢ pos 0) sets
    → All IsReachable sets
    → All (λ (es : EndpointSet). is_empty es.addresses ≡ false) sets
addresses-of_ready [] h k = tt
addresses-of_ready (es ∷ rest) (r, h) (inl full, k) = (full, addresses-of_ready rest h k)
addresses-of_ready (es ∷ rest) (r, h) (inr unready, k) = absurd (r unready)

module _ (env : Env) (tr : TrafficRoute) (s : Survey)
    (have : ListsAddresses env.cluster tr.namespace) where
  Carries-of_IsRecorded :
      (r q : RouteRule)
      → IsRecorded env tr s r
      → IsRule r
      → SameButWeights r q
      → Carries env tr r q (build_rule tr.spec.host s.resolutions q)
  Carries-of_IsRecorded r q rec rule (path, backend, same, strategy, resilience, security, health) =
      let (shown, port) = quiet-found env r rec.res rec.quiet in
      let label = version_label_key tr in
      let kept : lookup (route_path q) s.resolutions ≡ some rec.res =
        ap (λ p. lookup (if is_nil p then bytes "/" else p) s.resolutions) path ∙ rec.kept in
      let versions = resolve-reported env.cluster tr.namespace r label rec.res rec.resolved shown in
      record {
        res = rec.res;
        resolved = rec.resolved;
        path = unfold build_rule in ap (λ p. if is_nil p then bytes "/" else p) path;
        versions = versions;
        ordered = all_servers q (dial_port rec.res q) rec.res.versions;
        servers = (build_rule_servers tr.spec.host s.resolutions q rec.res kept).0;
        distinct = build_rule-Distinct_servers tr.spec.host s.resolutions q rec.res kept (
            subst (λ vs. Distinct (prefixes vs)) (sym versions)
              (Distinct-reported r rule.versions));
        carried = all_servers-AreCarried q (dial_port rec.res q) rec.res.versions (
            addresses-of_ready rec.res.versions (quiet-ready env r rec.res rec.quiet) (
              resolve-IsReachable env.cluster tr.namespace r label rec.res rec.resolved shown
                have));
      }

  AllCarry-build :
      (rs qs : List RouteRule)
      → All (IsRecorded env tr s) rs
      → All IsRule rs
      → AllSameButWeights rs qs
      → AllCarry env tr rs qs (map (build_rule tr.spec.host s.resolutions) qs)
  AllCarry-build [] [] h k m = tt
  AllCarry-build [] (q ∷ qs) h k m = m
  AllCarry-build (r ∷ rs) [] h k m = m
  AllCarry-build (r ∷ rs) (q ∷ qs) h k m =
      (Carries-of_IsRecorded r q h.0 k.0 m.0, AllCarry-build rs qs h.1 k.1 m.1)

-- The model that is made of a valid, resolved route carries its split.
pub AllCarry-of_IsServed :
    (env : Env) (req : NamespacedName) (cache : Cache) (tr : TrafficRoute) (s : Survey)
    (plane : DataPlane) (cfg : Config)
    → IsServed env req cache tr s plane cfg
    → AllShort tr.spec.routes
    → ListsAddresses env.cluster tr.namespace
    → let routes =
        apply_effective_weights tr.spec.routes (register_with_control_plane env tr cache).config in
      AllCarry env tr tr.spec.routes routes (build tr.spec.host routes s.resolutions).rules
unfolding build
AllCarry-of_IsServed env req cache tr s plane cfg v short have =
    let well : IsWellFormed tr = (validate_traffic_route_iff tr short).0 v.valid in
    let config = (register_with_control_plane env tr cache).config in
    let recorded =
      survey-IsRecorded env tr s tr.spec.routes no_survey v.surveyed well.distinct_paths
        v.resolved in
    AllCarry-build env tr s have tr.spec.routes (apply_effective_weights tr.spec.routes config)
      recorded well.rules (apply_effective_weights-SameButWeights tr.spec.routes config)
