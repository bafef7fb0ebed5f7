-- ===== src/Tests/Routing.antt =====
-- Discovery, apportionment and the control plane's messages at small inputs.
use mathlib.Core.List.{Perm}
use kubetraffic.Prelude.{
  ◌⊎◌, none, All, ℕ, ◌/◌, contains, ◌+◌, ◌≤◌, ◌*◌, Str, bytes, Dict, [], ◌∷◌, ◌≡◌, arith, some,
  refl, lookup, str_eq, sum,
}
use Prim.Native.Nat.{min, max}
use kubetraffic.Prelude.Int.{pos}
use kubetraffic.Api.{ResiliencePolicy}
use kubetraffic.Discovery.{
  EndpointSet, Resolution, no_resolution, resolve, VersionBucket, empty_set, first_match,
}
use kubetraffic.Discovery.Selectors.{IsWanted, IsFirstWanted, first_match_lem}
use kubetraffic.Discovery.Order.{set_versions, reported, resolve_versions}
use kubetraffic.Discovery.Reads.{ok}
use kubetraffic.Model.{
  apportion, all_servers, build_rule, rule_path, dial_port, build_resilience, Resilience,
  spec_weight, clamp_weight, retry_tokens,
}
use kubetraffic.Model.Shares.{sum-apportion, apportion_bounds, apportion_even}
use kubetraffic.Model.Servers.{addresses, all_addresses, build_rule_servers}
use kubetraffic.Tests.Data.{payment_rule, v1, v2, idle_cluster, payment_service}

sum-apportion_example : sum (apportion (pos 100) 3) ≡ min (max 100 3) (3 * 256)
sum-apportion_example = sum-apportion 100 3 (omega arith) (omega arith)

apportion_bounds_example : All (λ s. (1 ≤ s) × (s ≤ 256)) (apportion (pos 2) 5)
apportion_bounds_example = apportion_bounds 2 5 (omega arith)

apportion_even_example :
    All
      (λ s. (clamp_weight (100 / 3) ≤ s) × (s ≤ clamp_weight (100 / 3) + 1))
      (apportion (pos 100) 3)
apportion_even_example = apportion_even 100 3 (omega arith) (omega arith)

thirds : apportion (pos 100) 3 ≡ 34 ∷ 33 ∷ 33 ∷ []
unfolding apportion
thirds = refl

abbrev two_pods : EndpointSet
two_pods = record {
  version = v1;
  ready = pos 2;
  not_ready = pos 0;
  addresses = bytes "10.0.0.1" ∷ bytes "10.0.0.2" ∷ [];
}

weight-v1 : spec_weight payment_rule v1 ≡ pos 90
unfolding spec_weight str_eq
weight-v1 = refl

abbrev resolved : Resolution
resolved = record no_resolution { versions = two_pods ∷ [] }

abbrev resolutions : Dict Resolution
resolutions = (bytes "/payment", resolved) ∷ []

found-payment : lookup (rule_path payment_rule.path) resolutions ≡ some resolved
unfolding lookup str_eq
found-payment = refl

build_rule_servers_example :
    Perm
      (build_rule (bytes "h") resolutions payment_rule).servers
      (all_servers payment_rule (dial_port resolved payment_rule) resolved.versions)
    × (addresses (all_servers payment_rule (dial_port resolved payment_rule) resolved.versions)
        ≡ all_addresses resolved.versions)
build_rule_servers_example =
    build_rule_servers (bytes "h") resolutions payment_rule resolved found-payment

resolve_versions_example :
    (res : Resolution) × (resolve idle_cluster (bytes "demo") payment_rule (bytes "version")
      ≡ ok res)
    × (set_versions res.versions ≡ reported payment_rule)
resolve_versions_example =
    resolve_versions idle_cluster (bytes "demo") payment_rule (bytes "version") payment_service []
      refl refl

abbrev labels : Dict Str
labels = (bytes "track", v2) ∷ []

abbrev bucket : Str → VersionBucket
bucket v = record { set = empty_set v; selector = (bytes "track", v) ∷ [] }

second-matches : first_match labels 0 (bucket v1 ∷ bucket v2 ∷ []) ≡ some 1
unfolding first_match lookup str_eq
second-matches = refl

first_match_lem_example :
    let bs = bucket v1 ∷ bucket v2 ∷ [] in
    ((first_match labels 0 bs ≡ none) × All (λ b. IsWanted labels b → ⊥) bs)
    ⊎ ((i : ℕ) × (first_match labels 0 bs ≡ some i) × IsFirstWanted labels i bs)
first_match_lem_example = first_match_lem labels (bucket v1 ∷ bucket v2 ∷ [])

abbrev policy : ResiliencePolicy
policy = record {
  timeout = pos 2000000000;
  retries = some (record {
    attempts = pos 2;
    per_try_timeout = pos 0;
    retry_on = bytes "reset" ∷ bytes "reset" ∷ bytes "5xx" ∷ [];
  });
  circuit_breaker = none;
}

abbrev policy_model : Resilience
policy_model = record {
  timeout_ms = pos 2000;
  connect_timeout_ms = pos 2000;
  retries = pos 2;
  retry_on = bytes "empty-response conn-failure" ∷ bytes "500 501 502 503 504" ∷ [];
}

policy_translation : build_resilience (some policy) ≡ some policy_model
unfolding build_resilience retry_tokens str_eq contains
policy_translation = refl
