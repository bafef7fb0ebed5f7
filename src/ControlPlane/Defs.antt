-- ===== src/ControlPlane/Defs.antt =====
-- controller/internal/controlplane/client.go: what the controller sends to the control plane, and
-- the configuration that a control plane without a decision engine sends back.
use kubetraffic.Prelude.{Str, bytes, is_nil, Option, none, some, map, if◌then◌else◌}
use kubetraffic.Prelude.Int.{ℤ, div_trunc, wrap32}
use kubetraffic.Api
use kubetraffic.Api.{TrafficRoute, RouteRule, BackendVersion}
use kubetraffic.ControlPlane.Wire.{
  RouteVersionSpec, WireRetry, WireBreaker, WireResilience, RulePolicy, RouteSpec, WeightEntry,
  RuleWeights, RouteConfig,
}

-- `int32(d.Milliseconds())`
abbrev pub milliseconds32 : ℤ → ℤ
milliseconds32 d = wrap32 (div_trunc d 1000000)

wire_retry : Api.RetryPolicy → WireRetry
wire_retry r = record {
  attempts = r.attempts;
  per_try_timeout_ms = milliseconds32 r.per_try_timeout;
  retry_on = r.retry_on;
}

wire_breaker : Api.CircuitBreakerPolicy → WireBreaker
wire_breaker b = record {
  enabled = b.enabled;
  failure_threshold = b.failure_threshold;
  recovery_timeout_ms = milliseconds32 b.recovery_timeout;
  half_open_requests = b.half_open_requests;
}

abbrev pub option_map {ℓ κ} : {A : Type ℓ} {B : Type κ} → (A → B) → Option A → Option B
option_map f none = none
option_map f (some a) = some (f a)

unfoldable pub build_resilience_policy : Option Api.ResiliencePolicy → Option WireResilience
unfolding wire_retry wire_breaker
build_resilience_policy none = none
build_resilience_policy (some r) = some (record {
  timeout_ms = milliseconds32 r.timeout;
  retries = option_map wire_retry r.retries;
  circuit_breaker = option_map wire_breaker r.circuit_breaker;
})

unfoldable pub wire_version : BackendVersion → RouteVersionSpec
wire_version v = record { name = v.name; weight = v.weight }

abbrev pub wire_path : Str → Str
wire_path path = if is_nil path then bytes "/" else path

unfoldable pub wire_rule : RouteRule → RulePolicy
unfolding wire_version build_resilience_policy
wire_rule rule = record {
  path = wire_path rule.path;
  backend_service = rule.backend.service;
  backend_port = rule.backend.port;
  strategy = rule.strategy.kind;
  resilience = build_resilience_policy rule.resilience;
  versions = map wire_version rule.versions;
}

unfoldable pub build_route_spec : TrafficRoute → RouteSpec
unfolding wire_rule
build_route_spec tr = record {
  ref = record { namespace = tr.namespace; name = tr.name };
  host = tr.spec.host;
  generation = tr.generation;
  rules = map wire_rule tr.spec.routes;
}

unfoldable pub copy_weight : RouteVersionSpec → WeightEntry
copy_weight v = record { version = v.name; weight = v.weight }

unfoldable pub copy_rule : RulePolicy → RuleWeights
unfolding copy_weight
copy_rule rule = record { path = rule.path; weights = map copy_weight rule.versions }

unfoldable pub pass_through_config : RouteSpec → ℤ → RouteConfig
unfolding copy_rule
pass_through_config spec generation = record {
  ref = spec.ref;
  generation = generation;
  rules = map copy_rule spec.rules;
}
