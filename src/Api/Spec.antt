-- ===== src/Api/Spec.antt =====
-- controller/api/v1alpha1/trafficroute_types.go: the desired state, its records field by field.
use kubetraffic.Prelude.{Str, bytes, Dict, List, Option, Bool}
use kubetraffic.Prelude.Int.{ℤ}

pub record BackendRef : Type 0 where
  pub service : Str
  pub port : ℤ

pub record BackendVersion : Type 0 where
  pub name : Str
  pub weight : ℤ
  pub labels : Dict Str

abbrev pub strategy_weighted : Str
strategy_weighted = bytes "WEIGHTED"

abbrev pub strategy_canary : Str
strategy_canary = bytes "CANARY"

abbrev pub strategy_blue_green : Str
strategy_blue_green = bytes "BLUE_GREEN"

pub record CanaryStrategy : Type 0 where
  pub steps : List ℤ
  pub step_interval : ℤ
  pub max_weight : Option ℤ

pub record BlueGreenStrategy : Type 0 where
  pub auto_promote : Bool
  pub promote_after : ℤ

pub record RoutingStrategy : Type 0 where
  pub kind : Str
  pub canary : Option CanaryStrategy
  pub blue_green : Option BlueGreenStrategy

pub record RetryPolicy : Type 0 where
  pub attempts : ℤ
  pub per_try_timeout : ℤ
  pub retry_on : List Str

pub record CircuitBreakerPolicy : Type 0 where
  pub enabled : Bool
  pub failure_threshold : ℤ
  pub recovery_timeout : ℤ
  pub half_open_requests : ℤ

pub record ResiliencePolicy : Type 0 where
  pub timeout : ℤ
  pub retries : Option RetryPolicy
  pub circuit_breaker : Option CircuitBreakerPolicy

pub record RateLimitPolicy : Type 0 where
  pub requests_per_second : ℤ
  pub burst : ℤ
  pub algorithm : Str

pub record SecretKeyRef : Type 0 where
  pub name : Str
  pub key : Str

pub record JwtPolicy : Type 0 where
  pub issuer : Str
  pub audiences : List Str
  pub jwks_secret_ref : Option SecretKeyRef
  pub forward_token : Option Bool

pub record SecurityPolicy : Type 0 where
  pub rate_limit : Option RateLimitPolicy
  pub jwt : Option JwtPolicy

pub record HealthPolicy : Type 0 where
  pub error_rate_threshold : ℤ
  pub latency_threshold : ℤ
  pub min_requests : ℤ
  pub stabilization_window : ℤ

pub record RouteRule : Type 0 where
  pub path : Str
  pub backend : BackendRef
  pub versions : List BackendVersion
  pub strategy : RoutingStrategy
  pub resilience : Option ResiliencePolicy
  pub security : Option SecurityPolicy
  pub health : Option HealthPolicy

pub record TrafficRouteSpec : Type 0 where
  pub host : Str
  pub version_label : Str
  pub routes : List RouteRule
