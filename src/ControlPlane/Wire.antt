-- ===== src/ControlPlane/Wire.antt =====
-- The messages of controller/internal/grpcapi/kubetrafficv1/route.pb.go, by their fields.
use kubetraffic.Prelude.{Str, List, Option, Bool}
use kubetraffic.Prelude.Int.{ℤ}

pub record RouteRef : Type 0 where
  pub namespace : Str
  pub name : Str

pub record RouteVersionSpec : Type 0 where
  pub name : Str
  pub weight : ℤ

-- `RetryPolicy`
pub record WireRetry : Type 0 where
  pub attempts : ℤ
  pub per_try_timeout_ms : ℤ
  pub retry_on : List Str

-- `CircuitBreakerPolicy`
pub record WireBreaker : Type 0 where
  pub enabled : Bool
  pub failure_threshold : ℤ
  pub recovery_timeout_ms : ℤ
  pub half_open_requests : ℤ

-- `ResiliencePolicy`
pub record WireResilience : Type 0 where
  pub timeout_ms : ℤ
  pub retries : Option WireRetry
  pub circuit_breaker : Option WireBreaker

pub record RulePolicy : Type 0 where
  pub path : Str
  pub backend_service : Str
  pub backend_port : ℤ
  pub strategy : Str
  pub resilience : Option WireResilience
  pub versions : List RouteVersionSpec

pub record RouteSpec : Type 0 where
  pub ref : RouteRef
  pub host : Str
  pub generation : ℤ
  pub rules : List RulePolicy

-- `VersionWeight`
pub record WeightEntry : Type 0 where
  pub version : Str
  pub weight : ℤ

pub record RuleWeights : Type 0 where
  pub path : Str
  pub weights : List WeightEntry

pub record RouteConfig : Type 0 where
  pub ref : RouteRef
  pub generation : ℤ
  pub rules : List RuleWeights

pub record Decision : Type 0 where
  pub ref : RouteRef
  pub path : Str
  pub version : Str
  pub old_weight : ℤ
  pub new_weight : ℤ
  pub reason : Str
