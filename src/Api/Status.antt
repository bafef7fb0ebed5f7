-- ===== src/Api/Status.antt =====
-- controller/api/v1alpha1/trafficroute_types.go: the observed state, its records field by field.
use kubetraffic.Prelude.{Str, List, Option, Bool}
use kubetraffic.Prelude.Int.{ℤ}

-- `TrafficRoutePhase`; `none_yet` is the empty string of a route that was never reconciled.
pub data TrafficRoutePhase : Type 0 where
  none_yet pending ready degraded rolling_back invalid : TrafficRoutePhase

pub record VersionEndpoints : Type 0 where
  pub version : Str
  pub ready : ℤ
  pub total : ℤ
  pub addresses : List Str

pub record VersionWeight : Type 0 where
  pub version : Str
  pub weight : ℤ

pub record VersionHealth : Type 0 where
  pub version : Str
  pub status : Str
  pub error_rate : Str
  pub p95_latency : Str
  pub circuit_state : Str

pub record RouteStatus : Type 0 where
  pub path : Str
  pub backend : Str
  pub resolved_endpoints : List VersionEndpoints
  pub current_weights : List VersionWeight
  pub backend_health : List VersionHealth

-- The time of a decision is an instant, in nanoseconds.
pub record DecisionRef : Type 0 where
  pub id : Str
  pub version : Str
  pub old_weight : ℤ
  pub new_weight : ℤ
  pub reason : Str
  pub time : ℤ

-- `metav1.Condition` as the controller fills it in: `status` is True or False.
pub record Condition : Type 0 where
  pub kind : Str
  pub status : Bool
  pub reason : Str
  pub message : Str
  pub observed_generation : ℤ

pub record TrafficRouteStatus : Type 0 where
  pub phase : TrafficRoutePhase
  pub observed_generation : ℤ
  pub routes : List RouteStatus
  pub last_decision : Option DecisionRef
  pub conditions : List Condition
