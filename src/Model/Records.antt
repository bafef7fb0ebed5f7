-- ===== src/Model/Records.antt =====
-- The records of controller/internal/model/model.go.
use kubetraffic.Prelude.{Str, ℕ, List, Option}
use kubetraffic.Prelude.Int.{ℤ}

pub record Resilience : Type 0 where
  pub timeout_ms : ℤ
  pub connect_timeout_ms : ℤ
  pub retries : ℤ
  pub retry_on : List Str

-- The weights that `apportion` computes are not negative.
pub record Server : Type 0 where
  pub name : Str
  pub address : Str
  pub port : ℤ
  pub weight : ℕ
  pub version : Str

pub record Rule : Type 0 where
  pub path : Str
  pub backend_name : Str
  pub servers : List Server
  pub resilience : Option Resilience

pub record RoutingModel : Type 0 where
  pub host : Str
  pub rules : List Rule
