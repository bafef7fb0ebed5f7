-- ===== src/Proxy/Contract.antt =====
-- `Config` and `Proxy` of controller/internal/proxy/proxy.go.
use kubetraffic.Prelude.{Str, Option}
use kubetraffic.Model.{RoutingModel}
use kubetraffic.Discovery.Reads.{Fallible}

pub record Config : Type 0 where
  pub raw : Str

-- The data-plane contract: an action on a state `S` of the data plane, or an error text.
pub record Proxy (S : Type 0) : Type 0 where
  pub generate_config : RoutingModel → Fallible Config
  pub validate_config : Config → S → Option Str × S
  pub apply_config : Config → S → Option Str × S
