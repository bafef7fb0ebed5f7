-- ===== src/Tests/Dispatched.antt =====
-- Where the text of a small model sends requests.
use kubetraffic.Prelude.{Str, bytes, str_eq, has_prefix, ◌≡◌, refl, none, [], ◌∷◌}
use kubetraffic.Prelude.Int.{pos}
use kubetraffic.Model.{RoutingModel, Rule, Server}
use kubetraffic.Proxy.Reading.Parts.{view_model}
use kubetraffic.Proxy.Reading.Dispatch.{host_of, parts_from, before_colon, dispatch}

abbrev server : Server
server = record {
  name = bytes "v1-0";
  address = bytes "10.0.0.1";
  port = pos 8080;
  weight = 90;
  version = bytes "v1";
}

abbrev rule : Rule
rule = record {
  path = bytes "/payment";
  backend_name = bytes "kt_1";
  servers = server ∷ [];
  resilience = none;
}

abbrev model_at : Str → RoutingModel
model_at host = record { host = host; rules = rule ∷ [] }

abbrev small : RoutingModel
small = model_at (bytes "pay.local")

abbrev shouted : RoutingModel
shouted = model_at (bytes "Pay.local")

sent_on : dispatch (view_model small) (bytes "Pay.Local:8080") (bytes "/payment/1") ≡ bytes "kt_1"
unfolding host_of parts_from before_colon str_eq has_prefix
sent_on = refl
