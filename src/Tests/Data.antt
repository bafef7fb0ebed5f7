-- ===== src/Tests/Data.antt =====
-- A route with two versions, a world around it, and what they satisfy.
use kubetraffic.Prelude.{
  ℕ, Str, bytes, contains, Option, none, some, List, [], ◌∷◌, ◌++◌, Bool, true, false, ◌≡◌, ◌≢◌,
  refl, is_blank, has_prefix, arith, str_eq, str_eq_iff,
}
use kubetraffic.Prelude.Int.{pos}
use kubetraffic.Api.{
  TrafficRoute, TrafficRouteStatus, RouteRule, BackendVersion, none_yet, strategy_weighted,
  NamespacedName,
}
use kubetraffic.Webhook.{validate_traffic_route}
use kubetraffic.Webhook.Routes.{IsWellFormed, IsRule, validate_traffic_route_iff}
use kubetraffic.Webhook.Policies.{weighted}
use kubetraffic.Discovery.Reads.{Cluster, found, not_found, ok, Service, Fallible}
use kubetraffic.ControlPlane.Wire.{RouteConfig}
use kubetraffic.Controller.{Libraries, Env, Rpc, written, traffic_route_finalizer}

abbrev pub version : Str → ℕ → BackendVersion
version name weight = record { name = name; weight = pos weight; labels = [] }

abbrev pub v1 : Str
v1 = bytes "v1"

abbrev pub v2 : Str
v2 = bytes "v2"

abbrev pub payment_rule : RouteRule
payment_rule = record {
  path = bytes "/payment";
  backend = record { service = bytes "payment"; port = pos 8080 };
  versions = version v1 90 ∷ version v2 10 ∷ [];
  strategy = record { kind = strategy_weighted; canary = none; blue_green = none };
  resilience = none;
  security = none;
  health = none;
}

abbrev pub no_status : TrafficRouteStatus
no_status = record {
  phase = none_yet;
  observed_generation = pos 0;
  routes = [];
  last_decision = none;
  conditions = [];
}

abbrev pub route : Bool → Str → List RouteRule → TrafficRoute
route deleting host rules = record {
  name = bytes "payment-route";
  namespace = bytes "demo";
  generation = pos 1;
  finalizers = traffic_route_finalizer ∷ [];
  deleting = deleting;
  spec = record { host = host; version_label = []; routes = rules };
  status = no_status;
}

abbrev pub payment : TrafficRoute
payment = route false (bytes "api.example.com") (payment_rule ∷ [])

abbrev pub nameless : TrafficRoute
nameless = route false [] []

abbrev pub leaving : TrafficRoute
leaving = route true (bytes "api.example.com") (payment_rule ∷ [])

abbrev pub request : NamespacedName
request = record { namespace = bytes "demo"; name = bytes "payment-route" }

v1-ne-v2 : v1 ≢ v2
unfolding str_eq
v1-ne-v2 e = cc ((str_eq_iff v1 v2).1 e)

payment_rule-IsRule : IsRule payment_rule
unfolding has_prefix is_blank
payment_rule-IsRule = record {
  rooted = refl;
  named = refl;
  port_low = omega arith;
  port_high = omega arith;
  versions = (
    (λ e. cc, (λ e. cc, tt)),
    ((v1-ne-v2, tt), (tt, tt)),
    ((omega arith, omega arith), ((omega arith, omega arith), tt)),
    refl,
  );
  strategy = weighted refl;
  resilience = tt;
  security = tt;
}

pub payment-IsWellFormed : IsWellFormed payment
unfolding is_blank
payment-IsWellFormed = record {
  has_host = refl;
  has_routes = λ e. cc;
  distinct_paths = (tt, tt);
  rules = (payment_rule-IsRule, tt);
}

pub payment-valid : validate_traffic_route payment ≡ []
payment-valid = (validate_traffic_route_iff payment (omega arith)).1 payment-IsWellFormed

abbrev pub libraries : Libraries
libraries = record {
  aggregate = λ e. [];
  quote = λ s. s;
  route_key = λ n. n.namespace ++ (bytes "/" ++ n.name);
  contains_finalizer = λ l f. contains f l;
  add_finalizer = λ l f. l ++ f ∷ [];
  remove_finalizer = λ l f. [];
  set_condition = λ cs c. cs ++ c ∷ [];
  status_equal = λ a b. false;
  config_sum = λ s. s;
}

-- A cluster with no Service, or with one that has no slice.
abbrev pub empty_cluster : Cluster
empty_cluster = record {
  get_service = λ ns n. not_found;
  list_endpoint_slices = λ ns n. ok [];
  get_pod = λ ns n. not_found;
}

abbrev pub payment_service : Service
payment_service = record {
  ports = record { name = bytes "http"; port = pos 8080; target_port = bytes "8080" } ∷ [];
}

abbrev pub idle_cluster : Cluster
idle_cluster = record empty_cluster { get_service = λ ns n. found payment_service }

abbrev pub config : RouteConfig
config = record {
  ref = record { namespace = bytes "demo"; name = bytes "payment-route" };
  generation = pos 7;
  rules = [];
}

abbrev pub answering : Fallible RouteConfig → Option Str → Rpc
answering registered deleted = record {
  register_route = λ s. registered;
  delete_route = λ r. deleted;
}

abbrev pub world : TrafficRoute → Rpc → Env
world tr rpc = record {
  libraries = libraries;
  cluster = empty_cluster;
  get_route = λ req. found tr;
  update_route = λ t. none;
  update_status = λ s. written;
  control_plane = some rpc;
  proxy = none;
  resync_interval = pos 0;
  control_plane_retry_interval = pos 0;
}
