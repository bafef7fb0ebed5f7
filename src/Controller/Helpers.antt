-- ===== src/Controller/Helpers.antt =====
-- The constants and small helpers of trafficroute_controller.go.
use kubetraffic.Prelude.{
  ℕ, Str, bytes, str_eq, is_nil, List, [], ◌∷◌, length, take, leb, is_empty, Bool, if◌then◌else◌,
  lookup, insert, erase, Option,
}
use kubetraffic.Prelude.Int.{ℤ, pos, ltb_ℤ}
use kubetraffic.Api.{TrafficRoute, RouteRule, BackendVersion, Condition, NamespacedName}
use kubetraffic.Controller.World.{Env, Cache}
use kubetraffic.ControlPlane.Wire.{RouteConfig}

abbrev pub condition_accepted : Str
condition_accepted = bytes "Accepted"

abbrev pub condition_resolved : Str
condition_resolved = bytes "Resolved"

abbrev pub condition_programmed : Str
condition_programmed = bytes "Programmed"

abbrev pub condition_control_plane : Str
condition_control_plane = bytes "ControlPlaneRegistered"

abbrev pub default_version_label : Str
default_version_label = bytes "app.kubernetes.io/version"

abbrev pub max_condition_message : ℕ
max_condition_message = 512

abbrev pub traffic_route_finalizer : Str
traffic_route_finalizer = bytes "traffic.kubetraffic.io/finalizer"

-- Ten minutes, and fifteen seconds, in nanoseconds.
abbrev pub default_resync_interval : ℤ
default_resync_interval = pos 600000000000

abbrev pub default_control_plane_retry_interval : ℤ
default_control_plane_retry_interval = pos 15000000000

abbrev pub version_label_key : TrafficRoute → Str
version_label_key tr =
    if is_nil tr.spec.version_label then default_version_label else tr.spec.version_label

abbrev pub route_path : RouteRule → Str
route_path r = if is_nil r.path then bytes "/" else r.path

-- The controller's own `specWeight`.
unfoldable pub first_weight : Str → List BackendVersion → ℤ
first_weight version [] = pos 0
first_weight version (v ∷ rest) =
    if str_eq v.name version then v.weight else first_weight version rest

unfoldable pub spec_weight : RouteRule → Str → ℤ
unfolding first_weight
spec_weight r version = if is_empty r.versions then pos 100 else first_weight version r.versions

abbrev pub version_or_all : Str → Str
version_or_all v = if is_nil v then bytes "<all>" else v

-- `s[:n]` counts bytes.
unfoldable pub truncate : Str → ℕ → Str
truncate s n = if leb (length s) n then s else take n s

unfoldable pub resync : Env → ℤ
resync env =
    if ltb_ℤ (pos 0) env.resync_interval then env.resync_interval else default_resync_interval

unfoldable pub control_plane_retry : Env → ℤ
control_plane_retry env =
    if ltb_ℤ (pos 0) env.control_plane_retry_interval
    then env.control_plane_retry_interval
    else default_control_plane_retry_interval

abbrev pub named : TrafficRoute → NamespacedName
named tr = record { namespace = tr.namespace; name = tr.name }

-- The last-known-good configurations.
abbrev pub cached_config : Env → NamespacedName → Cache → Option RouteConfig
cached_config env nn cache = lookup (env.route_key nn) cache

abbrev pub set_cached_config : Env → NamespacedName → RouteConfig → Cache → Cache
set_cached_config env nn cfg cache = insert (env.route_key nn) cfg cache

abbrev pub clear_cached_config : Env → NamespacedName → Cache → Cache
clear_cached_config env nn cache = erase (env.route_key nn) cache

-- `metav1.Condition{…}` before `applyStatus` sets its generation.
abbrev pub condition : Str → Bool → Str → Str → Condition
condition kind status reason message = record {
  kind = kind;
  status = status;
  reason = reason;
  message = message;
  observed_generation = pos 0;
}
