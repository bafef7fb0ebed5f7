-- ===== src/Manager.antt =====
-- controller/cmd/manager/main.go: from the flags to a running manager, or an exit. The manager and
-- the file system are parameters; log lines other than those before an exit are left out.
pub mod Wiring
use kubetraffic.Prelude.{
  ℕ, zero, suc, ◌+◌, ◌-◌, ◌*◌, ◌/◌, ◌%◌, ◌≤◌, ◌<◌, String, ◌≡◌, refl, sym, ap, ◌∙◌, ◌≢◌, ◌↔◌, ◌⊎◌,
  inl, inr, Bool, true, false, not, ◌&&◌, ◌||◌, Option, none, some, List, [], ◌∷◌, ◌++◌, map, arith,
  if◌then◌else◌, ltb, leb, ◌==◌, Bool-cases, Option-cases, is_some, or_else, Str, bytes, str_eq,
  is_nil, length, is_empty, sum, All, Dict, lookup, insert, erase, contains, trim_space,
}
use kubetraffic.Prelude.Int.{
  ℤ, pos, negsuc, ◌+ℤ◌, ◌≤ℤ◌, ltb_ℤ, leb_ℤ, eqb_ℤ, wrap32, wrap64, pos_part, neg_part, int32_half,
  int64_half,
}
use kubetraffic.Discovery.Reads.{Fallible, ok, err}
use kubetraffic.Proxy.Options.{HaProxyOptions, HaProxyClient, new_haproxy}
use kubetraffic.ControlPlane.Client.{GrpcClient, Stubs, dial}

pub record Flags : Type 0 where
  pub metrics_addr : Str
  pub probe_addr : Str
  pub enable_leader_election : Bool
  pub leader_election_id : Str
  pub resync_interval : ℤ
  pub cache_sync_period : ℤ
  pub dataplane_url : Str
  pub dataplane_username : Str
  pub dataplane_password_file : Str
  pub control_plane_url : Str
  pub control_plane_timeout : ℤ

-- The defaults of the flags; durations are nanoseconds.
abbrev pub default_flags : Flags
default_flags = record {
  metrics_addr = bytes ":8080";
  probe_addr = bytes ":8081";
  enable_leader_election = false;
  leader_election_id = bytes "kubetraffic-controller";
  resync_interval = pos 600000000000;
  cache_sync_period = pos 1800000000000;
  dataplane_url = [];
  dataplane_username = bytes "admin";
  dataplane_password_file = [];
  control_plane_url = [];
  control_plane_timeout = pos 5000000000;
}

-- `ctrl.Options`, but for the scheme.
pub record ManagerOptions : Type 0 where
  pub metrics_bind_address : Str
  pub secure_serving : Bool
  pub health_probe_bind_address : Str
  pub leader_election : Bool
  pub leader_election_id : Str
  pub release_on_cancel : Bool
  pub sync_period : ℤ

-- The fields of `TrafficRouteReconciler` that main sets; `decision_events` says that the channel
-- is there.
pub record ReconcilerOptions : Type 0 where
  pub resync_interval : ℤ
  pub proxy : Option HaProxyClient
  pub control_plane : Option GrpcClient
  pub decision_events : Bool

-- What main asks of the outside; an error, or none where it succeeds.
pub record Host : Type 0 where
  pub stubs : Stubs
  pub read_file : Str → Fallible Str
  pub new_manager : ManagerOptions → Option Str
  pub set_up : ReconcilerOptions → Option Str
  pub add_watcher : GrpcClient → Option Str
  pub add_healthz_check : Option Str
  pub add_readyz_check : Option Str
  pub start : Option Str

-- The process exits with status 1 after a log line, or goes on.
pub data Started (A : Type 0) : Type 0 where
  running : A → Started A
  exited : Str → Str → Started A

infixl 5 ◌>>=◌ ◌>>◌
abbrev pub ◌>>=◌ : {A B : Type 0} → Started A → (A → Started B) → Started B
running a >>= f = f a
exited msg e >>= f = exited msg e

abbrev pub ◌>>◌ : {B : Type 0} → Started (Unit {0}) → Started B → Started B
m >> k = m >>= λ _. k

-- `if err != nil { setupLog.Error(err, msg); os.Exit(1) }`
abbrev pub check : Str → Option Str → Started (Unit {0})
check msg none = running tt
check msg (some e) = exited msg e

abbrev manager_options : Flags → ManagerOptions
manager_options f = record {
  metrics_bind_address = f.metrics_addr;
  secure_serving = false;
  health_probe_bind_address = f.probe_addr;
  leader_election = f.enable_leader_election;
  leader_election_id = f.leader_election_id;
  release_on_cancel = true;
  sync_period = f.cache_sync_period;
}

module _ (h : Host) where
  haproxy_from : Flags → Fallible Str → Started (Option HaProxyClient)
  haproxy_from f (err e) = exited (bytes "unable to read --haproxy-dataplane-password-file") e
  haproxy_from f (ok password) = running (
      some (
        new_haproxy (record {
          base_url = f.dataplane_url;
          username = f.dataplane_username;
          password = trim_space password;
          timeout = pos 0;
        })))

  unfoldable pub data_plane : Flags → Started (Option HaProxyClient)
  unfolding haproxy_from
  data_plane f =
      if is_nil f.dataplane_url
      then running none
      else haproxy_from f (h.read_file f.dataplane_password_file)

  client_from : Fallible GrpcClient → Started (Option GrpcClient)
  client_from (err e) = exited (bytes "unable to dial control plane") e
  client_from (ok c) = running (some c)

  unfoldable pub control_plane : Flags → Started (Option GrpcClient)
  unfolding client_from
  control_plane f =
      if is_nil f.control_plane_url
      then running none
      else client_from (dial h.stubs f.control_plane_url f.control_plane_timeout)

  watch : Option GrpcClient → Started (Unit {0})
  watch none = running tt
  watch (some c) = check (bytes "unable to add decision watcher") (h.add_watcher c)

  -- What was wired, once the manager has run to its end.
  unfoldable pub main : Flags → Started ReconcilerOptions
  unfolding data_plane control_plane watch
  main f = do
    plane ← data_plane f
    client ← control_plane f
    check (bytes "unable to start manager") (h.new_manager (manager_options f))
    let r : ReconcilerOptions = record {
      resync_interval = f.resync_interval;
      proxy = plane;
      control_plane = client;
      decision_events = is_some client;
    }
    check (bytes "unable to create controller") (h.set_up r)
    watch client
    check (bytes "unable to set up health check") h.add_healthz_check
    check (bytes "unable to set up ready check") h.add_readyz_check
    check (bytes "problem running manager") h.start
    running r
