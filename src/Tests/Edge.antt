-- ===== src/Tests/Edge.antt =====
-- The proxy, the in-memory control plane and the manager at small inputs.
use kubetraffic.Prelude.{
  ◌⊎◌, ◌≡◌, refl, none, some, List, [], ◌∷◌, Str, bytes, str_eq, sort, has_prefix,
}
use kubetraffic.Model.{Rule}
use kubetraffic.Discovery.Reads.{ok}
use kubetraffic.Proxy.{rule_before, normalize}
use kubetraffic.Proxy.Order.{first_backend}
use kubetraffic.ControlPlane.Fake.{new_fake, named}
use kubetraffic.ControlPlane.Store.{
  Op, register, delete, get, view, faults, run_fake, run_store, run_fake_lem,
}
use kubetraffic.ControlPlane.Client.{Stubs}
use kubetraffic.Manager.{Flags, default_flags, Host, ReconcilerOptions, running, main}
use kubetraffic.Manager.Wiring.{Succeeds, Fails, IsRun, main_lem}
use kubetraffic.Tests.Data.{payment, config}

abbrev rule : Str → Rule
rule path = record { path = path; backend_name = bytes "b"; servers = []; resilience = none }

abbrev rules : List Rule
rules = rule (bytes "/") ∷ rule (bytes "/pay") ∷ []

first-pay : first_backend (bytes "/payment") (sort rule_before rules) ≡ some (rule (bytes "/pay"))
unfolding sort rule_before has_prefix str_eq
first-pay = refl

normalized : normalize (bytes "global \n\n  daemon\t\n") ≡ bytes "global\n  daemon"
unfolding normalize
normalized = refl

abbrev ops : List Op
ops = register payment ∷ get (named payment) ∷ delete (named payment) ∷ get (named payment) ∷ []

run_fake_lem_example :
    ((run_fake ops new_fake).0 ≡ (run_store (faults new_fake) ops (view new_fake)).0)
    × (view (run_fake ops new_fake).1 ≡ (run_store (faults new_fake) ops (view new_fake)).1)
run_fake_lem_example = run_fake_lem ops new_fake

abbrev stubs : Stubs
stubs = record {
  new_client = λ t. none;
  quote = λ s. s;
  register_route = λ t s. ok config;
  delete_route = λ t r. none;
  get_route_config = λ t r. ok config;
  stream_decisions = ok (record { decisions = []; ended = bytes "EOF" });
}

abbrev host : Host
host = record {
  stubs = stubs;
  read_file = λ f. ok (bytes "secret\n");
  new_manager = λ o. none;
  set_up = λ r. none;
  add_watcher = λ c. none;
  add_healthz_check = none;
  add_readyz_check = none;
  start = none;
}

abbrev flags : Flags
flags = record default_flags { dataplane_url = bytes "http://haproxy:5555" }

main_lem_example :
    ((r : ReconcilerOptions) × (main host flags ≡ running r) × IsRun host flags r)
    ⊎ (Fails (main host flags) × (Succeeds host flags → ⊥))
main_lem_example = main_lem host flags
