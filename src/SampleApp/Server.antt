-- ===== src/SampleApp/Server.antt =====
-- demo/sample-app/internal/server/server.go: routing, instrumentation and the lifecycle.
pub mod Traffic
pub mod Lifecycle
pub mod Replies
use kubetraffic.Prelude.{
  ℕ, zero, suc, ◌+◌, ◌-◌, ◌*◌, ◌/◌, ◌%◌, ◌≤◌, ◌<◌, String, ◌≡◌, refl, sym, ap, ◌∙◌, ◌≢◌, ◌↔◌, ◌⊎◌,
  inl, inr, Bool, true, false, not, ◌&&◌, ◌||◌, Option, none, some, List, [], ◌∷◌, ◌++◌, map, arith,
  if◌then◌else◌, ltb, leb, ◌==◌, Bool-cases, Option-cases, is_some, or_else, Str, bytes, str_eq,
  is_nil, length, is_empty, sum, All, Dict, lookup, insert, erase, contains,
}
use kubetraffic.Prelude.Int.{
  ℤ, pos, negsuc, ◌+ℤ◌, ◌≤ℤ◌, ltb_ℤ, leb_ℤ, eqb_ℤ, wrap32, wrap64, pos_part, neg_part, int32_half,
  int64_half,
}
use kubetraffic.SampleApp.Floats.{Floats}
use kubetraffic.SampleApp.Config.{Config}
use kubetraffic.SampleApp.Fault.{FaultState, new_fault_state}
use kubetraffic.SampleApp.Metrics.{
  Metrics, new_metrics, write_to, inc_inflight, dec_inflight, observe,
}
use kubetraffic.SampleApp.Handlers.{
  WriterCall, set_header, write_header, write, encode, Payload, Handled, handled, panicked, Request,
  FaultRequest, RootWorld, handle_health, handle_ready, handle_fault, handle_root,
}

-- `statusRecorder`, but for the writer that it wraps.
pub record StatusRecorder : Type 0 where
  pub status : ℕ
  pub written : Bool

abbrev pub new_recorder : StatusRecorder
new_recorder = record { status = 200; written = false }

unfoldable pub record_header : ℕ → StatusRecorder → StatusRecorder
record_header code r = if r.written then r else record { status = code; written = true }

-- A call of the wrapped writer; `encodes` says whether the encoder writes anything.
unfoldable pub record_call :
    {F : Type 0} → (Payload F → Bool) → WriterCall F → StatusRecorder → StatusRecorder
unfolding record_header
record_call encodes (set_header k v) r = r
record_call encodes (write_header code) r = record_header code r
record_call encodes (write b) r = record r { written = true }
record_call encodes (encode v) r = if encodes v then record r { written = true } else r

unfoldable pub record_calls :
    {F : Type 0} → (Payload F → Bool) → List (WriterCall F) → StatusRecorder → StatusRecorder
unfolding record_call
record_calls encodes [] r = r
record_calls encodes (c ∷ rest) r = record_calls encodes rest (record_call encodes c r)

pub record Server (F : Type 0) : Type 0 where
  pub cfg : Config F
  pub fault : FaultState F
  pub metrics : Metrics F
  pub ready : Bool

-- The handlers that `routes` registers, with their patterns.
pub data Route : Type 0 where
  health ready fault metrics root : Route

abbrev pub routes : List (Str × Route)
routes =
    (bytes "/healthz", Route.health)
    ∷ (bytes "/readyz", Route.ready)
    ∷ (bytes "/admin/fault", Route.fault)
    ∷ (bytes "/metrics", Route.metrics)
    ∷ (bytes "/", Route.root)
    ∷ []

-- What a request meets outside of the server: `mux` is the choice of `http.ServeMux`, `quote`
-- is fmt's `%q`.
pub record Outside (F : Type 0) : Type 0 where
  pub mux : List (Str × Route) → Str → Route
  pub decode : Str → Option (FaultRequest F)
  pub encodes : Payload F → Bool
  pub quote : Str → Str
  pub root : RootWorld F

module _ {F : Type 0} (fl : Floats F) where
  unfoldable pub new_server : Config F → Server F
  new_server cfg = record {
    cfg = cfg;
    fault = new_fault_state fl cfg.error_rate cfg.latency cfg.latency_jitter;
    metrics = new_metrics fl cfg.app_name cfg.app_version cfg.pod_name;
    ready = false;
  }

  unfoldable pub handle_metrics : Outside F → Server F → List (WriterCall F)
  handle_metrics out s =
      set_header (bytes "Content-Type") (bytes "text/plain; version=0.0.4; charset=utf-8")
      ∷ write (write_to fl out.quote s.metrics s.ready)
      ∷ []

  -- The handler of a route.
  unfoldable pub run_handler : Outside F → Route → Request → Server F → Server F × Handled F
  run_handler out Route.health r s = (s, handled (handle_health F))
  run_handler out Route.ready r s = (s, handled (handle_ready F s.ready))
  run_handler out Route.fault r s =
      let (f, calls) = handle_fault fl out.decode r s.fault in
      (record s { fault = f }, handled calls)
  run_handler out Route.metrics r s = (s, handled (handle_metrics out s))
  run_handler out Route.root r s = (s, handle_root fl s.cfg out.root r s.fault)

  -- `instrument`, up to the call of `next`, the decrement after it returned, and what is recorded
  -- after that. A panic skips the last two.
  unfoldable pub begin_request : Server F → Server F
  begin_request s = record s { metrics = inc_inflight fl s.metrics }

  unfoldable pub leave_request : Server F → Server F
  leave_request s = record s { metrics = dec_inflight fl s.metrics }

  unfoldable pub end_request : Outside F → Str → F → List (WriterCall F) → Server F → Server F
  end_request out method seconds calls s = record s {
    metrics =
        observe fl method (record_calls out.encodes calls new_recorder).status seconds s.metrics;
  }
