-- ===== src/SampleApp/Handlers.antt =====
-- demo/sample-app/internal/server/handlers.go: the handlers, as the calls that each makes on its
-- response writer. What a handler reads of the outside is an argument: the request, the clock, the
-- random draws, and the standard library's JSON and address parsing.
use kubetraffic.Prelude.{
  ℕ, Bool, ◌&&◌, Option, none, some, List, [], ◌∷◌, if◌then◌else◌, ◌==◌, or_else, Str, bytes,
  str_eq, is_nil, trim_space,
}
use kubetraffic.Prelude.Int.{ℤ, pos, ◌+ℤ◌, ltb_ℤ, wrap64, div_trunc}
use kubetraffic.SampleApp.Floats.{Floats}
use kubetraffic.SampleApp.Config.{Config, milliseconds}
use kubetraffic.SampleApp.Fault.{FaultState, set_fault}

-- `forwarded_for` is the header X-Forwarded-For, "" where it is missing.
pub record Request : Type 0 where
  pub method : Str
  pub path : Str
  pub remote_addr : Str
  pub forwarded_for : Str
  pub body : Str

-- The struct `response`, and `time.Now().UTC()` as its text.
pub record EchoResponse : Type 0 where
  pub app : Str
  pub version : Str
  pub pod : Str
  pub namespace : Str
  pub node : Str
  pub method : Str
  pub path : Str
  pub client : Str
  pub latency_ms : ℤ
  pub time : Str
  pub error : Str

pub record FaultRequest (F : Type 0) : Type 0 where
  pub error_rate : Option F
  pub latency_ms : Option ℤ

pub record FaultResponse (F : Type 0) : Type 0 where
  pub error_rate : F
  pub latency_ms : ℤ
  pub jitter_ms : ℤ

-- What `writeJSON` is given to encode.
pub data Payload (F : Type 0) : Type 0 where
  echo : EchoResponse → Payload F
  fault : FaultResponse F → Payload F
  problem : Str → Payload F

-- A call on the response writer. An encoding writes its text, or nothing where it fails.
pub data WriterCall (F : Type 0) : Type 0 where
  set_header : Str → Str → WriterCall F
  write_header : ℕ → WriterCall F
  write : Str → WriterCall F
  encode : Payload F → WriterCall F

-- The handler returns after its calls, or `rand.Int64N` panics on a bound that is not positive.
pub data Handled (F : Type 0) : Type 0 where
  handled : List (WriterCall F) → Handled F
  panicked : Handled F

-- `d.Milliseconds()`
abbrev pub to_ms : ℤ → ℤ
to_ms d = div_trunc d 1000000

unfoldable pub handle_health : (F : Type 0) → List (WriterCall F)
handle_health F = write_header 200 ∷ write (bytes "ok") ∷ []

unfoldable pub handle_ready : (F : Type 0) → Bool → List (WriterCall F)
handle_ready F ready =
    if ready
    then write_header 200 ∷ write (bytes "ready") ∷ []
    else write_header 503 ∷ write (bytes "not ready") ∷ []

unfoldable pub write_json : {F : Type 0} → ℕ → Payload F → List (WriterCall F)
write_json status v =
    set_header (bytes "Content-Type") (bytes "application/json")
    ∷ write_header status
    ∷ encode v
    ∷ []

-- What is before the first comma, if there is one.
unfoldable pub before_comma : Str → Str
before_comma [] = []
before_comma (c ∷ s) = let rest = before_comma s in if c == 44 then [] else c ∷ rest

-- `net.SplitHostPort`: the host, none where it fails.
unfoldable pub client_ip : (Str → Option Str) → Request → Str
unfolding before_comma
client_ip split_host_port r =
    if is_nil r.forwarded_for
    then or_else (split_host_port r.remote_addr) r.remote_addr
    else trim_space (before_comma r.forwarded_for)

module _ {F : Type 0} (fl : Floats F) where
  -- The update of a POST, from a snapshot `seen`; a latency is given in milliseconds.
  unfoldable pub update_fault : FaultRequest F → FaultState F → FaultState F → FaultState F
  unfolding set_fault milliseconds
  update_fault req seen f =
      set_fault fl (or_else req.error_rate seen.rate)
        (elim req.latency_ms [ none ↦ seen.latency | some ms ↦ milliseconds ms ]) f

  report_fault : FaultState F → List (WriterCall F)
  unfolding write_json
  report_fault f = write_json 200 (
      fault
        (record { error_rate = f.rate; latency_ms = to_ms f.latency; jitter_ms = to_ms f.jitter }))

  -- With no other request in between; the state's mutex is not held from the snapshot to the update.
  -- `decode` is `json.NewDecoder(r.Body).Decode(&req)`, none where it fails.
  unfoldable pub handle_fault :
      (Str → Option (FaultRequest F)) → Request → FaultState F → FaultState F × List (WriterCall F)
  unfolding update_fault report_fault write_json
  handle_fault decode r f =
      if str_eq r.method (bytes "POST")
      then elim (decode r.body) [
        | none ↦ (f, write_json 400 (problem (bytes "invalid json body")))
        | some req ↦ let f' = update_fault req f f in (f', report_fault f')
      ]
      else (f, report_fault f)

-- The world of one business request: `draw n` is `rand.Int64N(n)`, `chance` is `rand.Float64()`,
-- and `hung_up` says that the client was gone before the delay was over.
pub record RootWorld (F : Type 0) : Type 0 where
  pub draw : ℤ → ℤ
  pub chance : F
  pub hung_up : Bool
  pub now : Str
  pub split_host_port : Str → Option Str

module _ {F : Type 0} (fl : Floats F) (cfg : Config F) (w : RootWorld F) where
  -- The delay with a draw below the bound, none where the draw panics.
  unfoldable pub drawn_delay : ℤ → ℤ → Option ℤ
  drawn_delay base bound =
      if ltb_ℤ (pos 0) bound then some (wrap64 (base +ℤ w.draw bound)) else none

  unfoldable pub root_delay : FaultState F → Option ℤ
  root_delay f =
      if ltb_ℤ (pos 0) f.jitter
      then drawn_delay f.latency (wrap64 (f.jitter +ℤ pos 1))
      else some f.latency

  unfoldable pub echo_response : Request → ℤ → Str → EchoResponse
  unfolding client_ip
  echo_response r delay error = record {
    app = cfg.app_name;
    version = cfg.app_version;
    pod = cfg.pod_name;
    namespace = cfg.pod_namespace;
    node = cfg.node_name;
    method = r.method;
    path = r.path;
    client = client_ip w.split_host_port r;
    latency_ms = to_ms delay;
    time = w.now;
    error = error;
  }

  -- After the delay.
  unfoldable pub answer_root : Request → F → ℤ → List (WriterCall F)
  unfolding echo_response write_json
  answer_root r rate delay =
      if fl.lt (fl.milli 0) rate && fl.lt w.chance rate
      then write_json 500 (echo (echo_response r delay (bytes "injected failure")))
      else write_json 200 (echo (echo_response r delay []))

  unfoldable pub handle_root : Request → FaultState F → Handled F
  unfolding root_delay answer_root
  handle_root r f = elim (root_delay f) [
    | none ↦ panicked
    | some delay ↦
        if ltb_ℤ (pos 0) delay && w.hung_up
        then handled []
        else handled (answer_root r f.rate delay)
  ]
