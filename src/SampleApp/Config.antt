-- ===== src/SampleApp/Config.antt =====
-- demo/sample-app/internal/config/config.go: the configuration, from the environment.
use kubetraffic.Prelude.{
  ◌+◌, ◌*◌, Bool, false, Option, none, some, arith, if◌then◌else◌, or_else, Str, bytes, is_nil, suc,
  ◌<◌, Option-cases, inl, inr,
}
use kubetraffic.Prelude.Int.{ℤ, pos, negsuc, wrap64, int64_half, pos_part}
use kubetraffic.SampleApp.Floats.{Floats}

pub record Config (F : Type 0) : Type 0 where
  pub app_name : Str
  pub app_version : Str
  pub addr : Str
  pub pod_name : Str
  pub pod_namespace : Str
  pub node_name : Str
  pub error_rate : F
  pub latency : ℤ
  pub latency_jitter : ℤ
  pub ready_delay : ℤ
  pub fail_readiness : Bool
  pub shutdown_grace : ℤ

-- The process: `os.LookupEnv`, `os.Hostname`, and strconv's parsers, none where they fail.
pub record Process : Type 0 where
  pub lookup_env : Str → Option Str
  pub hostname : Str
  pub parse_bool : Str → Option Bool
  pub atoi : Str → Option ℤ

-- `time.Duration(ms) * time.Millisecond`, an int64 of nanoseconds.
unfoldable pub milliseconds : ℤ → ℤ
milliseconds (pos n) = wrap64 (pos (n * 1000000))
milliseconds (negsuc n) = wrap64 (negsuc (n * 1000000 + 999999))

module _ (p : Process) where
  unfoldable pub get_string : Str → Str → Str
  get_string key def = elim (p.lookup_env key) [ none ↦ def | some v ↦ if is_nil v then def else v ]

  unfoldable pub get_bool : Str → Bool → Bool
  get_bool key def = elim (p.lookup_env key) [ none ↦ def | some v ↦ or_else (p.parse_bool v) def ]

  unfoldable pub get_duration_ms : Str → ℤ → ℤ
  unfolding milliseconds
  get_duration_ms key def_ms = elim (p.lookup_env key) [
    | none ↦ milliseconds def_ms
    | some v ↦ milliseconds (or_else (p.atoi v) def_ms)
  ]

module _ {F : Type 0} (fl : Floats F) (p : Process) where
  unfoldable pub get_float : Str → F → F
  get_float key def = elim (p.lookup_env key) [
    | none ↦ def
    | some v ↦ or_else (fl.parse_float v) def
  ]

  unfoldable pub from_env : Config F
  unfolding get_string get_bool get_duration_ms get_float
  from_env = record {
    app_name = get_string p (bytes "APP_NAME") (bytes "sample-app");
    app_version = get_string p (bytes "APP_VERSION") (bytes "v1");
    addr = get_string p (bytes "ADDR") (bytes ":8080");
    pod_name = get_string p (bytes "POD_NAME") p.hostname;
    pod_namespace = get_string p (bytes "POD_NAMESPACE") (bytes "default");
    node_name = get_string p (bytes "NODE_NAME") (bytes "unknown");
    error_rate = get_float (bytes "ERROR_RATE") (fl.milli 0);
    latency = get_duration_ms p (bytes "LATENCY_MS") (pos 0);
    latency_jitter = get_duration_ms p (bytes "LATENCY_JITTER_MS") (pos 0);
    ready_delay = get_duration_ms p (bytes "READY_DELAY_MS") (pos 0);
    fail_readiness = get_bool p (bytes "FAIL_READINESS") false;
    shutdown_grace = get_duration_ms p (bytes "SHUTDOWN_GRACE_MS") (pos 10000);
  }

-- A duration in milliseconds is an even number of nanoseconds, so it is below the largest int64.
pub milliseconds-lt-max : (ms : ℤ) → suc (pos_part (milliseconds ms)) < int64_half
unfolding milliseconds wrap64
milliseconds-lt-max (pos n) = ground arith
milliseconds-lt-max (negsuc n) = ground arith

pub get_duration_ms-lt-max :
    (p : Process) (key : Str) (def_ms : ℤ)
    → suc (pos_part (get_duration_ms p key def_ms)) < int64_half
unfolding get_duration_ms
get_duration_ms-lt-max p key def_ms = elim (Option-cases (p.lookup_env key)) [
  | inl e ↦ rw (e, get_duration_ms) (milliseconds-lt-max def_ms)
  | inr (v, e) ↦ rw (e, get_duration_ms) (milliseconds-lt-max (or_else (p.atoi v) def_ms))
]
