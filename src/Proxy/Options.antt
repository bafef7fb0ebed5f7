-- ===== src/Proxy/Options.antt =====
-- `HAProxyOptions` and `NewHAProxy` of controller/internal/proxy/haproxy.go.
use kubetraffic.Prelude.{[], ◌∷◌, if◌then◌else◌, ◌==◌, Str, is_nil}
use kubetraffic.Prelude.Int.{ℤ, pos, eqb_ℤ}

pub record HaProxyOptions : Type 0 where
  pub base_url : Str
  pub username : Str
  pub password : Str
  pub timeout : ℤ

-- The struct `HAProxy`, with its renderer's password and its HTTP client's timeout.
pub record HaProxyClient : Type 0 where
  pub base_url : Str
  pub username : Str
  pub password : Str
  pub dataplane_password : Str
  pub timeout : ℤ

-- `strings.TrimRight(s, "/")`
unfoldable pub trim_slashes : Str → Str
trim_slashes [] = []
trim_slashes (c ∷ s) =
    let rest = trim_slashes s in if is_nil rest then (if c == 47 then [] else c ∷ []) else c ∷ rest

-- Fifteen seconds where no timeout is given.
unfoldable pub new_haproxy : HaProxyOptions → HaProxyClient
unfolding trim_slashes
new_haproxy opts = record {
  base_url = trim_slashes opts.base_url;
  username = opts.username;
  password = opts.password;
  dataplane_password = opts.password;
  timeout = if eqb_ℤ opts.timeout (pos 0) then pos 15000000000 else opts.timeout;
}
