-- ===== src/Proxy/HaProxy.antt =====
-- controller/internal/proxy/haproxy.go: delivery through the Data Plane API. The server is a
-- parameter: a record of what an HTTP exchange returns and does to the server's state, with the
-- standard library's JSON and number parsing at the bodies that it returns.
use kubetraffic.Prelude.{
  ℕ, Str, bytes, str_eq, is_nil, decimal, format_int, trim_space, ◌&&◌, Option, none, some, [], ◌∷◌,
  ◌++◌, length, take, leb, ltb, ◌==◌, if◌then◌else◌,
}
use kubetraffic.Prelude.Int.{ℤ, pos}
use kubetraffic.Discovery.Reads.{Fallible, ok, err}
use kubetraffic.Proxy.Contract.{Config, Proxy}
use kubetraffic.Proxy.Render.{render}
use kubetraffic.Proxy.Normalize.{normalize}

pub record Response : Type 0 where
  pub status_code : ℕ
  pub body : Str
  -- The header `Configuration-Version`, "" where it is missing.
  pub configuration_version : Str

-- The body as `{"_version": N, "data": "..."}`.
pub record Wrapped : Type 0 where
  pub version : ℤ
  pub data_text : Str

-- The extra query value of a push.
pub data PushMode : Type 0 where
  only_validate : PushMode
  reload_now : PushMode

pub record DataPlane (S : Type 0) : Type 0 where
  -- GET and POST /v3/services/haproxy/configuration/raw: an answer, or a transport error.
  pub get_raw : S → Fallible Response
  pub post_raw : Str → ℤ → PushMode → S → Fallible Response × S
  -- `json.Unmarshal`, none where it fails, and the number of `strconv.Atoi`.
  pub unmarshal : Str → Option Wrapped
  pub atoi : Str → ℤ

module _ {S : Type 0} (plane : DataPlane S) where
  open plane use {get_raw, post_raw, unmarshal, atoi}

  unwrapped : Response → Str × ℤ
  unwrapped resp =
      if is_nil resp.configuration_version
      then (resp.body, pos 0)
      else (resp.body, atoi resp.configuration_version)

  unfoldable pub read_body : Response → Str × ℤ
  unfolding unwrapped
  read_body resp = elim (unmarshal resp.body) [
    | none ↦ unwrapped resp
    | some w ↦ if is_nil w.data_text then unwrapped resp else (w.data_text, w.version)
  ]

  unfoldable pub current_config : S → Fallible (Str × ℤ)
  unfolding read_body
  current_config s = elim (get_raw s) [
    | err e ↦ err (bytes "get raw config: " ++ e)
    | ok resp ↦
        if resp.status_code == 200
        then ok (read_body resp)
        else err (
            bytes "get raw config: status "
            ++ (decimal resp.status_code ++ (bytes ": " ++ trim_space resp.body)))
  ]

  current_version : S → Fallible ℤ
  current_version s = elim (current_config s) [ err e ↦ err e | ok (current, version) ↦ ok version ]

  -- The ellipsis is one character of three bytes.
  unfoldable pub snippet : Str → Str
  snippet b =
      let s = trim_space b in
      if ltb 400 (length s) then take 400 s ++ (0xe2 ∷ 0x80 ∷ 0xa6 ∷ []) else s

  push_error : ℤ → Response → Option Str
  unfolding snippet
  push_error version resp =
      if leb 200 resp.status_code && ltb resp.status_code 300
      then none
      else if resp.status_code == 409
      then some (
          bytes "push raw config: version conflict (had "
          ++ (format_int version ++ (bytes "): " ++ snippet resp.body)))
      else some (
          bytes "push raw config: status "
          ++ (decimal resp.status_code ++ (bytes ": " ++ snippet resp.body)))

  pushed : ℤ → Fallible Response × S → Option Str × S
  unfolding push_error
  pushed version (err e, s) = (some (bytes "push raw config: " ++ e), s)
  pushed version (ok resp, s) = (push_error version resp, s)

  unfoldable pub push_raw : Str → ℤ → PushMode → S → Option Str × S
  unfolding pushed
  push_raw cfg version mode s = pushed version (post_raw cfg version mode s)

  unfoldable pub validate_config : Config → S → Option Str × S
  unfolding current_version
  validate_config c s = elim (current_version s) [
    | err e ↦ (some e, s)
    | ok version ↦ push_raw c.raw version only_validate s
  ]

  unfoldable pub apply_config : Config → S → Option Str × S
  apply_config c s = elim (current_config s) [
    | err e ↦ (some e, s)
    | ok (current, version) ↦
        if str_eq (normalize current) (normalize c.raw)
        then (none, s)
        else push_raw c.raw version reload_now s
  ]

  -- `NewHAProxy`, as the data plane that the reconciler is given.
  unfoldable pub haproxy : Str → Proxy S
  unfolding validate_config apply_config
  haproxy password = record {
    generate_config = render password;
    validate_config = validate_config;
    apply_config = apply_config;
  }
