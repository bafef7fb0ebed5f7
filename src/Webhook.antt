-- ===== src/Webhook.antt =====
-- controller/internal/webhook/v1alpha1/trafficroute_webhook.go: the semantic checks of the spec.
-- Each check appends to an error list; a loop that appends is a recursion that returns what the
-- rest of the loop appends. `ValidateTrafficRoute` is also called by the reconciler.
pub mod Errors
pub mod Versions
pub mod Policies
pub mod Routes
use kubetraffic.Prelude.{
  ℕ, zero, suc, ◌+◌, ◌≡◌, Str, bytes, str_eq, has_prefix, is_blank, is_nil, contains, decimal, Bool,
  true, false, not, ◌&&◌, ◌||◌, Option, none, some, List, [], ◌∷◌, ◌++◌, length, is_empty,
  if◌then◌else◌, ltb, ◌==◌,
}
use kubetraffic.Prelude.Int.{ℤ, pos, negsuc, ◌+ℤ◌, ltb_ℤ, leb_ℤ, eqb_ℤ, wrap32}
use kubetraffic.Api.{
  TrafficRoute, RouteRule, BackendVersion, ResiliencePolicy, RetryPolicy, CircuitBreakerPolicy,
  SecurityPolicy, RateLimitPolicy, JwtPolicy, SecretKeyRef, HealthPolicy, CanaryStrategy,
  strategy_weighted, strategy_canary, strategy_blue_green,
}
use Errors.{
  FieldPath, root, child, index, FieldError, required, invalid, duplicate, not_supported, text,
  number,
}

abbrev error_if : Bool → FieldError → List FieldError
error_if c e = if c then e ∷ [] else []

-- `if r.Path == "" { p = "/" }`
abbrev pub effective_path : Str → Str
effective_path path = if is_nil path then bytes "/" else path

unfoldable pub out_of_range : ℤ → ℤ → ℤ → Bool
out_of_range low high x = ltb_ℤ x low || ltb_ℤ high x

name_errors : FieldPath → List Str → Str → List FieldError
name_errors p seen name =
    if is_nil name
    then required p (bytes "version name is required") ∷ []
    else error_if (contains name seen) (duplicate p (text name))

-- The loop of `validateVersions` and the check after it; `sum` is an int32.
check_versions : FieldPath → ℕ → List Str → ℤ → List BackendVersion → List FieldError
check_versions vp i seen sum [] =
    error_if (not (eqb_ℤ sum (pos 100)))
      (invalid vp (number sum) (bytes "version weights must sum to 100"))
check_versions vp i seen sum (ver ∷ rest) =
    name_errors (child (index vp i) (bytes "name")) seen ver.name
    ++ error_if (out_of_range (pos 0) (pos 100) ver.weight) (
        invalid (child (index vp i) (bytes "weight")) (number ver.weight)
          (bytes "weight must be between 0 and 100"))
    ++ check_versions vp (suc i) (ver.name ∷ seen) (wrap32 (sum +ℤ ver.weight)) rest

unfoldable pub validate_versions : FieldPath → RouteRule → List FieldError
unfolding check_versions name_errors out_of_range
validate_versions rp r =
    if is_empty r.versions
    then []
    else check_versions (child rp (bytes "versions")) 0 [] (pos 0) r.versions

-- The loop of `validateAscending`.
check_ascending : FieldPath → ℕ → ℤ → List ℤ → List FieldError
check_ascending p i prev [] = []
check_ascending p i prev (s ∷ rest) =
    error_if (out_of_range (pos 0) (pos 100) s)
      (invalid (index p i) (number s) (bytes "step must be between 0 and 100"))
    ++ error_if (leb_ℤ s prev)
        (invalid (index p i) (number s) (bytes "canary steps must be strictly ascending"))
    ++ check_ascending p (suc i) s rest

unfoldable pub validate_ascending : FieldPath → List ℤ → List FieldError
unfolding check_ascending out_of_range
validate_ascending p steps = check_ascending p 0 (negsuc 0) steps

abbrev canary_errors : FieldPath → Option CanaryStrategy → List FieldError
canary_errors p none = []
canary_errors p (some c) =
    validate_ascending (child (child p (bytes "canary")) (bytes "steps")) c.steps

-- The two cases of the switch in `validateStrategy` that check something.
unfoldable pub canary_rule_errors : FieldPath → FieldPath → RouteRule → List FieldError
canary_rule_errors rp sp r =
    error_if (ltb (length r.versions) 2) (
      invalid (child rp (bytes "versions")) (number (pos (length r.versions)))
        (bytes "CANARY strategy requires at least two versions"))
    ++ canary_errors sp r.strategy.canary

unfoldable pub blue_green_rule_errors : FieldPath → RouteRule → List FieldError
blue_green_rule_errors rp r = error_if (not (length r.versions == 2)) (
    invalid (child rp (bytes "versions")) (number (pos (length r.versions)))
      (bytes "BLUE_GREEN strategy requires exactly two versions"))

unfoldable pub validate_strategy : FieldPath → RouteRule → List FieldError
validate_strategy rp r =
    let sp = child rp (bytes "strategy") in
    let kind = r.strategy.kind in
    if is_nil kind || str_eq kind strategy_weighted
    then []
    else if str_eq kind strategy_canary
    then canary_rule_errors rp sp r
    else if str_eq kind strategy_blue_green
    then blue_green_rule_errors rp r
    else not_supported (child sp (bytes "type")) (text kind)
        (strategy_weighted ∷ strategy_canary ∷ strategy_blue_green ∷ [])
      ∷ []

retry_errors : FieldPath → Option RetryPolicy → List FieldError
retry_errors p none = []
retry_errors p (some rt) = error_if (out_of_range (pos 0) (pos 10) rt.attempts) (
    invalid (child (child p (bytes "retries")) (bytes "attempts")) (number rt.attempts)
      (bytes "attempts must be between 0 and 10"))

breaker_errors : FieldPath → Option CircuitBreakerPolicy → List FieldError
breaker_errors p none = []
breaker_errors p (some cb) =
    if cb.enabled
    then error_if (ltb_ℤ cb.failure_threshold (pos 1)) (
        invalid (child (child p (bytes "circuitBreaker")) (bytes "failureThreshold"))
          (number cb.failure_threshold)
          (bytes "failureThreshold must be >= 1 when the circuit breaker is enabled"))
      ++ error_if (ltb_ℤ cb.half_open_requests (pos 0)) (
          invalid (child (child p (bytes "circuitBreaker")) (bytes "halfOpenRequests"))
            (number cb.half_open_requests) (bytes "halfOpenRequests must be >= 0"))
    else []

unfoldable pub validate_resilience : FieldPath → Option ResiliencePolicy → List FieldError
unfolding retry_errors breaker_errors out_of_range
validate_resilience rp none = []
validate_resilience rp (some r) =
    let resp = child rp (bytes "resilience") in
    retry_errors resp r.retries ++ breaker_errors resp r.circuit_breaker

rate_limit_errors : FieldPath → Option RateLimitPolicy → List FieldError
rate_limit_errors p none = []
rate_limit_errors p (some rl) =
    error_if (ltb_ℤ rl.requests_per_second (pos 1)) (
      invalid (child (child p (bytes "rateLimit")) (bytes "requestsPerSecond"))
        (number rl.requests_per_second) (bytes "requestsPerSecond must be >= 1"))
    ++ error_if (ltb_ℤ rl.burst (pos 0)) (
        invalid (child (child p (bytes "rateLimit")) (bytes "burst")) (number rl.burst)
          (bytes "burst must be >= 0"))

-- `jwt.JWKSSecretRef != nil && strings.TrimSpace(jwt.JWKSSecretRef.Name) == ""`
abbrev secret_unnamed : Option SecretKeyRef → Bool
secret_unnamed none = false
secret_unnamed (some ref) = is_blank ref.name

jwt_errors : FieldPath → Option JwtPolicy → List FieldError
jwt_errors p none = []
jwt_errors p (some jwt) =
    error_if (is_blank jwt.issuer) (
      required (child (child p (bytes "jwt")) (bytes "issuer"))
        (bytes "issuer is required when jwt is set"))
    ++ error_if (secret_unnamed jwt.jwks_secret_ref) (
        required (child (child (child p (bytes "jwt")) (bytes "jwksSecretRef")) (bytes "name"))
          (bytes "secret name is required"))

unfoldable pub validate_security : FieldPath → Option SecurityPolicy → List FieldError
unfolding rate_limit_errors jwt_errors
validate_security rp none = []
validate_security rp (some s) =
    let secp = child rp (bytes "security") in
    rate_limit_errors secp s.rate_limit ++ jwt_errors secp s.jwt

-- The checks that the loop body makes itself, before the four calls.
unfoldable pub rule_errors : FieldPath → List Str → RouteRule → List FieldError
rule_errors rp paths r =
    let p = effective_path r.path in
    error_if (not (has_prefix p (bytes "/")))
      (invalid (child rp (bytes "path")) (text r.path) (bytes "path must start with '/'"))
    ++ error_if (contains p paths) (duplicate (child rp (bytes "path")) (text p))
    ++ error_if (is_blank r.backend.service) (
        required (child (child rp (bytes "backend")) (bytes "service"))
          (bytes "backend service is required"))
    ++ error_if (out_of_range (pos 1) (pos 65535) r.backend.port) (
        invalid (child (child rp (bytes "backend")) (bytes "port")) (number r.backend.port)
          (bytes "port must be between 1 and 65535"))

unfoldable pub check_rule : FieldPath → List Str → RouteRule → List FieldError
check_rule rp paths r =
    rule_errors rp paths r
    ++ validate_versions rp r
    ++ validate_strategy rp r
    ++ validate_resilience rp r.resilience
    ++ validate_security rp r.security

-- The loop of `ValidateTrafficRoute`; `paths` holds the paths seen so far.
unfoldable pub check_rules : FieldPath → ℕ → List Str → List RouteRule → List FieldError
check_rules p i paths [] = []
check_rules p i paths (r ∷ rest) =
    check_rule (index p i) paths r ++ check_rules p (suc i) (effective_path r.path ∷ paths) rest

unfoldable pub validate_traffic_route : TrafficRoute → List FieldError
validate_traffic_route tr =
    let spec = root (bytes "spec") in
    error_if (is_blank tr.spec.host)
      (required (child spec (bytes "host")) (bytes "host is required"))
    ++ error_if (is_empty tr.spec.routes)
        (required (child spec (bytes "routes")) (bytes "at least one route is required"))
    ++ check_rules (child spec (bytes "routes")) 0 [] tr.spec.routes

-- `r.Health == nil || r.Health.LatencyThreshold.Duration == 0`
abbrev no_latency_threshold : Option HealthPolicy → Bool
no_latency_threshold none = true
no_latency_threshold (some h) = eqb_ℤ h.latency_threshold (pos 0)

-- The loop of `Warnings`.
warnings_from : ℕ → List RouteRule → List Str
warnings_from i [] = []
warnings_from i (r ∷ rest) =
    (if str_eq r.strategy.kind strategy_canary && no_latency_threshold r.health
      then (bytes "routes["
          ++ decimal i
          ++ bytes
              "]: CANARY strategy without health.latencyThreshold; the decision engine can only act on error rate")
        ∷ []
      else [])
    ++ warnings_from (suc i) rest

unfoldable pub warnings : TrafficRoute → List Str
unfolding warnings_from
warnings tr = warnings_from 0 tr.spec.routes

-- Why an object is refused: it is no TrafficRoute (`expected a TrafficRoute, got %T`), or it breaks
-- rules (`apierrors.NewInvalid`).
pub data Rejection : Type 0 where
  not_a_route : Rejection
  broken_rules : Str → List FieldError → Rejection

pub record Admission : Type 0 where
  pub warned : List Str
  pub rejected : Option Rejection

-- An object of another type is `none`.
unfoldable pub validate : Option TrafficRoute → Admission
unfolding validate_traffic_route warnings
validate none = record { warned = []; rejected = some not_a_route }
validate (some tr) =
    let errs = validate_traffic_route tr in
    record {
      warned = warnings tr;
      rejected = if is_empty errs then none else some (broken_rules tr.name errs);
    }

-- `ValidateCreate`, `ValidateUpdate` and `ValidateDelete`.
unfoldable pub validate_create : Option TrafficRoute → Admission
unfolding validate
validate_create obj = validate obj

unfoldable pub validate_update : Option TrafficRoute → Option TrafficRoute → Admission
unfolding validate
validate_update old_obj new_obj = validate new_obj

unfoldable pub validate_delete : Option TrafficRoute → Admission
validate_delete obj = record { warned = []; rejected = none }
