-- ===== src/Webhook/Policies.antt =====
-- The other checks of one rule accept exactly what these predicates describe.
use kubetraffic.Prelude.{
  ℕ, suc, ◌≤◌, ◌≡◌, refl, ◌↔◌, inl, inr, is_blank, Option, none, some, List, [], ◌∷◌, length, arith,
  true, false, str_eq_iff, Bool-cases, All, checks_iff, is_nil, is_nil_iff, str_eq, ltb,
}
use kubetraffic.Prelude.Int.{ℤ, pos, negsuc, ◌≤ℤ◌}
use kubetraffic.Api.{
  RouteRule, BackendVersion, ResiliencePolicy, RetryPolicy, CircuitBreakerPolicy, SecurityPolicy,
  RateLimitPolicy, JwtPolicy, SecretKeyRef, CanaryStrategy, RoutingStrategy, strategy_weighted,
  strategy_canary, strategy_blue_green,
}
use kubetraffic.Webhook.{
  canary_rule_errors, blue_green_rule_errors, canary_errors, out_of_range, check_ascending,
  validate_ascending, validate_strategy, retry_errors, breaker_errors, validate_resilience,
  rate_limit_errors, jwt_errors, validate_security, error_if,
}
use kubetraffic.Webhook.Errors.{FieldPath}
use kubetraffic.Webhook.Versions.{IsPercent}

-- Each step is above the one before it, `prev` before the first.
abbrev pub AscendsFrom : ℤ → List ℤ → Type 0
AscendsFrom prev [] = Unit
AscendsFrom prev (s ∷ rest) = ¬ (s ≤ℤ prev) × AscendsFrom s rest

-- A strictly ascending ladder of percentages.
abbrev pub IsLadder : List ℤ → Type 0
IsLadder steps = All IsPercent steps × AscendsFrom (negsuc 0) steps

check_ascending_sound :
    (p : FieldPath) (i : ℕ) (prev : ℤ) (steps : List ℤ)
    → check_ascending p i prev steps ≡ []
    → All IsPercent steps × AscendsFrom prev steps
unfolding check_ascending out_of_range
check_ascending_sound p i prev [] h = (tt, tt)
check_ascending_sound p i prev (s ∷ rest) h = ground (arith, check_ascending_sound p (suc i) s rest)

check_ascending_complete :
    (p : FieldPath) (i : ℕ) (prev : ℤ) (steps : List ℤ)
    → All IsPercent steps
    → AscendsFrom prev steps
    → check_ascending p i prev steps ≡ []
unfolding check_ascending out_of_range
check_ascending_complete p i prev [] h k = refl
check_ascending_complete p i prev (s ∷ rest) h k =
    ground (arith, check_ascending_complete p (suc i) s rest h.1 k.1)

-- `validateAscending` accepts exactly the strictly ascending ladders of percentages.
pub validate_ascending_iff :
    (p : FieldPath) (steps : List ℤ) → (validate_ascending p steps ≡ []) ↔ IsLadder steps
unfolding validate_ascending
validate_ascending_iff p steps = (
  (check_ascending_sound p 0 (negsuc 0) steps),
  (λ (h, k). check_ascending_complete p 0 (negsuc 0) steps h k),
)

abbrev pub HasLadder : Option CanaryStrategy → Type 0
HasLadder none = Unit
HasLadder (some c) = IsLadder c.steps

-- The strategy is one of the three, or left out, with the versions that it needs.
pub data IsStrategy (s : RoutingStrategy) (vs : List BackendVersion) : Type 0 where
  unset : s.kind ≡ [] → IsStrategy s vs
  weighted : s.kind ≡ strategy_weighted → IsStrategy s vs
  canary : s.kind ≡ strategy_canary → 2 ≤ length vs → HasLadder s.canary → IsStrategy s vs
  blue_green : s.kind ≡ strategy_blue_green → length vs ≡ 2 → IsStrategy s vs

abbrev pub IsRetry : Option RetryPolicy → Type 0
IsRetry none = Unit
IsRetry (some rt) = (pos 0 ≤ℤ rt.attempts) × (rt.attempts ≤ℤ pos 10)

abbrev pub IsBreaker : Option CircuitBreakerPolicy → Type 0
IsBreaker none = Unit
IsBreaker (some cb) =
    cb.enabled ≡ true → (pos 1 ≤ℤ cb.failure_threshold) × (pos 0 ≤ℤ cb.half_open_requests)

abbrev pub IsResilience : Option ResiliencePolicy → Type 0
IsResilience none = Unit
IsResilience (some r) = IsRetry r.retries × IsBreaker r.circuit_breaker

abbrev pub IsRateLimit : Option RateLimitPolicy → Type 0
IsRateLimit none = Unit
IsRateLimit (some rl) = (pos 1 ≤ℤ rl.requests_per_second) × (pos 0 ≤ℤ rl.burst)

abbrev pub IsSecretRef : Option SecretKeyRef → Type 0
IsSecretRef none = Unit
IsSecretRef (some ref) = is_blank ref.name ≡ false

abbrev pub IsJwt : Option JwtPolicy → Type 0
IsJwt none = Unit
IsJwt (some jwt) = (is_blank jwt.issuer ≡ false) × IsSecretRef jwt.jwks_secret_ref

abbrev pub IsSecurity : Option SecurityPolicy → Type 0
IsSecurity none = Unit
IsSecurity (some s) = IsRateLimit s.rate_limit × IsJwt s.jwt

retry_errors_iff : (p : FieldPath) (o : Option RetryPolicy) → (retry_errors p o ≡ []) ↔ IsRetry o
unfolding retry_errors out_of_range
retry_errors_iff p none = ground arith
retry_errors_iff p (some rt) = ground arith

breaker_errors_iff :
    (p : FieldPath) (o : Option CircuitBreakerPolicy) → (breaker_errors p o ≡ []) ↔ IsBreaker o
unfolding breaker_errors
breaker_errors_iff p none = ground arith
breaker_errors_iff p (some cb) = ground arith

-- `validateResilience` accepts exactly these policies.
pub validate_resilience_iff :
    (rp : FieldPath) (o : Option ResiliencePolicy)
    → (validate_resilience rp o ≡ []) ↔ IsResilience o
unfolding validate_resilience
validate_resilience_iff rp none = ground arith
validate_resilience_iff rp (some r) =
    checks_iff (retry_errors_iff _ r.retries) (breaker_errors_iff _ r.circuit_breaker)

rate_limit_errors_iff :
    (p : FieldPath) (o : Option RateLimitPolicy) → (rate_limit_errors p o ≡ []) ↔ IsRateLimit o
unfolding rate_limit_errors
rate_limit_errors_iff p none = ground arith
rate_limit_errors_iff p (some rl) = ground arith

jwt_errors_iff : (p : FieldPath) (o : Option JwtPolicy) → (jwt_errors p o ≡ []) ↔ IsJwt o
unfolding jwt_errors
jwt_errors_iff p none = ground arith
jwt_errors_iff p (some jwt) = ground arith

-- `validateSecurity` accepts exactly these policies.
pub validate_security_iff :
    (rp : FieldPath) (o : Option SecurityPolicy) → (validate_security rp o ≡ []) ↔ IsSecurity o
unfolding validate_security
validate_security_iff rp none = ground arith
validate_security_iff rp (some s) =
    checks_iff (rate_limit_errors_iff _ s.rate_limit) (jwt_errors_iff _ s.jwt)

canary_errors_iff :
    (p : FieldPath) (o : Option CanaryStrategy) → (canary_errors p o ≡ []) ↔ HasLadder o
canary_errors_iff p none = ground arith
canary_errors_iff p (some c) = validate_ascending_iff _ c.steps

-- What is asked of a CANARY rule, whose strategy lies at `sp`.
canary_rule_errors_iff :
    (rp sp : FieldPath) (r : RouteRule)
    → (canary_rule_errors rp sp r ≡ []) ↔ ((2 ≤ length r.versions) × HasLadder r.strategy.canary)
unfolding canary_rule_errors
canary_rule_errors_iff rp sp r =
    let count : (error_if (ltb (length r.versions) 2) _ ≡ []) ↔ (2 ≤ length r.versions) =
      ground arith in
    checks_iff count (canary_errors_iff sp r.strategy.canary)

blue_green_rule_errors_iff :
    (rp : FieldPath) (r : RouteRule) → (blue_green_rule_errors rp r ≡ []) ↔ (length r.versions ≡ 2)
unfolding blue_green_rule_errors
blue_green_rule_errors_iff rp r = ground arith

module _ (rp : FieldPath) (r : RouteRule) where
  validate_strategy_sound : validate_strategy rp r ≡ [] → IsStrategy r.strategy r.versions
  unfolding validate_strategy
  validate_strategy_sound h = elim (Bool-cases (is_nil r.strategy.kind)) [
    | inl e ↦ unset ((is_nil_iff _).0 e)
    | inr named ↦ elim (Bool-cases (str_eq r.strategy.kind strategy_weighted)) [
      | inl e ↦ weighted ((str_eq_iff _ _).0 e)
      | inr not_weighted ↦ elim (Bool-cases (str_eq r.strategy.kind strategy_canary)) [
        | inl e ↦
            let (two, ladder) =
              (canary_rule_errors_iff rp _ r).0 (rw (named, not_weighted, e) at h) in
            canary ((str_eq_iff _ _).0 e) two ladder
        | inr not_canary ↦ elim (Bool-cases (str_eq r.strategy.kind strategy_blue_green)) [
          | inl e ↦
              blue_green ((str_eq_iff _ _).0 e)
                ((blue_green_rule_errors_iff rp r).0 (rw (named, not_weighted, not_canary, e) at h))
          | inr other ↦ ground arith
        ]
      ]
    ]
  ]

  validate_strategy_complete : IsStrategy r.strategy r.versions → validate_strategy rp r ≡ []
  unfolding validate_strategy str_eq
  validate_strategy_complete (unset e) = rw e
  validate_strategy_complete (weighted e) = rw e
  validate_strategy_complete (canary e two ladder) =
      simp e ((canary_rule_errors_iff rp _ r).1 (two, ladder))
  validate_strategy_complete (blue_green e two) = simp e ((blue_green_rule_errors_iff rp r).1 two)

  -- `validateStrategy` accepts a rule exactly when its strategy is one of `IsStrategy`.
  pub validate_strategy_iff : (validate_strategy rp r ≡ []) ↔ IsStrategy r.strategy r.versions
  validate_strategy_iff = (validate_strategy_sound, validate_strategy_complete)
