-- ===== src/Webhook/Routes.antt =====
-- `ValidateTrafficRoute` accepts exactly the well-formed routes, and the admission handlers admit
-- exactly those.
use kubetraffic.Prelude.{
  Option, none, some, refl, if◌then◌else◌, ℕ, suc, ◌≡◌, ◌≢◌, ◌↔◌, Str, bytes, has_prefix, is_blank,
  contains, List, [], ◌∷◌, All, Distinct, is_empty, FreshAfter, FreshAfter-nil, checks_iff, arith,
  true, false,
}
use kubetraffic.Prelude.Int.{pos, ◌≤ℤ◌}
use kubetraffic.Api.{TrafficRoute, RouteRule}
use kubetraffic.Webhook.{
  broken_rules, validate_update, validate_create, error_if, effective_path, out_of_range,
  rule_errors, check_rule, check_rules, validate_traffic_route,
}
use kubetraffic.Webhook.Errors.{FieldPath, FieldError}
use kubetraffic.Webhook.Versions.{IsShort, IsSplit, validate_versions_iff}
use kubetraffic.Webhook.Policies.{
  IsStrategy, IsResilience, IsSecurity, validate_strategy_iff, validate_resilience_iff,
  validate_security_iff,
}

-- One rule, but for the distinctness of its path.
pub record IsRule (r : RouteRule) : Type 0 where
  pub rooted : has_prefix (effective_path r.path) (bytes "/") ≡ true
  pub named : is_blank r.backend.service ≡ false
  pub port_low : pos 1 ≤ℤ r.backend.port
  pub port_high : r.backend.port ≤ℤ pos 65535
  pub versions : IsSplit r.versions
  pub strategy : IsStrategy r.strategy r.versions
  pub resilience : IsResilience r.resilience
  pub security : IsSecurity r.security

abbrev pub paths : List RouteRule → List Str
paths [] = []
paths (r ∷ rs) = effective_path r.path ∷ paths rs

abbrev pub AllShort : List RouteRule → Type 0
AllShort [] = Unit
AllShort (r ∷ rs) = IsShort r.versions × AllShort rs

pub record IsWellFormed (tr : TrafficRoute) : Type 0 where
  pub has_host : is_blank tr.spec.host ≡ false
  pub has_routes : tr.spec.routes ≢ []
  pub distinct_paths : Distinct (paths tr.spec.routes)
  pub rules : All IsRule tr.spec.routes

abbrev HasOwnParts : List Str → RouteRule → Type 0
HasOwnParts seen r =
    (has_prefix (effective_path r.path) (bytes "/") ≡ true)
    × (contains (effective_path r.path) seen ≡ false)
    × (is_blank r.backend.service ≡ false)
    × (pos 1 ≤ℤ r.backend.port)
    × (r.backend.port ≤ℤ pos 65535)

rule_errors_iff :
    (rp : FieldPath) (seen : List Str) (r : RouteRule)
    → (rule_errors rp seen r ≡ []) ↔ HasOwnParts seen r
unfolding rule_errors out_of_range
rule_errors_iff rp seen r = ground arith

check_rule_iff :
    (rp : FieldPath) (seen : List Str) (r : RouteRule)
    → IsShort r.versions
    → (check_rule rp seen r ≡ []) ↔ ((contains (effective_path r.path) seen ≡ false) × IsRule r)
unfolding check_rule
check_rule_iff rp seen r short =
    let parts =
      checks_iff
        (checks_iff
          (checks_iff (checks_iff (rule_errors_iff rp seen r) (validate_versions_iff rp r short))
            (validate_strategy_iff rp r))
          (validate_resilience_iff rp r.resilience))
        (validate_security_iff rp r.security) in
    (
      (λ e.
          let ((((own, vs), st), re), se) = parts.0 e in
          (
            own.1,
            record {
              rooted = own.0;
              named = own.2;
              port_low = own.3;
              port_high = own.4;
              versions = vs;
              strategy = st;
              resilience = re;
              security = se;
            },
          )),
      (λ (fresh, v). parts.1 (
        (
          (((v.rooted, fresh, v.named, v.port_low, v.port_high), v.versions), v.strategy),
          v.resilience,
        ),
        v.security,
      )),
    )

check_rules_iff :
    (p : FieldPath) (i : ℕ) (seen : List Str) (rs : List RouteRule)
    → AllShort rs
    → (check_rules p i seen rs ≡ []) ↔ (FreshAfter seen (paths rs) × All IsRule rs)
unfolding check_rules
check_rules_iff p i seen [] short = ground arith
check_rules_iff p i seen (r ∷ rs) (short, shorts) =
    let both =
      checks_iff (check_rule_iff _ seen r short)
        (check_rules_iff p (suc i) (effective_path r.path ∷ seen) rs shorts) in
    (
      (λ e. let ((fresh, v), (later, vs)) = both.0 e in ((fresh, later), (v, vs))),
      (λ ((fresh, later), (v, vs)). both.1 ((fresh, v), (later, vs))),
    )

host_errors_iff :
    (e : FieldError) (host : Str) → (error_if (is_blank host) e ≡ []) ↔ (is_blank host ≡ false)
host_errors_iff e host = ground arith

routes_errors_iff :
    (e : FieldError) (rs : List RouteRule) → (error_if (is_empty rs) e ≡ []) ↔ (rs ≢ [])
routes_errors_iff e [] = ground arith
routes_errors_iff e (r ∷ rs) = ground arith

-- A route whose rules have few enough versions passes `ValidateTrafficRoute` exactly when it is
-- well formed: a host, at least one rule, distinct paths, and every rule as `IsRule` describes it.
pub validate_traffic_route_iff :
    (tr : TrafficRoute)
    → AllShort tr.spec.routes
    → (validate_traffic_route tr ≡ []) ↔ IsWellFormed tr
unfolding validate_traffic_route
validate_traffic_route_iff tr short =
    let all =
      checks_iff (checks_iff (host_errors_iff _ tr.spec.host) (routes_errors_iff _ tr.spec.routes))
        (check_rules_iff _ 0 [] tr.spec.routes short) in
    (
      (λ e.
          let ((host, nonempty), (fresh, rules)) = all.0 e in
          record {
            has_host = host;
            has_routes = nonempty;
            distinct_paths = (FreshAfter-nil _).0 fresh;
            rules = rules;
          }),
      (λ v. all.1 ((v.has_host, v.has_routes), ((FreshAfter-nil _).1 v.distinct_paths, v.rules))),
    )

some≢none : {A : Type 0} {a : A} → some a ≢ none
some≢none e = cc

cons≢nil : {A : Type 0} {x : A} {xs : List A} → x ∷ xs ≢ []
cons≢nil e = cc

accepted_iff :
    {tr : TrafficRoute} (name : Str) (e : List FieldError)
    → (e ≡ []) ↔ IsWellFormed tr
    → ((if is_empty e then none else some (broken_rules name e)) ≡ none) ↔ IsWellFormed tr
accepted_iff name [] h = ((λ _. h.0 refl), (λ _. refl))
accepted_iff name (x ∷ xs) h = ((λ e. absurd (some≢none e)), (λ v. absurd (cons≢nil (h.1 v))))

-- A create or an update is admitted exactly when the new route is well formed.
pub validate_update-IsWellFormed :
    (old : Option TrafficRoute) (tr : TrafficRoute)
    → AllShort tr.spec.routes
    → (((validate_update old (some tr)).rejected ≡ none) ↔ IsWellFormed tr)
      × (((validate_create (some tr)).rejected ≡ none) ↔ IsWellFormed tr)
unfolding validate_update validate_create
validate_update-IsWellFormed old tr short =
    let admitted =
      accepted_iff tr.name (validate_traffic_route tr) (validate_traffic_route_iff tr short) in
    (admitted, admitted)
