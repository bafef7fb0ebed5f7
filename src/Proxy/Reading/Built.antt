-- ===== src/Proxy/Reading/Built.antt =====
-- The models of `Build`: their names are single words, where those of the spec and of the cluster
-- are, so their texts can be read back.
use mathlib.Core.Path.{subst}
use kubetraffic.Prelude.{
  ℕ, zero, suc, refl, Str, bytes, Option, none, some, List, [], ◌∷◌, ◌++◌, map, All, All-append,
  All-sort, Dict, lookup, or_else, Bool-cases, inl, inr, arith, hex_digits, hex_digit, decimal, ltb,
  ◌/◌, ◌%◌,
}
use kubetraffic.Prelude.Int.{ℤ}
use kubetraffic.Api.{RouteRule, ResiliencePolicy}
use kubetraffic.Discovery.{EndpointSet, Resolution, no_resolution}
use kubetraffic.Model.{
  servers_from, version_servers, all_servers, by_name, dial_port, rule_path, build_rule, build,
  server_name, server_prefix, backend_name, fnv32a, retry_on_token, build_resilience,
}
use kubetraffic.Model.Retries.{IsToken, build_resilience_retry_on}
use kubetraffic.Proxy.Reading.Words.{
  IsInWord, IsWord, IsLine, IsLine-of_test, inner-of_test, decimal-IsWord,
}
use kubetraffic.Proxy.Reading.Plain.{IsPlainServer, HasPlainRetries, IsPlainRule, IsPlainModel}

-- A version whose name holds no blank, with addresses that are single words.
pub record IsPlainSet (es : EndpointSet) : Type 0 where
  pub version : All IsInWord es.version
  pub addresses : All IsWord es.addresses

-- A rule whose path is a single word, and that was resolved to such versions.
pub record IsPlainRoute (resolutions : Dict Resolution) (r : RouteRule) : Type 0 where
  pub path : IsWord (rule_path r.path)
  pub versions :
      All IsPlainSet (or_else (lookup (rule_path r.path) resolutions) no_resolution).versions

append-IsWord : (a b : Str) → All IsInWord a → IsWord b → IsWord (a ++ b)
append-IsWord [] b h k = k
append-IsWord (c ∷ a) b h k = record {
  full = refl;
  inner = All-append IsInWord (c ∷ a) b h k.inner;
}

hex_digit-IsInWord : (d : ℕ) → IsInWord (hex_digit d)
hex_digit-IsInWord d = elim (Bool-cases (ltb d 10)) [
  | inl small ↦ rw small ((λ e. omega (arith, e)), (λ e. omega (arith, e)))
  | inr large ↦ rw large ((λ e. omega (arith, e)), (λ e. omega (arith, e)))
]

hex_digits-inner : (k n : ℕ) → All IsInWord (hex_digits k n)
unfolding hex_digits
hex_digits-inner zero n = tt
hex_digits-inner (suc k) n =
    All-append IsInWord (hex_digits k (n / 16)) _ (hex_digits-inner k (n / 16))
      (hex_digit-IsInWord (n % 16), tt)

backend_name-IsWord : (host path : Str) → IsWord (backend_name host path)
unfolding backend_name
backend_name-IsWord host path = record {
  full = refl;
  inner =
      All-append IsInWord (bytes "kt_be_") _ (inner-of_test (bytes "kt_be_") refl)
        (hex_digits-inner 8 (fnv32a (host ++ 0 ∷ path)));
}

server_prefix-inner : (version : Str) → All IsInWord version → All IsInWord (server_prefix version)
server_prefix-inner [] h = inner-of_test (bytes "ep") refl
server_prefix-inner (c ∷ v) h = h

server_name-IsWord : (version : Str) (j : ℕ) → All IsInWord version → IsWord (server_name version j)
unfolding server_name
server_name-IsWord version j h =
    append-IsWord (server_prefix version) _ (server_prefix-inner version h)
      (append-IsWord (bytes "-") (decimal j) (inner-of_test (bytes "-") refl) (decimal-IsWord j))

servers_from-plain :
    (port : ℤ) (version : Str) (j : ℕ) (ws : List ℕ) (as' : List Str)
    → All IsInWord version
    → All IsWord as'
    → All IsPlainServer (servers_from port version j ws as')
unfolding servers_from
servers_from-plain port version j ws [] h k = tt
servers_from-plain port version j [] (a ∷ rest) h k = tt
servers_from-plain port version j (w ∷ ws) (a ∷ rest) h k = (
  record { name = server_name-IsWord version j h; address = k.0 },
  servers_from-plain port version (suc j) ws rest h k.1,
)

all_servers-plain :
    (rule : RouteRule) (port : ℤ) (sets : List EndpointSet)
    → All IsPlainSet sets
    → All IsPlainServer (all_servers rule port sets)
unfolding all_servers version_servers
all_servers-plain rule port [] h = tt
all_servers-plain rule port (es ∷ rest) h =
    All-append IsPlainServer (version_servers rule port es) _
      (servers_from-plain port es.version 0 _ es.addresses h.0.version h.0.addresses)
      (all_servers-plain rule port rest h.1)

retry_on_token-IsLine : (ro : Str) → IsLine (retry_on_token ro)
unfolding retry_on_token
retry_on_token-IsLine ro = IsLine-of_test (retry_on_token ro) (ground arith)

tokens-AllLine : (ts : List Str) → All IsToken ts → All IsLine ts
tokens-AllLine [] h = tt
tokens-AllLine (t ∷ ts) ((ro, e, full), h) =
    (subst IsLine e (retry_on_token-IsLine ro), tokens-AllLine ts h)

build_resilience-plain : (o : Option ResiliencePolicy) → HasPlainRetries (build_resilience o)
unfolding build_resilience
build_resilience-plain none = tt
build_resilience-plain (some r) = tokens-AllLine _ (build_resilience_retry_on r _ refl).1

module _ (host : Str) (resolutions : Dict Resolution) where
  build_rule-IsPlainRule :
      (r : RouteRule) → IsPlainRoute resolutions r → IsPlainRule (build_rule host resolutions r)
  unfolding build_rule
  build_rule-IsPlainRule r h =
      let res = or_else (lookup (rule_path r.path) resolutions) no_resolution in
      record {
        path = h.path;
        backend_name = backend_name-IsWord host (rule_path r.path);
        servers =
            All-sort by_name IsPlainServer _
              (all_servers-plain r (dial_port res r) res.versions h.versions);
        retries = build_resilience-plain r.resilience;
      }

  rules-AllPlain :
      (routes : List RouteRule)
      → All (IsPlainRoute resolutions) routes
      → All IsPlainRule (map (build_rule host resolutions) routes)
  rules-AllPlain [] h = tt
  rules-AllPlain (r ∷ rs) h = (build_rule-IsPlainRule r h.0, rules-AllPlain rs h.1)

-- The model that `Build` makes of such rules can be read back.
pub build-IsPlainModel :
    (host : Str) (routes : List RouteRule) (resolutions : Dict Resolution)
    → IsWord host
    → All (IsPlainRoute resolutions) routes
    → IsPlainModel (build host routes resolutions)
unfolding build
build-IsPlainModel host routes resolutions word h = record {
  host = word;
  rules = rules-AllPlain host resolutions routes h;
}
