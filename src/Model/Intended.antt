-- ===== src/Model/Intended.antt =====
-- The weight that a version's servers carry together, for any declared weight.
use kubetraffic.Prelude.{
  Str, ℕ, zero, suc, ◌*◌, ◌≤◌, ◌≡◌, refl, ap, ◌∙◌, List, [], ◌∷◌, length, sum, replicate, is_empty,
  false, arith, All, ◌++◌,
}
use kubetraffic.Prelude.Int.{ℤ, pos, negsuc}
use kubetraffic.Api.{RouteRule}
use kubetraffic.Discovery.{EndpointSet}
use kubetraffic.Model.{Server, apportion, spec_weight, servers_from, version_servers, all_servers}
use kubetraffic.Model.Shares.{sum-apportion}
use kubetraffic.Model.Servers.{weights, addresses, version_servers_parts}
use Prim.Native.Nat.{min, max}

-- Nothing where the weight is not positive; else the weight, raised to one and cut to 256 for each
-- server.
abbrev pub intended : ℤ → ℕ → ℕ
intended (pos zero) n = 0
intended (pos (suc w)) n = min (max (suc w) n) (n * 256)
intended (negsuc w) n = 0

sum-replicate_zero : (n : ℕ) → sum (replicate n 0) ≡ 0
sum-replicate_zero zero = refl
sum-replicate_zero (suc n) = omega (arith, sum-replicate_zero n)

sum-apportion-intended : (w : ℤ) (n : ℕ) → 1 ≤ n → sum (apportion w n) ≡ intended w n
unfolding apportion
sum-apportion-intended (pos zero) n h = ground (arith, sum-replicate_zero n)
sum-apportion-intended (pos (suc w)) n h = sum-apportion (suc w) n (omega arith) h
sum-apportion-intended (negsuc w) n h = ground (arith, sum-replicate_zero n)

length_pos : (xs : List Str) → is_empty xs ≡ false → 1 ≤ length xs
length_pos [] e = cc
length_pos (x ∷ xs) e = omega arith

-- The servers of a version that has addresses: one at each, in order, at the port, and together
-- they carry what is intended.
pub record IsCarried (rule : RouteRule) (port : ℤ) (es : EndpointSet) (own : List Server)
    : Type 0 where
  pub full : is_empty es.addresses ≡ false
  pub at_addresses : addresses own ≡ es.addresses
  pub at_port : All (λ (s : Server). (s.version ≡ es.version) × (s.port ≡ port)) own
  pub weight : sum (weights own) ≡ intended (spec_weight rule es.version) (length es.addresses)

-- Servers that fall into parts, one for each version.
abbrev pub AreCarried : RouteRule → ℤ → List EndpointSet → List Server → Type 0
AreCarried rule port [] ss = ss ≡ []
AreCarried rule port (es ∷ rest) ss =
    (own : List Server) × (others : List Server) × (ss ≡ own ++ others)
    × IsCarried rule port es own
    × AreCarried rule port rest others

servers_from-port :
    (port : ℤ) (version : Str) (j : ℕ) (ws : List ℕ) (as' : List Str)
    → All
        (λ (s : Server). (s.version ≡ version) × (s.port ≡ port))
        (servers_from port version j ws as')
unfolding servers_from
servers_from-port port version j ws [] = tt
servers_from-port port version j [] (a ∷ rest) = tt
servers_from-port port version j (w ∷ ws) (a ∷ rest) =
    ((refl, refl), servers_from-port port version (suc j) ws rest)

version_servers-IsCarried :
    (rule : RouteRule) (port : ℤ) (es : EndpointSet)
    → is_empty es.addresses ≡ false
    → IsCarried rule port es (version_servers rule port es)
version_servers-IsCarried rule port es full =
    let n = length es.addresses in
    let (as', ws) = version_servers_parts rule port es in
    record {
      full = full;
      at_addresses = as';
      at_port = unfold version_servers in servers_from-port port es.version 0 _ es.addresses;
      weight =
          ap sum ws
          ∙ sum-apportion-intended (spec_weight rule es.version) n (length_pos es.addresses full);
    }

pub all_servers-AreCarried :
    (rule : RouteRule) (port : ℤ) (sets : List EndpointSet)
    → All (λ (es : EndpointSet). is_empty es.addresses ≡ false) sets
    → AreCarried rule port sets (all_servers rule port sets)
unfolding all_servers
all_servers-AreCarried rule port [] h = refl
all_servers-AreCarried rule port (es ∷ rest) h = (
  version_servers rule port es,
  all_servers rule port rest,
  refl,
  version_servers-IsCarried rule port es h.0,
  all_servers-AreCarried rule port rest h.1,
)
