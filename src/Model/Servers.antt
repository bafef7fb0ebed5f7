-- ===== src/Model/Servers.antt =====
-- What `Build` makes of the endpoints of a rule: every address is a server, with its share.
use mathlib.Core.List.{Perm}
use kubetraffic.Prelude.{
  ℕ, suc, ◌*◌, ◌≤◌, ◌≡◌, refl, ap, ◌∙◌, Str, Dict, lookup, some, List, [], ◌∷◌, ◌++◌, length, sum,
  sort-perm, arith,
}
use kubetraffic.Prelude.Int.{ℤ, pos}
use kubetraffic.Api.{RouteRule}
use kubetraffic.Discovery.{EndpointSet, Resolution}
use kubetraffic.Model.{
  Server, apportion, spec_weight, servers_from, version_servers, all_servers, by_name, rule_path,
  dial_port, build_rule,
}
use kubetraffic.Model.Shares.{length-apportion, sum-apportion}
use Prim.Native.Nat.{min, max}

abbrev pub weights : List Server → List ℕ
weights [] = []
weights (s ∷ rest) = s.weight ∷ weights rest

abbrev pub addresses : List Server → List Str
addresses [] = []
addresses (s ∷ rest) = s.address ∷ addresses rest

weights-servers_from :
    (port : ℤ) (version : Str) (j : ℕ) (ws : List ℕ) (as' : List Str)
    → length ws ≡ length as'
    → weights (servers_from port version j ws as') ≡ ws
unfolding servers_from
weights-servers_from port version j [] [] h = refl
weights-servers_from port version j (w ∷ ws) [] h = absurd (omega arith)
weights-servers_from port version j [] (a ∷ rest) h = absurd (omega arith)
weights-servers_from port version j (w ∷ ws) (a ∷ rest) h =
    ap (λ t. w ∷ t) (weights-servers_from port version (suc j) ws rest (omega arith))

addresses-servers_from :
    (port : ℤ) (version : Str) (j : ℕ) (ws : List ℕ) (as' : List Str)
    → length ws ≡ length as'
    → addresses (servers_from port version j ws as') ≡ as'
unfolding servers_from
addresses-servers_from port version j [] [] h = refl
addresses-servers_from port version j (w ∷ ws) [] h = refl
addresses-servers_from port version j [] (a ∷ rest) h = absurd (omega arith)
addresses-servers_from port version j (w ∷ ws) (a ∷ rest) h =
    ap (λ t. a ∷ t) (addresses-servers_from port version (suc j) ws rest (omega arith))

pub version_servers_parts :
    (rule : RouteRule) (port : ℤ) (es : EndpointSet)
    → (addresses (version_servers rule port es) ≡ es.addresses)
      × (weights (version_servers rule port es)
          ≡ apportion (spec_weight rule es.version) (length es.addresses))
unfolding version_servers
version_servers_parts rule port es =
    let ws = apportion (spec_weight rule es.version) (length es.addresses) in
    let same = length-apportion (spec_weight rule es.version) (length es.addresses) in
    (
      addresses-servers_from port es.version 0 ws es.addresses same,
      weights-servers_from port es.version 0 ws es.addresses same,
    )

-- The servers of a version are its addresses, in order, and their weights sum to the version's
-- declared weight, raised to one and cut to 256 for each server.
pub version_servers_lem :
    (rule : RouteRule) (port : ℤ) (es : EndpointSet) (w : ℕ)
    → spec_weight rule es.version ≡ pos w
    → 1 ≤ w
    → 1 ≤ length es.addresses
    → let n = length es.addresses in
      (addresses (version_servers rule port es) ≡ es.addresses)
      × (sum (weights (version_servers rule port es)) ≡ min (max w n) (n * 256))
version_servers_lem rule port es w e hw hn =
    let n = length es.addresses in
    let (as', ws) = version_servers_parts rule port es in
    (as', ap sum ws ∙ (ap (λ v. sum (apportion v n)) e ∙ sum-apportion w n hw hn))

abbrev pub all_addresses : List EndpointSet → List Str
all_addresses [] = []
all_addresses (es ∷ rest) = es.addresses ++ all_addresses rest

addresses-append : (xs ys : List Server) → addresses (xs ++ ys) ≡ addresses xs ++ addresses ys
addresses-append [] ys = refl
addresses-append (x ∷ xs) ys = ap (λ t. x.address ∷ t) (addresses-append xs ys)

addresses-all_servers :
    (rule : RouteRule) (port : ℤ) (sets : List EndpointSet)
    → addresses (all_servers rule port sets) ≡ all_addresses sets
unfolding all_servers version_servers
addresses-all_servers rule port [] = refl
addresses-all_servers rule port (es ∷ rest) =
    let n = length es.addresses in
    addresses-append (version_servers rule port es) (all_servers rule port rest)
    ∙ (ap (λ t. t ++ addresses (all_servers rule port rest))
          (addresses-servers_from port es.version 0 (apportion (spec_weight rule es.version) n)
            es.addresses (length-apportion (spec_weight rule es.version) n))
        ∙ ap (λ t. es.addresses ++ t) (addresses-all_servers rule port rest))

-- The servers of a rule whose path was resolved are, in some order, those of its versions one
-- version after another; their addresses are all the addresses found, none lost and none added.
pub build_rule_servers :
    (host : Str) (resolutions : Dict Resolution) (rule : RouteRule) (res : Resolution)
    → lookup (rule_path rule.path) resolutions ≡ some res
    → Perm
        (build_rule host resolutions rule).servers
        (all_servers rule (dial_port res rule) res.versions)
      × (addresses (all_servers rule (dial_port res rule) res.versions)
          ≡ all_addresses res.versions)
unfolding build_rule
build_rule_servers host resolutions rule res e =
    (rw e (sort-perm by_name _), addresses-all_servers rule (dial_port res rule) res.versions)
