-- ===== src/Model/ServerNames.antt =====
-- The names of the servers of one rule do not repeat, so a proxy section can hold them all.
use kubetraffic.Prelude.{
  ℕ, suc, ◌≤◌, ◌≡◌, refl, sym, ap, ◌≢◌, inl, inr, Bool, some, List, [], ◌∷◌, ◌++◌, map, arith,
  if◌then◌else◌, Bool-cases, Str, is_empty, All, Dict, lookup, decimal, decimal_injective,
  decimal-IsDigit, IsDigit, Differs, Distinct, All-append, sort, insert_sorted,
}
use kubetraffic.Prelude.Int.{ℤ}
use kubetraffic.Discovery.Order.{set_versions, reported}
use mathlib.Core.Path.{subst}
use kubetraffic.Webhook.Versions.{IsSplit, names, IsNamed}
use kubetraffic.Api.{RouteRule, BackendVersion}
use kubetraffic.Model.Records.{Server}
use kubetraffic.Model.Naming.{server_name, server_prefix}
use kubetraffic.Model.{
  servers_from, all_servers, version_servers, EndpointSet, build_rule, Resolution, rule_path,
  by_name, dial_port,
}

abbrev pub server_names : List Server → List Str
server_names [] = []
server_names (s ∷ rest) = s.name ∷ server_names rest

abbrev pub prefixes : List Str → List Str
prefixes = map server_prefix

-- A dash is no digit, so the last dash of a name ends its prefix.
no_dash : (ds q es : Str) → All IsDigit ds → ds ≢ q ++ 45 ∷ es
no_dash [] [] es h e = cc
no_dash [] (b ∷ q) es h e = cc
no_dash (d ∷ ds) [] es h e = ground arith
no_dash (d ∷ ds) (b ∷ q) es h e = no_dash ds q es h.1 (cc)

split_dash :
    (p q ds es : Str)
    → All IsDigit ds
    → All IsDigit es
    → p ++ 45 ∷ ds ≡ q ++ 45 ∷ es
    → (p ≡ q) × (ds ≡ es)
split_dash [] [] ds es h k e = (refl, cc)
split_dash [] (b ∷ q) ds es h k e = absurd (no_dash ds q es h (cc))
split_dash (a ∷ p) [] ds es h k e = absurd (no_dash es p ds k (cc))
split_dash (a ∷ p) (b ∷ q) ds es h k e =
    let (same, rest) = split_dash p q ds es h k (cc) in (cc, rest)

server_name_injective :
    (v w : Str) (i j : ℕ)
    → server_name v i ≡ server_name w j
    → (server_prefix v ≡ server_prefix w) × (i ≡ j)
unfolding server_name
server_name_injective v w i j e =
    let (same, digits) =
      split_dash (server_prefix v) (server_prefix w) (decimal i) (decimal j) (decimal-IsDigit i)
        (decimal-IsDigit j) e in
    (same, decimal_injective i j digits)

module _ (P : Str → Type 0) (port : ℤ) (version : Str) where
  names-servers_from :
      (j : ℕ) (ws : List ℕ) (as' : List Str)
      → ((k : ℕ) → j ≤ k → P (server_name version k))
      → All P (server_names (servers_from port version j ws as'))
  unfolding servers_from
  names-servers_from j ws [] h = tt
  names-servers_from j [] (a ∷ rest) h = tt
  names-servers_from j (w ∷ ws) (a ∷ rest) h =
      (h j (omega arith), names-servers_from (suc j) ws rest (λ k l. h k (omega arith)))

Distinct-servers_from :
    (port : ℤ) (version : Str) (j : ℕ) (ws : List ℕ) (as' : List Str)
    → Distinct (server_names (servers_from port version j ws as'))
unfolding servers_from
Distinct-servers_from port version j ws [] = tt
Distinct-servers_from port version j [] (a ∷ rest) = tt
Distinct-servers_from port version j (w ∷ ws) (a ∷ rest) = (
  names-servers_from (λ y. server_name version j ≢ y) port version (suc j) ws rest
      (λ k l e. let same = (server_name_injective version version j k e).1 in omega arith),
  Distinct-servers_from port version (suc j) ws rest,
)

Distinct-append :
    (xs ys : List Str)
    → Distinct xs
    → Distinct ys
    → All (λ x. Differs x ys) xs
    → Distinct (xs ++ ys)
Distinct-append [] ys h k a = k
Distinct-append (x ∷ xs) ys h k a =
    (All-append (λ y. x ≢ y) xs ys h.0 a.0, Distinct-append xs ys h.1 k a.1)

names-append : (xs ys : List Server) → server_names (xs ++ ys) ≡ server_names xs ++ server_names ys
names-append [] ys = refl
names-append (x ∷ xs) ys = ap (λ t. x.name ∷ t) (names-append xs ys)

module _ (rule : RouteRule) (port : ℤ) where
  Differs-all_servers :
      (v : Str) (i : ℕ) (sets : List EndpointSet)
      → Differs (server_prefix v) (prefixes (set_versions sets))
      → Differs (server_name v i) (server_names (all_servers rule port sets))
  unfolding all_servers version_servers
  Differs-all_servers v i [] h = tt
  Differs-all_servers v i (es ∷ rest) h = rw names-append (
      All-append (λ y. server_name v i ≢ y) _ _
        (names-servers_from (λ y. server_name v i ≢ y) port es.version 0 _ es.addresses
          (λ k l e. h.0 (server_name_injective v es.version i k e).0))
        (Differs-all_servers v i rest h.1))

  Distinct-all_servers :
      (sets : List EndpointSet)
      → Distinct (prefixes (set_versions sets))
      → Distinct (server_names (all_servers rule port sets))
  unfolding all_servers version_servers
  Distinct-all_servers [] h = tt
  Distinct-all_servers (es ∷ rest) h = rw names-append (
      Distinct-append _ _ (Distinct-servers_from port es.version 0 _ es.addresses)
        (Distinct-all_servers rest h.1)
        (names-servers_from (λ x. Differs x (server_names (all_servers rule port rest))) port
          es.version 0 _ es.addresses (λ k l. Differs-all_servers es.version k rest h.0)))

module _ (less : Server → Server → Bool) where
  Differs-insert :
      (n : Str) (x : Server) (ys : List Server)
      → Differs n (server_names (x ∷ ys))
      → Differs n (server_names (insert_sorted less x ys))
  unfolding insert_sorted
  Differs-insert n x [] h = h
  Differs-insert n x (y ∷ ys) h = elim (Bool-cases (less x y)) [
    | inl e ↦ rw e h
    | inr e ↦ rw e (h.1.0, Differs-insert n x ys (h.0, h.1.1))
  ]

  Distinct-insert :
      (x : Server) (ys : List Server)
      → Distinct (server_names (x ∷ ys))
      → Distinct (server_names (insert_sorted less x ys))
  unfolding insert_sorted
  Distinct-insert x [] h = h
  Distinct-insert x (y ∷ ys) h = elim (Bool-cases (less x y)) [
    | inl e ↦ rw e h
    | inr e ↦ rw e (
      Differs-insert y.name x ys ((λ same. h.0.0 (sym same)), h.1.0),
      Distinct-insert x ys (h.0.1, h.1.1),
    )
  ]

  Differs-sort :
      (n : Str) (xs : List Server)
      → Differs n (server_names xs)
      → Differs n (server_names (sort less xs))
  unfolding sort
  Differs-sort n [] h = tt
  Differs-sort n (x ∷ xs) h = Differs-insert n x (sort less xs) (h.0, Differs-sort n xs h.1)

  Distinct-sort :
      (xs : List Server) → Distinct (server_names xs) → Distinct (server_names (sort less xs))
  unfolding sort
  Distinct-sort [] h = tt
  Distinct-sort (x ∷ xs) h =
      Distinct-insert x (sort less xs) (Differs-sort x.name xs h.0, Distinct-sort xs h.1)

-- A name that is not empty is its own prefix.
prefixes-names : (vs : List BackendVersion) → All IsNamed vs → prefixes (names vs) ≡ names vs
prefixes-names [] h = refl
prefixes-names (v ∷ vs) h =
    rw (prefixes-names vs h.1) (ap (λ t. t ∷ names vs) (prefix-named v.name h.0))
  where
    prefix-named : (n : Str) → n ≢ [] → server_prefix n ≡ n
    prefix-named [] b = absurd (b refl)
    prefix-named (a ∷ n) b = refl

pub Distinct-reported :
    (rule : RouteRule) → IsSplit rule.versions → Distinct (prefixes (reported rule))
Distinct-reported rule = of_versions rule.versions
  where
    of_versions :
        (vs : List BackendVersion)
        → IsSplit vs
        → Distinct (prefixes (if is_empty vs then [] ∷ [] else names vs))
    of_versions [] h = (tt, tt)
    of_versions (v ∷ vs) h = subst Distinct (sym (prefixes-names (v ∷ vs) h.0)) h.1

pub build_rule-Distinct_servers :
    (host : Str) (resolutions : Dict Resolution) (rule : RouteRule) (res : Resolution)
    → lookup (rule_path rule.path) resolutions ≡ some res
    → Distinct (prefixes (set_versions res.versions))
    → Distinct (server_names (build_rule host resolutions rule).servers)
unfolding build_rule
build_rule-Distinct_servers host resolutions rule res e apart =
    rw e
      (Distinct-sort by_name _ (Distinct-all_servers rule (dial_port res rule) res.versions apart))

-- Where the versions of a rule are none or a split over named, distinct versions, and its path was
-- resolved to those versions, no two servers of the rule have the same name.
pub build_rule-Distinct :
    (host : Str) (resolutions : Dict Resolution) (rule : RouteRule) (res : Resolution)
    → lookup (rule_path rule.path) resolutions ≡ some res
    → set_versions res.versions ≡ reported rule
    → IsSplit rule.versions
    → Distinct (server_names (build_rule host resolutions rule).servers)
build_rule-Distinct host resolutions rule res e shown valid =
    build_rule-Distinct_servers host resolutions rule res e
      (rw shown (Distinct-reported rule valid))
