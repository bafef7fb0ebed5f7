-- ===== src/Controller/Weights/PassThrough.antt =====
-- Weights that the control plane sends back unchanged change nothing.
use kubetraffic.Prelude.{
  Str, str_eq_iff, str_eq_refl, Dict, lookup, lookup-insert, insert, or_else, some, List, [], ◌∷◌,
  map, All, Distinct, Differs, arith, ◌≡◌, refl, ap, ◌∙◌, Bool-cases, Option-cases, is_empty, inl,
  inr, none,
}
use kubetraffic.Prelude.Int.{ℤ, pos}
use kubetraffic.Api.{TrafficRoute, RouteRule, BackendVersion}
use kubetraffic.Webhook.Versions.{names, IsSplit}
use kubetraffic.Webhook.Routes.{paths, IsRule, IsWellFormed}
use kubetraffic.ControlPlane.{
  wire_version, wire_rule, copy_weight, copy_rule, build_route_spec, pass_through_config,
}
use kubetraffic.ControlPlane.Wire.{WeightEntry, RuleWeights, RouteConfig}
use kubetraffic.Controller.Helpers.{route_path}
use kubetraffic.Controller.Weights.{
  index_weights, index_rules, set_weight, override_rule, apply_effective_weights, Option,
}

-- The entries that come back for a list of versions, and for a list of rules.
entries : List BackendVersion → List WeightEntry
entries vs = map copy_weight (map wire_version vs)

rule_entries : List RouteRule → List RuleWeights
rule_entries rs = map copy_rule (map wire_rule rs)

lookup-index_weights :
    (m : Dict ℤ) (x : Str) (vs : List BackendVersion)
    → Differs x (names vs)
    → lookup x (index_weights m (entries vs)) ≡ lookup x m
unfolding entries index_weights copy_weight wire_version
lookup-index_weights m x [] h = refl
lookup-index_weights m x (v ∷ vs) (ne, h) =
    lookup-index_weights (insert v.name v.weight m) x vs h
    ∙ (lookup-insert v.name x v.weight m ∙ ground (arith, str_eq_iff v.name x))

set_weight-own :
    (m : Dict ℤ) (vs : List BackendVersion)
    → Distinct (names vs)
    → All (λ v. set_weight (index_weights m (entries vs)) v ≡ v) vs
unfolding set_weight entries index_weights copy_weight wire_version
set_weight-own m [] h = tt
set_weight-own m (v ∷ vs) (ne, h) =
    let here : lookup v.name (index_weights (insert v.name v.weight m) (entries vs))
        ≡ some v.weight =
      lookup-index_weights (insert v.name v.weight m) v.name vs ne
      ∙ (lookup-insert v.name v.name v.weight m ∙ ground (arith, str_eq_refl v.name)) in
    (
      ap (λ o. record v { weight = or_else o v.weight }) here,
      set_weight-own (insert v.name v.weight m) vs h,
    )

map-of_All {ℓ} : {A : Type ℓ} (f : A → A) (xs : List A) → All (λ x. f x ≡ x) xs → map f xs ≡ xs
map-of_All f [] h = refl
map-of_All f (x ∷ xs) (e, h) = λ i. e i ∷ map-of_All f xs h i

lookup-index_rules :
    (m : Dict (Dict ℤ)) (p : Str) (rs : List RouteRule)
    → Differs p (paths rs)
    → lookup p (index_rules m (rule_entries rs)) ≡ lookup p m
unfolding rule_entries index_rules copy_rule wire_rule
lookup-index_rules m p [] h = refl
lookup-index_rules m p (r ∷ rs) (ne, h) =
    let own = index_weights [] (map copy_weight (map wire_version r.versions)) in
    lookup-index_rules (insert (route_path r) own m) p rs h
    ∙ (lookup-insert (route_path r) p own m ∙ ground (arith, str_eq_iff (route_path r) p))

-- A rule stays as it is where its path is listed with weights that change no version.
override_rule-same :
    (by_path : Dict (Dict ℤ)) (r : RouteRule) (w : Dict ℤ)
    → lookup (route_path r) by_path ≡ some w
    → All (λ v. set_weight w v ≡ v) r.versions
    → override_rule by_path r ≡ r
unfolding override_rule
override_rule-same by_path r w found same = elim (Bool-cases (is_empty r.versions)) [
  | inl none_declared ↦ rw none_declared
  | inr declared ↦
      rw (declared, found)
        (ap (λ vs. record r { versions = vs }) (map-of_All (set_weight w) r.versions same))
]

abbrev DistinctVersions : RouteRule → Type 0
DistinctVersions r = Distinct (names r.versions)

override_rule-own :
    (m : Dict (Dict ℤ)) (rs : List RouteRule)
    → Distinct (paths rs)
    → All DistinctVersions rs
    → All (λ r. override_rule (index_rules m (rule_entries rs)) r ≡ r) rs
unfolding entries rule_entries index_rules copy_rule wire_rule
override_rule-own m [] h k = tt
override_rule-own m (r ∷ rs) (ne, h) (d, k) =
    let own = index_weights [] (map copy_weight (map wire_version r.versions)) in
    let here : lookup (route_path r) (index_rules (insert (route_path r) own m) (rule_entries rs))
        ≡ some own =
      lookup-index_rules (insert (route_path r) own m) (route_path r) rs ne
      ∙ (lookup-insert (route_path r) (route_path r) own m
          ∙ ground (arith, str_eq_refl (route_path r))) in
    (
      override_rule-same (index_rules (insert (route_path r) own m) (rule_entries rs)) r own here
          (set_weight-own [] r.versions d),
      override_rule-own (insert (route_path r) own m) rs h k,
    )

-- Where paths and version names are distinct, the configuration that the control plane builds from
-- the route's own spec leaves every rule as it is.
pub apply_effective_weights-pass_through :
    (tr : TrafficRoute) (generation : ℤ)
    → Distinct (paths tr.spec.routes)
    → All DistinctVersions tr.spec.routes
    → apply_effective_weights tr.spec.routes
        (some (pass_through_config (build_route_spec tr) generation))
      ≡ tr.spec.routes
unfolding apply_effective_weights pass_through_config build_route_spec
apply_effective_weights-pass_through tr generation h k =
    map-of_All _ tr.spec.routes (unfold rule_entries in override_rule-own [] tr.spec.routes h k)

split_names : (vs : List BackendVersion) → IsSplit vs → Distinct (names vs)
split_names [] h = tt
split_names (v ∷ vs) h = h.1

rules_names : (rs : List RouteRule) → All IsRule rs → All DistinctVersions rs
rules_names [] h = tt
rules_names (r ∷ rs) (v, h) = (split_names r.versions v.versions, rules_names rs h)

-- For a well-formed route, the configuration that passes its spec through, at any generation,
-- leaves the rules as they are.
pub apply_effective_weights-IsWellFormed :
    (tr : TrafficRoute) (generation : ℤ)
    → IsWellFormed tr
    → apply_effective_weights tr.spec.routes
        (some (pass_through_config (build_route_spec tr) generation))
      ≡ tr.spec.routes
apply_effective_weights-IsWellFormed tr generation v =
    apply_effective_weights-pass_through tr generation v.distinct_paths
      (rules_names tr.spec.routes v.rules)

abbrev pub unweighted : BackendVersion → BackendVersion
unweighted v = record v { weight = pos 0 }

-- Only the weights of `q` may differ from those of `r`.
abbrev pub SameButWeights : RouteRule → RouteRule → Type 0
SameButWeights r q =
    (q.path ≡ r.path)
    × (q.backend ≡ r.backend)
    × (map unweighted q.versions ≡ map unweighted r.versions)
    × (q.strategy ≡ r.strategy)
    × (q.resilience ≡ r.resilience)
    × (q.security ≡ r.security)
    × (q.health ≡ r.health)

abbrev pub AllSameButWeights : List RouteRule → List RouteRule → Type 0
AllSameButWeights [] [] = Unit
AllSameButWeights (r ∷ rs) (q ∷ qs) = SameButWeights r q × AllSameButWeights rs qs
AllSameButWeights _ _ = ⊥

unweighted-set_weight :
    (w : Dict ℤ) (vs : List BackendVersion)
    → map unweighted (map (set_weight w) vs) ≡ map unweighted vs
unfolding set_weight
unweighted-set_weight w [] = refl
unweighted-set_weight w (v ∷ vs) = ap (λ t. unweighted v ∷ t) (unweighted-set_weight w vs)

override_rule-SameButWeights :
    (by_path : Dict (Dict ℤ)) (r : RouteRule) → SameButWeights r (override_rule by_path r)
unfolding override_rule
override_rule-SameButWeights by_path r = elim (Bool-cases (is_empty r.versions)) [
  | inl none_declared ↦ rw none_declared (refl, refl, refl, refl, refl, refl, refl)
  | inr declared ↦ elim (Option-cases (lookup (route_path r) by_path)) [
    | inl missing ↦ rw (declared, missing) (refl, refl, refl, refl, refl, refl, refl)
    | inr (w, e) ↦
        rw (declared, e) (refl, refl, unweighted-set_weight w r.versions, refl, refl, refl, refl)
  ]
]

map-SameButWeights :
    (by_path : Dict (Dict ℤ)) (rs : List RouteRule)
    → AllSameButWeights rs (map (override_rule by_path) rs)
map-SameButWeights by_path [] = tt
map-SameButWeights by_path (r ∷ rs) =
    (override_rule-SameButWeights by_path r, map-SameButWeights by_path rs)

AllSameButWeights-refl : (rs : List RouteRule) → AllSameButWeights rs rs
AllSameButWeights-refl [] = tt
AllSameButWeights-refl (r ∷ rs) =
    ((refl, refl, refl, refl, refl, refl, refl), AllSameButWeights-refl rs)

-- Whatever the control plane sends, it changes nothing of the rules but the weights of their
-- versions: paths, backends, the names and the labels of versions, strategies, and the policies for
-- resilience, security and health stay.
pub apply_effective_weights-SameButWeights :
    (routes : List RouteRule) (cfg : Option RouteConfig)
    → AllSameButWeights routes (apply_effective_weights routes cfg)
unfolding apply_effective_weights
apply_effective_weights-SameButWeights routes none = AllSameButWeights-refl routes
apply_effective_weights-SameButWeights routes (some cfg) =
    map-SameButWeights (index_rules [] cfg.rules) routes
