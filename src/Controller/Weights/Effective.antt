-- ===== src/Controller/Weights/Effective.antt =====
-- The weights that a version has in effect, by the message of the control plane.
use kubetraffic.Prelude.{
  ◌≡◌, refl, ap, ◌∙◌, inl, inr, true, Option, none, some, List, [], ◌∷◌, map, arith, if◌then◌else◌,
  Bool-cases, or_else, Str, str_eq, is_empty, Dict, lookup, insert, contains, lookup-insert,
  str_eq_sound, str_eq_refl, All,
}
use kubetraffic.Prelude.Int.{ℤ, pos}
use kubetraffic.Api.{BackendVersion, RouteRule}
use kubetraffic.Webhook.Versions.{names}
use kubetraffic.Model.{declared_weight, spec_weight}
use kubetraffic.ControlPlane.Wire.{WeightEntry, RuleWeights, RouteConfig}
use kubetraffic.Controller.Weights.{
  index_weights, index_rules, set_weight, apply_effective_weights, override_rule, route_path,
}

-- The first of two options that there is.
abbrev either {ℓ} : {A : Type ℓ} → Option A → Option A → Option A
either none d = d
either (some a) d = some a

either-none {ℓ} : {A : Type ℓ} (o : Option A) → either o none ≡ o
either-none none = refl
either-none (some a) = refl

-- The last entry for a version, and the entries of the last rule for a path.
abbrev pub last_weight : Str → List WeightEntry → Option ℤ
last_weight v [] = none
last_weight v (w ∷ rest) =
    either (last_weight v rest) (if str_eq w.version v then some w.weight else none)

abbrev pub last_rule : Str → List RuleWeights → Option (List WeightEntry)
last_rule path [] = none
last_rule path (r ∷ rest) =
    either (last_rule path rest) (if str_eq r.path path then some r.weights else none)

-- The weight that a message gives a version of the rule at a path, if it gives one.
abbrev weight_in : Option (List WeightEntry) → Str → Option ℤ
weight_in none v = none
weight_in (some ws) v = last_weight v ws

abbrev pub sent_weight : RouteConfig → Str → Str → Option ℤ
sent_weight cfg path v = weight_in (last_rule path cfg.rules) v

lookup-index_weights :
    (v : Str) (m : Dict ℤ) (ws : List WeightEntry)
    → lookup v (index_weights m ws) ≡ either (last_weight v ws) (lookup v m)
unfolding index_weights
lookup-index_weights v m [] = refl
lookup-index_weights v m (w ∷ rest) = ground (
  arith,
  lookup-index_weights v (insert w.version w.weight m) rest,
  lookup-insert w.version v w.weight m,
)

abbrev indexed : Option (List WeightEntry) → Option (Dict ℤ)
indexed none = none
indexed (some ws) = some (index_weights [] ws)

lookup-index_rules :
    (path : Str) (m : Dict (Dict ℤ)) (rs : List RuleWeights)
    → lookup path (index_rules m rs) ≡ either (indexed (last_rule path rs)) (lookup path m)
unfolding index_rules
lookup-index_rules path m [] = refl
lookup-index_rules path m (r ∷ rest) = ground (
  arith,
  lookup-index_rules path (insert r.path (index_weights [] r.weights) m) rest,
  lookup-insert r.path path (index_weights [] r.weights) m,
)

declared-set_weight :
    (w : Dict ℤ) (v : Str) (vs : List BackendVersion)
    → contains v (names vs) ≡ true
    → declared_weight v (map (set_weight w) vs) ≡ or_else (lookup v w) (declared_weight v vs)
unfolding declared_weight set_weight contains
declared-set_weight w v [] h = cc
declared-set_weight w v (b ∷ rest) h = elim (Bool-cases (str_eq b.name v)) [
  | inl e ↦ let same = str_eq_sound b.name v e in rw e (rw same refl)
  | inr e ↦ rw e (declared-set_weight w v rest (rw e at h))
]

spec-set_weight :
    (w : Dict ℤ) (v : Str) (vs : List BackendVersion)
    → contains v (names vs) ≡ true
    → (if is_empty (map (set_weight w) vs)
        then pos 100
        else declared_weight v (map (set_weight w) vs))
      ≡ or_else (lookup v w) (if is_empty vs then pos 100 else declared_weight v vs)
spec-set_weight w v [] h = absurd (unfold contains in cc h)
spec-set_weight w v (b ∷ rest) h = declared-set_weight w v (b ∷ rest) h

is_empty-names :
    (v : Str) (vs : List BackendVersion) → is_empty vs ≡ true → contains v (names vs) ≡ true → ⊥
unfolding contains
is_empty-names v [] e h = cc h
is_empty-names v (b ∷ rest) e h = cc e

override_rule-none :
    (m : Dict (Dict ℤ)) (rule : RouteRule)
    → lookup (route_path rule) m ≡ none
    → override_rule m rule ≡ rule
unfolding override_rule
override_rule-none m rule e = ground arith

override_rule-some :
    (m : Dict (Dict ℤ)) (rule : RouteRule) (w : Dict ℤ) (v : Str)
    → lookup (route_path rule) m ≡ some w
    → contains v (names rule.versions) ≡ true
    → spec_weight (override_rule m rule) v ≡ or_else (lookup v w) (spec_weight rule v)
unfolding override_rule spec_weight contains
override_rule-some m rule w v e h = elim (Bool-cases (is_empty rule.versions)) [
  | inl bare ↦ absurd (is_empty-names v rule.versions bare h)
  | inr full ↦ rw full (rw (e, override_rule) (rw full at (spec-set_weight w v rule.versions h)))
]

module _ (cfg : RouteConfig) (rule : RouteRule) (v : Str)
    (declared : contains v (names rule.versions) ≡ true) where
  override-effective :
      spec_weight (override_rule (index_rules [] cfg.rules) rule) v
      ≡ or_else (sent_weight cfg (route_path rule) v) (spec_weight rule v)
  unfolding lookup
  override-effective = by_rule (last_rule (route_path rule) cfg.rules) refl
    where
      by_rule :
          (sent : Option (List WeightEntry))
          → last_rule (route_path rule) cfg.rules ≡ sent
          → spec_weight (override_rule (index_rules [] cfg.rules) rule) v
            ≡ or_else (weight_in sent v) (spec_weight rule v)
      by_rule none e =
          let missing : lookup (route_path rule) (index_rules [] cfg.rules) ≡ none =
            lookup-index_rules (route_path rule) [] cfg.rules
            ∙ ap (λ o. either (indexed o) none) e in
          ap (λ (r : RouteRule). spec_weight r v) (override_rule-none _ rule missing)
      by_rule (some ws) e =
          let there : lookup (route_path rule) (index_rules [] cfg.rules)
              ≡ some (index_weights [] ws) =
            lookup-index_rules (route_path rule) [] cfg.rules
            ∙ ap (λ o. either (indexed o) none) e in
          override_rule-some _ rule (index_weights [] ws) v there declared
          ∙ ap (λ o. or_else o (spec_weight rule v))
              (lookup-index_weights v [] ws ∙ either-none (last_weight v ws))

module _ {ℓ} (P : Str → Type ℓ) where
  All-of_contains : (xs : List Str) → ((v : Str) → contains v xs ≡ true → P v) → All P xs
  unfolding contains
  All-of_contains [] h = tt
  All-of_contains (x ∷ xs) h =
      (h x (ground (arith, str_eq_refl x)), All-of_contains xs (λ v e. h v (ground (arith, e))))

-- A version weighs, for the routing model, what the message sends it, or its own weight.
abbrev WeighsAsSent : RouteConfig → RouteRule → RouteRule → Str → Type 0
WeighsAsSent cfg r r' v =
    spec_weight r' v ≡ or_else (sent_weight cfg (route_path r) v) (spec_weight r v)

-- Each version that a rule declares has the weight of the message, or its own.
abbrev pub HaveWeights : RouteConfig → List RouteRule → List RouteRule → Type 0
HaveWeights cfg [] [] = Unit
HaveWeights cfg [] (r ∷ rs) = ⊥
HaveWeights cfg (r ∷ rs) [] = ⊥
HaveWeights cfg (r ∷ rs) (r' ∷ rs') =
    All (WeighsAsSent cfg r r') (names r.versions) × HaveWeights cfg rs rs'

-- In the effective rules each declared version weighs, for the routing model, what the last entry
-- for it says in the last rule of the message with the rule's path, and its own weight where there
-- is no such entry.
pub apply_effective_weights-HaveWeights :
    (routes : List RouteRule) (cfg : RouteConfig)
    → HaveWeights cfg routes (apply_effective_weights routes (some cfg))
unfolding apply_effective_weights
apply_effective_weights-HaveWeights [] cfg = tt
apply_effective_weights-HaveWeights (r ∷ rs) cfg = (
  All-of_contains (WeighsAsSent cfg r _) (names r.versions) (override-effective cfg r),
  apply_effective_weights-HaveWeights rs cfg,
)
