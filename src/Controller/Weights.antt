-- ===== src/Controller/Weights.antt =====
-- `applyEffectiveWeights` of trafficroute_controller.go.
pub mod PassThrough
pub mod Effective
use kubetraffic.Prelude.{
  Dict, lookup, insert, or_else, Option, none, some, List, [], ◌∷◌, map, is_empty, if◌then◌else◌,
}
use kubetraffic.Prelude.Int.{ℤ}
use kubetraffic.Api.{RouteRule, BackendVersion}
use kubetraffic.ControlPlane.Wire.{WeightEntry, RuleWeights, RouteConfig}
use kubetraffic.Controller.Helpers.{route_path}

-- The inner loop: version to weight. A later entry replaces an earlier one.
unfoldable pub index_weights : Dict ℤ → List WeightEntry → Dict ℤ
index_weights m [] = m
index_weights m (w ∷ rest) = index_weights (insert w.version w.weight m) rest

-- The outer loop: path to weights.
unfoldable pub index_rules : Dict (Dict ℤ) → List RuleWeights → Dict (Dict ℤ)
unfolding index_weights
index_rules m [] = m
index_rules m (entry ∷ rest) =
    index_rules (insert entry.path (index_weights [] entry.weights) m) rest

unfoldable pub set_weight : Dict ℤ → BackendVersion → BackendVersion
set_weight weights v = record v { weight = or_else (lookup v.name weights) v.weight }

unfoldable pub override_rule : Dict (Dict ℤ) → RouteRule → RouteRule
unfolding set_weight
override_rule by_path rule =
    if is_empty rule.versions then rule else elim (lookup (route_path rule) by_path) [
      | none ↦ rule
      | some weights ↦ record rule { versions = map (set_weight weights) rule.versions }
    ]

unfoldable pub apply_effective_weights : List RouteRule → Option RouteConfig → List RouteRule
unfolding override_rule index_rules
apply_effective_weights routes none = routes
apply_effective_weights routes (some cfg) = map (override_rule (index_rules [] cfg.rules)) routes
