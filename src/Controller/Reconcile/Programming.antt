-- ===== src/Controller/Reconcile/Programming.antt =====
-- What a pass over a resolved route programs, and when the route is looked at again.
use kubetraffic.Prelude.{
  ◌≡◌, refl, true, none, some, List, [], ◌∷◌, ◌++◌, arith, if◌then◌else◌, Dict, inl, ◌∙◌, ap, inr,
}
use kubetraffic.Prelude.Int.{pos, ◌≤ℤ◌}
use kubetraffic.Api.{
  TrafficRoute, TrafficRouteStatus, NamespacedName, RouteRule, TrafficRoutePhase, ready,
  RouteStatus, Condition,
}
use kubetraffic.Proxy.{Config}
use kubetraffic.Controller.World.{Env, Call, Cache, applied, wrote_status, DataPlane}
use kubetraffic.Controller.Helpers.{resync, control_plane_retry}
use kubetraffic.Controller.Issues.{Survey, survey_rules, no_survey}
use kubetraffic.Controller.Steps.{
  Registration, program, apply_status, register_with_control_plane, updated_status,
}
use kubetraffic.Controller.Reconcile.{
  settle, requeue, reconcile, choose_phase, accepted, resolved_condition, Outcome,
}
use kubetraffic.Discovery.Reads.{ok}
use kubetraffic.Discovery.{Resolution}
use kubetraffic.Webhook.{validate_traffic_route}
use kubetraffic.Model.{build}
use kubetraffic.Controller.Weights.{apply_effective_weights}
use kubetraffic.Controller.Reconcile.Safety.{
  IsReconciled, AfterFinalizer, reconcile-after, steps_settle,
}

-- The configurations that calls apply, and the statuses that they write.
abbrev pub applied_configs : List Call → List Config
applied_configs [] = []
applied_configs (applied cfg ∷ rest) = cfg ∷ applied_configs rest
applied_configs (_ ∷ rest) = applied_configs rest

abbrev pub written_statuses : List Call → List TrafficRouteStatus
written_statuses [] = []
written_statuses (wrote_status st ∷ rest) = st ∷ written_statuses rest
written_statuses (_ ∷ rest) = written_statuses rest

applied-append :
    (xs ys : List Call) → applied_configs (xs ++ ys) ≡ applied_configs xs ++ applied_configs ys
applied-append [] ys = refl
applied-append (x ∷ xs) ys = ground (arith, applied-append xs ys)

pub written-append :
    (xs ys : List Call) → written_statuses (xs ++ ys) ≡ written_statuses xs ++ written_statuses ys
written-append [] ys = refl
written-append (x ∷ xs) ys = ground (arith, written-append xs ys)

-- A pass over a valid route that stays and whose finalizer is there or can be added, whose survey
-- has no issues, with a data plane that makes `cfg` of the effective rules and takes it.
pub record IsServed (env : Env) (req : NamespacedName) (cache : Cache) (tr : TrafficRoute)
    (s : Survey) (plane : DataPlane) (cfg : Config) : Type 0 where
  pub active : IsReconciled env req tr
  pub valid : validate_traffic_route tr ≡ []
  pub surveyed : survey_rules env tr tr.spec.routes no_survey ≡ ok s
  pub resolved : s.issues ≡ []
  pub on : env.proxy ≡ some plane
  pub generated :
      plane.generate_config (
        build tr.spec.host
          (apply_effective_weights tr.spec.routes (register_with_control_plane env tr cache).config)
          s.resolutions)
      ≡ ok cfg
  pub taken : plane.apply_config cfg ≡ none

module _ (env : Env) (tr : TrafficRoute) (cache : Cache) where
  requeue_pos : (reg : Registration) → pos 1 ≤ℤ requeue env reg
  unfolding requeue resync control_plane_retry
  requeue_pos reg = ground arith

  pub register-applied :
      (applied_configs (register_with_control_plane env tr cache).calls ≡ [])
      × (written_statuses (register_with_control_plane env tr cache).calls ≡ [])
  unfolding register_with_control_plane
  register-applied = ground arith

  program_taken :
      (rules : List RouteRule) (resolutions : Dict Resolution) (plane : DataPlane) (cfg : Config)
      → env.proxy ≡ some plane
      → plane.generate_config (build tr.spec.host rules resolutions) ≡ ok cfg
      → plane.apply_config cfg ≡ none
      → let p = program env tr true rules resolutions in
        (applied_configs p.calls ≡ cfg ∷ [])
        × (written_statuses p.calls ≡ [])
        × (p.phase ≡ ready)
        × (p.error ≡ none)
  unfolding program
  program_taken rules resolutions plane cfg on good taken = ground arith

  pub apply_status_calls :
      (phase : TrafficRoutePhase) (routes : List RouteStatus) (conds : List Condition)
      → let st = updated_status env tr phase routes conds in
        let calls = (apply_status env tr phase routes conds).1 in
        (applied_configs calls ≡ [])
        × (written_statuses calls ≡ (if env.status_equal tr.status st then [] else st ∷ []))
  unfolding apply_status
  apply_status_calls phase routes conds = ground arith

  settle_served :
      (s : Survey) (plane : DataPlane) (cfg : Config)
      → s.issues ≡ []
      → env.proxy ≡ some plane
      → plane.generate_config (
          build tr.spec.host
            (apply_effective_weights tr.spec.routes
              (register_with_control_plane env tr cache).config)
            s.resolutions)
        ≡ ok cfg
      → plane.apply_config cfg ≡ none
      → let o = settle env tr cache s in
        (st : TrafficRouteStatus) × (st.phase ≡ ready)
        × (st.observed_generation ≡ tr.generation)
        × (applied_configs o.calls ≡ cfg ∷ [])
        × (written_statuses o.calls ≡ (if env.status_equal tr.status st then [] else st ∷ []))
        × (pos 1 ≤ℤ o.requeue_after)
  unfolding settle choose_phase
  settle_served s plane cfg resolved on good taken =
      let reg = register_with_control_plane env tr cache in
      let rules = apply_effective_weights tr.spec.routes reg.config in
      let p = program env tr true rules s.resolutions in
      let (pa, pw, pp, pe) = program_taken rules s.resolutions plane cfg on good taken in
      let (ra, rw') = register-applied in
      let conds = accepted env ∷ resolved_condition env [] ∷ reg.cond ∷ p.cond ∷ [] in
      let st = updated_status env tr ready s.statuses conds in
      let (sa, sw) = apply_status_calls ready s.statuses conds in
      rw resolved (
        rw (pe, pp)
          (
            st,
            unfold updated_status in refl,
            unfold updated_status in refl,
            simp (applied-append, ra, pa, sa),
            simp (written-append, rw', pw, sw),
            requeue_pos reg,
          ))

after-applied :
    (calls rest : List Call)
    → AfterFinalizer calls rest
    → (applied_configs calls ≡ applied_configs rest)
      × (written_statuses calls ≡ written_statuses rest)
after-applied calls rest (inl e) = rw e (refl, refl)
after-applied calls rest (inr (t, e)) = rw e (refl, refl)

-- A pass over a valid, resolved route that stays and whose finalizer is there or can be added, with
-- a data plane that makes a configuration of the effective rules and takes it, applies that
-- configuration and no other; the status with phase Ready for the route's generation is written,
-- unless it is there already; and the next pass is due after a positive delay.
pub reconcile_served :
    (env : Env) (req : NamespacedName) (cache : Cache) (tr : TrafficRoute) (s : Survey)
    (plane : DataPlane) (cfg : Config)
    → IsServed env req cache tr s plane cfg
    → let o = reconcile env req cache in
      (st : TrafficRouteStatus) × (st.phase ≡ ready)
      × (st.observed_generation ≡ tr.generation)
      × (applied_configs o.calls ≡ cfg ∷ [])
      × (written_statuses o.calls ≡ (if env.status_equal tr.status st then [] else st ∷ []))
      × (pos 1 ≤ℤ o.requeue_after)
reconcile_served env req cache tr s plane cfg v =
    let (kept, due, after) = reconcile-after env req cache tr v.active in
    let (a, w) = after-applied _ _ after in
    let settled = steps_settle env req cache tr s v.valid v.surveyed in
    let (st, ph, gen, applied', written', later) =
      settle_served env tr cache s plane cfg v.resolved v.on v.generated v.taken in
    (
      st,
      ph,
      gen,
      a ∙ (ap (λ (o : Outcome). applied_configs o.calls) settled ∙ applied'),
      w ∙ (ap (λ (o : Outcome). written_statuses o.calls) settled ∙ written'),
      rw due (rw settled later),
    )
