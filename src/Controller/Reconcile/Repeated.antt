-- ===== src/Controller/Reconcile/Repeated.antt =====
-- The end of a pass, and the same end over the status and the cache that it left.
use kubetraffic.Prelude.{
  ◌≡◌, ◌≢◌, refl, Bool, false, List, [], ◌∷◌, arith, Dict, Str, Option-cases, inl, inr, Distinct,
  str_eq, str_eq_iff, is_empty,
}
use kubetraffic.Api.{TrafficRoute, TrafficRouteStatus, RouteRule, TrafficRoutePhase, Condition}
use kubetraffic.Controller.World.{Env, Cache}
use kubetraffic.Controller.Helpers.{
  condition_accepted, condition_resolved, condition_programmed, condition_control_plane,
}
use kubetraffic.Controller.Issues.{Survey}
use kubetraffic.Controller.Steps.{
  Programming, program, apply_status, register_with_control_plane, updated_status,
}
use kubetraffic.Controller.Steps.Settled.{KeepsConditions, kinds, apply_status_settles}
use kubetraffic.Controller.Steps.Fallback.{register_err}
use kubetraffic.Controller.Reconcile.{
  settle, choose_phase, accepted, resolved_condition, resolved_event,
}
use kubetraffic.Discovery.{Resolution}
use kubetraffic.Discovery.Reads.{Fallible-cases}
use kubetraffic.ControlPlane.{build_route_spec}
use kubetraffic.Controller.Weights.{apply_effective_weights}
use kubetraffic.Controller.Reconcile.Programming.{
  written_statuses, written-append, register-applied,
}

-- The condition kinds of a pass, in order.
module _ (env : Env) (tr : TrafficRoute) (cache : Cache) where
  register-kind : (register_with_control_plane env tr cache).cond.kind ≡ condition_control_plane
  unfolding register_with_control_plane
  register-kind = ground arith

  program-kind :
      (resolved : Bool) (rules : List RouteRule) (resolutions : Dict Resolution)
      → (program env tr resolved rules resolutions).cond.kind ≡ condition_programmed
  unfolding program
  program-kind resolved rules resolutions = ground arith

  resolved-kind : (issues : List Str) → (resolved_condition env issues).kind ≡ condition_resolved
  unfolding resolved_condition
  resolved-kind issues = ground arith

  register-status :
      (status : TrafficRouteStatus) (c : Cache)
      → register_with_control_plane env (record tr { status = status }) c
        ≡ register_with_control_plane env tr c
  unfolding register_with_control_plane build_route_spec
  register-status status c = refl

  program-status :
      (status : TrafficRouteStatus) (resolved : Bool) (rules : List RouteRule)
      (resolutions : Dict Resolution)
      → program env (record tr { status = status }) resolved rules resolutions
        ≡ program env tr resolved rules resolutions
  unfolding program
  program-status status resolved rules resolutions = refl

  -- A second registration, with the cache that the first left, agrees with it.
  register_again :
      let once = register_with_control_plane env tr cache in
      let again = register_with_control_plane env tr once.cache in
      (again.config ≡ once.config) × (again.cond ≡ once.cond)
  unfolding register_with_control_plane
  register_again = elim (Option-cases env.control_plane) [
    | inl off ↦ ground (arith, off)
    | inr (rpc, on) ↦ elim (Fallible-cases (rpc.register_route (build_route_spec tr))) [
      | inl (cfg, e) ↦ ground (arith, on, e)
      | inr (msg, e) ↦
          let (same_config, down, same) = register_err env tr cache rpc on msg e in
          rw same (refl, refl)
    ]
  ]

apart : (s t : Str) → str_eq s t ≡ false → s ≢ t
apart s t e q = ground (arith, str_eq_iff s t, e, q)

kinds-Distinct :
    Distinct (
      condition_accepted ∷ condition_resolved ∷ condition_control_plane ∷ condition_programmed ∷ [])
unfolding str_eq
kinds-Distinct = (
  (apart _ _ refl, (apart _ _ refl, (apart _ _ refl, tt))),
  ((apart _ _ refl, (apart _ _ refl, tt)), ((apart _ _ refl, tt), (tt, tt))),
)

-- The phase and the conditions that the end of a pass reports, and the status that it makes of them.
module _ (env : Env) (tr : TrafficRoute) (cache : Cache) (s : Survey) where
  abbrev pub programming : Programming
  programming =
      program env tr (is_empty s.issues)
        (apply_effective_weights tr.spec.routes (register_with_control_plane env tr cache).config)
        s.resolutions

  abbrev pub reported_phase : TrafficRoutePhase
  reported_phase = choose_phase env (is_empty s.issues) programming.error programming.phase

  abbrev pub reported_conditions : List Condition
  reported_conditions =
      accepted env
      ∷ resolved_condition env s.issues
      ∷ (register_with_control_plane env tr cache).cond
      ∷ programming.cond
      ∷ []

  abbrev pub reported_status : TrafficRouteStatus
  reported_status = updated_status env tr reported_phase s.statuses reported_conditions

  program-written : written_statuses programming.calls ≡ []
  unfolding program
  program-written = ground arith

  event-written : written_statuses (resolved_event env s.issues) ≡ []
  unfolding resolved_event
  event-written = ground arith

  pub settle-written :
      written_statuses (settle env tr cache s).calls
      ≡ written_statuses (apply_status env tr reported_phase s.statuses reported_conditions).1
  unfolding settle
  settle-written =
      simp (written-append, event-written, (register-applied env tr cache).1, program-written)

  reported-Distinct : Distinct (kinds reported_conditions)
  reported-Distinct =
      rw
        (
          resolved-kind env tr cache s.issues,
          register-kind env tr cache,
          program-kind env tr cache (is_empty s.issues) _ _,
        )
        kinds-Distinct

-- The end of a pass over the same route, with the status and the cache that a pass left.
module _ (env : Env) (tr : TrafficRoute) (cache : Cache) (s : Survey) where
  abbrev pub later : TrafficRoute
  later = record tr { status = reported_status env tr cache s }

  abbrev pub later_cache : Cache
  later_cache = (register_with_control_plane env tr cache).cache

  later-register :
      let again = register_with_control_plane env later later_cache in
      let once = register_with_control_plane env tr cache in
      (again.config ≡ once.config) × (again.cond ≡ once.cond)
  later-register =
      rw (register-status env tr cache (reported_status env tr cache s) later_cache)
        (register_again env tr cache)

  later-programming : programming env later later_cache s ≡ programming env tr cache s
  later-programming = rw (later-register.0) (
      program-status env tr cache (reported_status env tr cache s) (is_empty s.issues) _
        s.resolutions)

  pub later-written :
      KeepsConditions env.libraries → written_statuses (settle env later later_cache s).calls ≡ []
  later-written laws =
      rw
        (
          settle-written env later later_cache s,
          later-programming,
          later-register.1,
          apply_status_settles env laws tr (reported_phase env tr cache s) s.statuses
              (reported_conditions env tr cache s) (reported-Distinct env tr cache s),
        )
        refl
