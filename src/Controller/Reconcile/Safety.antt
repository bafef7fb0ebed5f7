-- ===== src/Controller/Reconcile/Safety.antt =====
-- What a pass does to the data plane, and when.
use kubetraffic.Prelude.{
  Bool-cases, is_empty, Bool, true, false, none, List, [], ◌∷◌, All, arith, ◌∙◌, ap, ◌⊎◌, inl, inr,
  ◌≡◌, refl, ◌≢◌, Dict, All-append,
}
use kubetraffic.Api.{
  TrafficRoute, NamespacedName, RouteRule, none_yet, TrafficRoutePhase, RouteStatus, Condition,
}
use kubetraffic.Webhook.{validate_traffic_route}
use kubetraffic.Webhook.Errors.{FieldError}
use kubetraffic.Discovery.{Resolution}
use kubetraffic.Discovery.Reads.{found, ok, Fallible-cases}
use kubetraffic.Controller.World.{Env, Call, updated, registered, applied, Cache}
use kubetraffic.Controller.Helpers.{traffic_route_finalizer}
use kubetraffic.Controller.Issues.{Survey, no_survey, survey_rules}
use kubetraffic.Controller.Steps.{register_with_control_plane, program, apply_status}
use kubetraffic.Controller.Reconcile.{hold, settle, steps, reconcile, Str}

abbrev pub is_applied : Call → Bool
is_applied (applied cfg) = true
is_applied _ = false

abbrev pub is_registered : Call → Bool
is_registered (registered spec) = true
is_registered _ = false

-- No configuration is applied.
abbrev pub LeavesDataPlane : List Call → Type 0
LeavesDataPlane calls = All (λ c. is_applied c ≡ false) calls

-- No route is registered.
abbrev pub RegistersNothing : List Call → Type 0
RegistersNothing calls = All (λ c. is_registered c ≡ false) calls

-- The route of a request that stays and has its finalizer.
pub record IsActive (env : Env) (req : NamespacedName) (tr : TrafficRoute) : Type 0 where
  pub read : env.get_route req ≡ found tr
  pub stays : tr.deleting ≡ false
  pub held : env.contains_finalizer tr.finalizers traffic_route_finalizer ≡ true

abbrev pub finalized : Env → TrafficRoute → TrafficRoute
finalized env tr = record tr {
  finalizers = env.add_finalizer tr.finalizers traffic_route_finalizer;
}

-- The route of a request that stays, as the pass goes on with it: it has its finalizer, or the
-- update that adds it is accepted.
pub record IsReconciled (env : Env) (req : NamespacedName) (tr : TrafficRoute) : Type 0 where
  pub stored : TrafficRoute
  pub read : env.get_route req ≡ found stored
  pub stays : stored.deleting ≡ false
  pub has_finalizer :
      ((env.contains_finalizer stored.finalizers traffic_route_finalizer ≡ true) × (stored ≡ tr))
      ⊎ ((env.contains_finalizer stored.finalizers traffic_route_finalizer ≡ false)
          × (env.update_route (finalized env stored) ≡ none)
          × (finalized env stored ≡ tr))

pub IsReconciled-of_IsActive :
    (env : Env) (req : NamespacedName) (tr : TrafficRoute)
    → IsActive env req tr
    → IsReconciled env req tr
IsReconciled-of_IsActive env req tr a = record {
  stored = tr;
  read = a.read;
  stays = a.stays;
  has_finalizer = inl (a.held, refl);
}

-- Calls, but for an update that adds the finalizer.
abbrev pub AfterFinalizer : List Call → List Call → Type 0
AfterFinalizer calls rest = (calls ≡ rest) ⊎ ((t : TrafficRoute) × (calls ≡ updated t ∷ rest))

module _ (env : Env) (req : NamespacedName) (cache : Cache) (tr : TrafficRoute) where
  pub reconcile-steps : IsActive env req tr → reconcile env req cache ≡ steps env tr cache
  unfolding reconcile
  reconcile-steps a = ground arith

  -- A pass over a route that stays is its steps, after the finalizer.
  pub reconcile-after :
      IsReconciled env req tr
      → ((reconcile env req cache).cache ≡ (steps env tr cache).cache)
        × ((reconcile env req cache).requeue_after ≡ (steps env tr cache).requeue_after)
        × AfterFinalizer (reconcile env req cache).calls (steps env tr cache).calls
  unfolding reconcile
  reconcile-after a = elim a.has_finalizer [
    | inl (held, same) ↦
        let e : reconcile env req cache ≡ steps env a.stored cache =
          ground (arith, a.read, a.stays, held) in
        let e' : reconcile env req cache ≡ steps env tr cache =
          e ∙ ap (λ t. steps env t cache) same in
        rw e' (refl, refl, inl refl)
    | inr (missing, accepted', same) ↦
        let o = steps env (finalized env a.stored) cache in
        let e : reconcile env req cache
            ≡ record o { calls = updated (finalized env a.stored) ∷ o.calls } =
          ground (arith, a.read, a.stays, missing, accepted') in
        rw (← same) (rw e (refl, refl, inr (finalized env a.stored, refl)))
  ]

  pub All-after :
      (P : Call → Type 0) (calls rest : List Call)
      → ((t : TrafficRoute) → P (updated t))
      → AfterFinalizer calls rest
      → All P rest
      → All P calls
  All-after P calls rest u (inl e) h = rw e h
  All-after P calls rest u (inr (t, e)) h = rw e (u t, h)

  hold-calls :
      (e : List FieldError)
      → LeavesDataPlane (hold env tr cache e).calls
        × RegistersNothing (hold env tr cache e).calls
        × ((hold env tr cache e).cache ≡ cache)
  unfolding hold apply_status
  hold-calls e = ground arith

  steps_hold :
      (x : FieldError) (xs : List FieldError)
      → validate_traffic_route tr ≡ x ∷ xs
      → steps env tr cache ≡ hold env tr cache (x ∷ xs)
  unfolding steps
  steps_hold x xs q = rw q

  steps-held :
      (e : List FieldError)
      → validate_traffic_route tr ≡ e
      → e ≢ []
      → LeavesDataPlane (steps env tr cache).calls
        × RegistersNothing (steps env tr cache).calls
        × ((steps env tr cache).cache ≡ cache)
  steps-held [] q bad = absurd (bad refl)
  steps-held (x ∷ xs) q bad = rw (steps_hold x xs q) (hold-calls (x ∷ xs))

  -- A pass over a route that stays and whose finalizer is there or can be added, and whose spec is
  -- invalid, applies no configuration and registers nothing, and the cached configurations stay.
  pub reconcile_invalid :
      IsReconciled env req tr
      → validate_traffic_route tr ≢ []
      → LeavesDataPlane (reconcile env req cache).calls
        × RegistersNothing (reconcile env req cache).calls
        × ((reconcile env req cache).cache ≡ cache)
  reconcile_invalid a bad =
      let (kept, due, after) = reconcile-after a in
      let (planes, quiet, same) = steps-held (validate_traffic_route tr) refl bad in
      (
        All-after _ _ _ (λ t. refl) after planes,
        All-after _ _ _ (λ t. refl) after quiet,
        kept ∙ same,
      )

  pub steps_settle :
      (s : Survey)
      → validate_traffic_route tr ≡ []
      → survey_rules env tr tr.spec.routes no_survey ≡ ok s
      → steps env tr cache ≡ settle env tr cache s
  unfolding steps
  steps_settle s valid surveyed = ground arith

  program_unresolved :
      (routes : List RouteRule) (resolutions : Dict Resolution)
      → LeavesDataPlane (program env tr false routes resolutions).calls
        × ((program env tr false routes resolutions).phase ≡ none_yet)
        × ((program env tr false routes resolutions).error ≡ none)
  unfolding program
  program_unresolved routes resolutions = ground arith

  register-LeavesDataPlane : LeavesDataPlane (register_with_control_plane env tr cache).calls
  unfolding register_with_control_plane
  register-LeavesDataPlane = ground arith

  apply_status-LeavesDataPlane :
      (phase : TrafficRoutePhase) (routes : List RouteStatus) (conds : List Condition)
      → LeavesDataPlane (apply_status env tr phase routes conds).1
  unfolding apply_status
  apply_status-LeavesDataPlane phase routes conds = ground arith

  settle_unresolved :
      (s : Survey) (x : Str) (xs : List Str)
      → s.issues ≡ x ∷ xs
      → LeavesDataPlane (settle env tr cache s).calls
  unfolding settle
  settle_unresolved s x xs e = rw e (
    refl,
    All-append _ _ _ register-LeavesDataPlane
        (All-append _ _ _ (program_unresolved _ _).0 (apply_status-LeavesDataPlane _ _ _)),
  )

  pub settle-LeavesDataPlane :
      (s : Survey) → s.issues ≢ [] → LeavesDataPlane (settle env tr cache s).calls
  settle-LeavesDataPlane s issues = unresolved s.issues refl
    where
      unresolved : (xs : List Str) → s.issues ≡ xs → LeavesDataPlane (settle env tr cache s).calls
      unresolved [] e = absurd (issues e)
      unresolved (x ∷ xs) e = settle_unresolved s x xs e

  -- Steps whose survey, if there is one, has issues.
  pub steps-LeavesDataPlane :
      ((s : Survey) → survey_rules env tr tr.spec.routes no_survey ≡ ok s → s.issues ≢ [])
      → LeavesDataPlane (steps env tr cache).calls
  unfolding steps
  steps-LeavesDataPlane issues = elim (Bool-cases (is_empty (validate_traffic_route tr))) [
    | inr bad ↦ rw bad ((hold-calls (validate_traffic_route tr)).0)
    | inl valid ↦ elim (Fallible-cases (survey_rules env tr tr.spec.routes no_survey)) [
      | inr (e, failing) ↦ rw valid (rw (failing, steps) tt)
      | inl (s, surveyed) ↦
          rw valid (rw (surveyed, steps) (settle-LeavesDataPlane s (issues s surveyed)))
    ]
  ]
