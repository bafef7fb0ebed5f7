-- ===== src/Controller/Reconcile.antt =====
-- `Reconcile` and `finalize` of trafficroute_controller.go, and the counters of
-- controller/internal/metrics/metrics.go.
pub mod Safety
pub mod Repeated
pub mod Settled
pub mod Deletion
pub mod Programming
pub mod Split
pub mod Text
pub mod Unavailable
pub mod Remembered
pub mod History
use kubetraffic.Prelude.{
  ℕ, ◌+◌, Str, bytes, Bool, true, false, not, ◌&&◌, erase, Option, none, some, is_some, List, [],
  ◌∷◌, ◌++◌, is_empty, if◌then◌else◌,
}
use kubetraffic.Prelude.Int.{ℤ, pos}
use kubetraffic.Api.{
  TrafficRoute, TrafficRoutePhase, none_yet, pending, degraded, invalid, Condition, NamespacedName,
}
use kubetraffic.Webhook.{validate_traffic_route}
use kubetraffic.Webhook.Errors.{FieldError}
use kubetraffic.Discovery.Reads.{found, not_found, failed, ok, err}
use kubetraffic.ControlPlane.Wire.{RouteRef}
use kubetraffic.Controller.World.{Env, Call, updated, deleted, warned, Cache, Rpc}
use kubetraffic.Controller.Helpers.{
  condition, condition_accepted, condition_resolved, condition_programmed, max_condition_message,
  traffic_route_finalizer, named, truncate, resync, control_plane_retry, clear_cached_config,
}
use kubetraffic.Controller.Weights.{apply_effective_weights}
use kubetraffic.Controller.Issues.{Survey, no_survey, survey_rules}
use kubetraffic.Controller.Steps.{Registration, register_with_control_plane, program, apply_status}
use kubetraffic.Proxy.{join}

-- `ctrl.Result`, the error, the cache after the pass and the calls made.
pub record Outcome : Type 0 where
  pub requeue_after : ℤ
  pub error : Option Str
  pub cache : Cache
  pub calls : List Call

abbrev stop : Option Str → Cache → List Call → Outcome
stop e cache calls = record { requeue_after = pos 0; error = e; cache = cache; calls = calls }

module _ (env : Env) where
  -- The end of `finalize`, once the control plane has been told.
  drop_finalizer : TrafficRoute → Cache → List Call → Outcome
  drop_finalizer tr cache calls =
      let tr' = record tr {
        finalizers = env.remove_finalizer tr.finalizers traffic_route_finalizer;
      } in
      let cache' = clear_cached_config env (named tr) cache in
      elim (env.update_route tr') [
        | some e ↦ stop (some (bytes "remove finalizer: " ++ e)) cache' (calls ++ updated tr' ∷ [])
        | none ↦ stop none cache' (calls ++ updated tr' ∷ [])
      ]

  tell_control_plane : TrafficRoute → Cache → Rpc → Outcome
  unfolding drop_finalizer
  tell_control_plane tr cache rpc =
      let ref : RouteRef = record { namespace = tr.namespace; name = tr.name } in
      elim (rpc.delete_route ref) [
        | some e ↦
            stop (some (bytes "delete route from control plane: " ++ e)) cache (deleted ref ∷ [])
        | none ↦ drop_finalizer tr cache (deleted ref ∷ [])
      ]

  unfoldable pub finalize : TrafficRoute → Cache → Outcome
  unfolding tell_control_plane
  finalize tr cache =
      if env.contains_finalizer tr.finalizers traffic_route_finalizer
      then elim env.control_plane [
        | none ↦ drop_finalizer tr cache []
        | some rpc ↦ tell_control_plane tr cache rpc
      ]
      else stop none cache []

  -- Step 1, for the errors of the validation.
  unfoldable pub hold : TrafficRoute → Cache → List FieldError → Outcome
  hold tr cache errs =
      let msg = truncate (env.aggregate errs) max_condition_message in
      let (e, calls) = apply_status env tr invalid tr.status.routes (
        condition condition_accepted false (bytes "SpecInvalid") msg
        ∷ condition condition_programmed false (bytes "SpecInvalid")
            (bytes "spec must be valid before it can be programmed")
        ∷ []) in
      stop e cache (warned (bytes "SpecInvalid") msg ∷ calls)

  -- Step 3: the Resolved condition and the event.
  pub resolved_condition : List Str → Condition
  resolved_condition issues =
      if is_empty issues
      then condition condition_resolved true (bytes "EndpointsResolved")
          (bytes "all backend versions have ready endpoints")
      else condition condition_resolved false (bytes "EndpointsUnavailable")
          (truncate (join (bytes "; ") issues) max_condition_message)

  resolved_event : List Str → List Call
  resolved_event issues =
      if is_empty issues
      then []
      else warned (bytes "EndpointsUnavailable") (truncate (join (bytes "; ") issues) 256) ∷ []

  abbrev accepted : Condition
  accepted =
      condition condition_accepted true (bytes "Valid") (bytes "spec passed semantic validation")

  abbrev is_none_yet : TrafficRoutePhase → Bool
  is_none_yet none_yet = true
  is_none_yet _ = false

  unfoldable pub choose_phase : Bool → Option Str → TrafficRoutePhase → TrafficRoutePhase
  choose_phase resolved (some e) after = degraded
  choose_phase resolved none after =
      if resolved && not (is_none_yet after) then after else if resolved then pending else degraded

  unfoldable pub requeue : Registration → ℤ
  requeue reg =
      if not reg.cond.status && is_some env.control_plane
      then control_plane_retry env
      else resync env

  -- `return result, progErr` after the status write; an error of the write comes first.
  first_error : Option Str → Option Str → Option Str
  first_error (some e) later = some e
  first_error none later = later

  -- Steps 3 to 5, after the survey.
  unfoldable pub settle : TrafficRoute → Cache → Survey → Outcome
  unfolding resolved_condition resolved_event first_error
  settle tr cache s =
      let resolved = is_empty s.issues in
      let reg = register_with_control_plane env tr cache in
      let prog =
        program env tr resolved (apply_effective_weights tr.spec.routes reg.config) s.resolutions in
      let (e, wrote) =
        apply_status env tr (choose_phase resolved prog.error prog.phase) s.statuses
          (accepted ∷ resolved_condition s.issues ∷ reg.cond ∷ prog.cond ∷ []) in
      record {
        requeue_after = requeue reg;
        error = first_error e prog.error;
        cache = reg.cache;
        calls = resolved_event s.issues ++ (reg.calls ++ (prog.calls ++ wrote));
      }

  -- Steps 1 and 2 of a pass over a route that stays.
  unfoldable pub steps : TrafficRoute → Cache → Outcome
  steps tr cache =
      let errs = validate_traffic_route tr in
      if is_empty errs
      then elim (survey_rules env tr tr.spec.routes no_survey) [
        | err e ↦ stop (some e) cache []
        | ok s ↦ settle tr cache s
      ]
      else hold tr cache errs

  after_update : TrafficRoute → Outcome → Outcome
  after_update tr o = record o { calls = updated tr ∷ o.calls }

  -- The finalizer is added first, if it is missing.
  with_finalizer : TrafficRoute → Cache → Outcome
  unfolding after_update
  with_finalizer tr cache =
      if env.contains_finalizer tr.finalizers traffic_route_finalizer
      then steps tr cache
      else let tr' = record tr {
        finalizers = env.add_finalizer tr.finalizers traffic_route_finalizer;
      } in
        elim (env.update_route tr') [
          | some e ↦ stop (some (bytes "add finalizer: " ++ e)) cache (updated tr' ∷ [])
          | none ↦ after_update tr' (steps tr' cache)
        ]

  unfoldable pub reconcile : NamespacedName → Cache → Outcome
  unfolding with_finalizer
  reconcile req cache = elim (env.get_route req) [
    | not_found ↦ stop none cache []
    | failed e ↦ stop (some e) cache []
    | found tr ↦ if tr.deleting then finalize tr cache else with_finalizer tr cache
  ]

-- `ObserveReconcile`, but for the duration: the counters of passes and of failed passes.
pub record Counters : Type 0 where
  pub reconciles : ℕ
  pub errors : ℕ

unfoldable pub observe_reconcile : Option Str → Counters → Counters
observe_reconcile e c = record {
  reconciles = c.reconciles + 1;
  errors = if is_some e then c.errors + 1 else c.errors;
}
