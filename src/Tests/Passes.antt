-- ===== src/Tests/Passes.antt =====
-- Passes of the reconciler, and the decision watcher, in small worlds.
use kubetraffic.Prelude.{
  inl, inr, bytes, [], ◌∷◌, ◌≡◌, ◌≢◌, arith, none, some, refl, lookup, str_eq, contains, All, false,
  is_blank,
}
use kubetraffic.Prelude.Int.{pos}
use kubetraffic.Webhook.{validate_traffic_route, check_rules}
use kubetraffic.Discovery.{no_resolution, resolve}
use kubetraffic.Discovery.Reads.{ok, err}
use kubetraffic.ControlPlane.{build_route_spec, pass_through_config}
use kubetraffic.Controller.{
  named, Rpc, updated, deleted, reconcile, apply_effective_weights, version_label_key,
}
use kubetraffic.Controller.Weights.PassThrough.{
  apply_effective_weights-IsWellFormed, apply_effective_weights-SameButWeights, AllSameButWeights,
}
use kubetraffic.Controller.Weights.Effective.{apply_effective_weights-HaveWeights, HaveWeights}
use kubetraffic.Controller.Reconcile.Safety.{
  LeavesDataPlane, RegistersNothing, IsReconciled, finalized, reconcile_invalid,
}
use kubetraffic.Controller.Reconcile.Unavailable.{reconcile_unresolved}
use kubetraffic.Api.{TrafficRoute}
use kubetraffic.Controller.Reconcile.Deletion.{IsDoomed, route_ref, released, reconcile_deletion}
use kubetraffic.Controller.Decisions.{Watcher, Connection, start, least_delay, most_delay}
use kubetraffic.Controller.Decisions.Backoff.{HasDelays, IsBounded, start-IsBounded}
use kubetraffic.Tests.Data.{
  payment, payment_rule, payment-IsWellFormed, nameless, leaving, request, world, config, answering,
}

apply_effective_weights-IsWellFormed_example :
    apply_effective_weights payment.spec.routes
      (some (pass_through_config (build_route_spec payment) (pos 7)))
    ≡ payment.spec.routes
apply_effective_weights-IsWellFormed_example =
    apply_effective_weights-IsWellFormed payment (pos 7) payment-IsWellFormed

apply_effective_weights-SameButWeights_example :
    AllSameButWeights payment.spec.routes
      (apply_effective_weights payment.spec.routes (some config))
apply_effective_weights-SameButWeights_example =
    apply_effective_weights-SameButWeights payment.spec.routes (some config)

apply_effective_weights-HaveWeights_example :
    HaveWeights config payment.spec.routes
      (apply_effective_weights payment.spec.routes (some config))
apply_effective_weights-HaveWeights_example =
    apply_effective_weights-HaveWeights payment.spec.routes config

abbrev up : Rpc
up = answering (ok config) none

abbrev down : Rpc
down = answering (err (bytes "unavailable")) (some (bytes "unavailable"))

-- A route that gets its finalizer in this pass.
abbrev unheld : TrafficRoute
unheld = record nameless { finalizers = [] }

IsReconciled-nameless : IsReconciled (world unheld up) request (finalized (world unheld up) unheld)
unfolding contains str_eq
IsReconciled-nameless = record {
  stored = unheld;
  read = refl;
  stays = refl;
  has_finalizer = inr (refl, refl, refl);
}

IsReconciled-payment : IsReconciled (world payment up) request payment
unfolding contains str_eq
IsReconciled-payment = record {
  stored = payment;
  read = refl;
  stays = refl;
  has_finalizer = inl (refl, refl);
}

nameless-invalid : validate_traffic_route (finalized (world unheld up) unheld) ≢ []
unfolding validate_traffic_route check_rules is_blank
nameless-invalid e = cc

reconcile_invalid_example :
    LeavesDataPlane (reconcile (world unheld up) request []).calls
    × RegistersNothing (reconcile (world unheld up) request []).calls
    × ((reconcile (world unheld up) request []).cache ≡ [])
reconcile_invalid_example =
    reconcile_invalid (world unheld up) request [] (finalized (world unheld up) unheld)
      IsReconciled-nameless nameless-invalid

missing :
    resolve (world payment up).cluster payment.namespace payment_rule (version_label_key payment)
    ≡ ok no_resolution
unfolding resolve
missing = refl

reconcile_unresolved_example : LeavesDataPlane (reconcile (world payment up) request []).calls
reconcile_unresolved_example =
    reconcile_unresolved (world payment up) payment request [] IsReconciled-payment
      (inl (no_resolution, missing, inl refl))

IsDoomed-leaving : (rpc : Rpc) → IsDoomed (world leaving rpc) request leaving
unfolding contains str_eq
IsDoomed-leaving rpc = record { read = refl; deleting = refl; held = refl }

reconcile_deletion_example :
    ((reconcile (world leaving up) request []).calls
      ≡ deleted (route_ref leaving) ∷ updated (released (world leaving up) leaving) ∷ [])
    × (lookup
          ((world leaving up).route_key (named leaving))
          (reconcile (world leaving up) request []).cache
        ≡ none)
reconcile_deletion_example =
    reconcile_deletion (world leaving up) request [] leaving up (IsDoomed-leaving up) refl refl

abbrev watcher : Watcher
watcher = record { min_backoff = pos 0; max_backoff = pos 0 }

abbrev broken : Connection
broken = record { decisions = []; cancelled_in_stream = false; cancelled_in_wait = false }

delays : HasDelays watcher 1000000000 30000000000
unfolding least_delay most_delay
delays = record { least = refl; most = refl; ordered = omega arith; fits = omega arith }

start-IsBounded_example :
    All (IsBounded 1000000000 30000000000) (start watcher (broken ∷ broken ∷ []))
start-IsBounded_example =
    start-IsBounded watcher 1000000000 30000000000 (broken ∷ broken ∷ []) delays
