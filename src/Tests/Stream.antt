-- ===== src/Tests/Stream.antt =====
-- A decision on its way to the reconciler's queue.
use kubetraffic.Prelude.{◌≡◌, ◌≤◌, ◌++◌, refl, false, map, length, bytes, [], ◌∷◌, arith}
use kubetraffic.Prelude.Int.{pos}
use kubetraffic.ControlPlane.Wire.{Decision}
use kubetraffic.Controller.Decisions.{Watcher, decided}
use kubetraffic.Controller.Decisions.Channel.{
  Watch, sending, begun, held, decision_events_capacity, WatchTurn, WatchTurns, connected, opened,
  got, sent, taken, here, next, WatchTurns-IsDelivered,
}
use kubetraffic.Controller.Decisions.Stranded.{is_read, stranded, stranded_lem}

abbrev watcher : Watcher
watcher = record { min_backoff = pos 0; max_backoff = pos 0 }

abbrev decision : Decision
decision = record {
  ref = record { namespace = bytes "demo"; name = bytes "payment-route" };
  path = bytes "/payment";
  version = bytes "v2";
  old_weight = pos 10;
  new_weight = pos 20;
  reason = bytes "healthy";
}

-- Two decisions came: the route of one is enqueued, the other is being sent.
abbrev streaming : Watch
streaming = record (begun watcher) {
  phase = sending decision;
  received = decision ∷ decision ∷ [];
  enqueued = decided decision ∷ [];
}

run : WatchTurns watcher streaming
run =
    let first = next (next here (connected _ refl refl)) (opened _ refl) in
    let came = next first (got _ decision refl) in
    let queued = next came (sent _ decision refl (omega arith)) in
    next (next queued (taken _ (decided decision) [] refl)) (got _ decision refl)

WatchTurns-IsDelivered_example :
    (map decided streaming.received
      ≡ streaming.enqueued ++ (streaming.buffer ++ held streaming.phase))
    × (length streaming.buffer ≤ decision_events_capacity)
WatchTurns-IsDelivered_example = WatchTurns-IsDelivered run

stranded_lem_example :
    WatchTurns watcher (stranded watcher decision)
    × ((m : Watch) (t : WatchTurn watcher (stranded watcher decision) m)
        → is_read t ≡ false
        → m ≡ stranded watcher decision)
stranded_lem_example = stranded_lem watcher decision
