-- ===== src/Controller/Decisions/Stranded.antt =====
-- A watcher that is cancelled while it sends to a full channel.
use kubetraffic.Prelude.{
  ℕ, zero, suc, ◌≤◌, ◌≡◌, refl, Bool, true, false, List, [], ◌∷◌, ◌++◌, length, length-append,
  arith, ap, sym,
}
use kubetraffic.Api.{NamespacedName}
use kubetraffic.ControlPlane.Wire.{Decision}
use kubetraffic.Controller.Decisions.{Watcher, decided}
use kubetraffic.Controller.Decisions.Channel.{
  Watch, receiving, sending, begun, decision_events_capacity, WatchTurn, WatchTurns, cancel,
  connected, opened, got, sent, taken, here, next, left_loop, refused, broken, left_stream, paused,
  left_wait, wait_over,
}

-- A turn of the source.
abbrev pub is_read : {w : Watcher} {l m : Watch} → WatchTurn w l m → Bool
is_read (taken l nn rest e) = true
is_read _ = false

module _ (w : Watcher) (d : Decision) where
  abbrev events : ℕ → List NamespacedName
  events zero = []
  events (suc k) = events k ++ decided d ∷ []

  abbrev decisions : ℕ → List Decision
  decisions zero = []
  decisions (suc k) = decisions k ++ d ∷ []

  length-events : (k : ℕ) → length (events k) ≡ k
  length-events zero = refl
  length-events (suc k) = omega (arith, length-append (events k) (decided d ∷ []), length-events k)

  -- The same decision came `k` times, and the source has read nothing yet.
  abbrev crowded : ℕ → Watch
  crowded k = record (begun w) { phase = receiving; buffer = events k; received = decisions k }

  abbrev pub stranded : Watch
  stranded = record (crowded decision_events_capacity) {
    phase = sending d;
    cancelled = true;
    received = decisions (suc decision_events_capacity);
  }

  crowded-reached : (k : ℕ) → k ≤ decision_events_capacity → WatchTurns w (crowded k)
  crowded-reached zero h = next (next here (connected _ refl refl)) (opened _ refl)
  crowded-reached (suc k) h =
      next (next (crowded-reached k (omega arith)) (got (crowded k) d refl))
        (sent _ d refl (omega (arith, length-events k)))

  stranded-reached : WatchTurns w stranded
  stranded-reached =
      next
        (next (crowded-reached decision_events_capacity (omega arith))
          (got (crowded decision_events_capacity) d refl))
        (cancel _)

-- No turn but one of the source changes such a state.
stays :
    {w : Watcher} {l m : Watch} (t : WatchTurn w l m) (d : Decision)
    → l.phase ≡ sending d
    → l.cancelled ≡ true
    → length l.buffer ≡ decision_events_capacity
    → is_read t ≡ false
    → m ≡ l
stays (cancel l) d e c f r = ap (λ b. record l { cancelled = b }) (sym c)
stays (left_loop l p q) d e c f r = cc
stays (connected l p q) d e c f r = cc
stays (opened l p) d e c f r = cc
stays (refused l p) d e c f r = cc
stays (got l x p) d e c f r = cc
stays (broken l p) d e c f r = cc
stays (sent l x p room) d e c f r = absurd (omega (arith, room, f))
stays (left_stream l p q) d e c f r = cc
stays (paused l p q) d e c f r = cc
stays (left_wait l p q) d e c f r = cc
stays (wait_over l p) d e c f r = cc
stays (taken l nn rest p) d e c f r = cc

-- The watcher can be cancelled while it sends a decision to a full channel, and from that state
-- only a read of the channel leads on: while the source reads nothing, `Start` does not return.
pub stranded_lem :
    (w : Watcher) (d : Decision)
    → WatchTurns w (stranded w d)
      × ((m : Watch) (t : WatchTurn w (stranded w d) m) → is_read t ≡ false → m ≡ stranded w d)
stranded_lem w d = (
  stranded-reached w d,
  λ m t r. stays t d refl refl (length-events w d decision_events_capacity) r,
)
