-- ===== src/Controller/Decisions.antt =====
-- controller/internal/controller/decision_watcher.go: the loop that subscribes to the decision
-- stream and enqueues the routes that decisions name.
pub mod Backoff
pub mod Channel
pub mod Stranded
use kubetraffic.Prelude.{Bool, List, [], ◌∷◌, ◌++◌, map, if◌then◌else◌}
use kubetraffic.Prelude.Int.{ℤ, pos, ◌+ℤ◌, ltb_ℤ, wrap64}
use kubetraffic.Api.{NamespacedName}
use kubetraffic.ControlPlane.Wire.{Decision}

pub record Watcher : Type 0 where
  pub min_backoff : ℤ
  pub max_backoff : ℤ

-- One second, and thirty seconds, in nanoseconds.
unfoldable pub least_delay : Watcher → ℤ
least_delay w = if ltb_ℤ (pos 0) w.min_backoff then w.min_backoff else pos 1000000000

unfoldable pub most_delay : Watcher → ℤ
most_delay w = if ltb_ℤ (pos 0) w.max_backoff then w.max_backoff else pos 30000000000

-- `backoff *= 2`, on an int64, and the cap.
unfoldable pub next_backoff : Watcher → ℤ → ℤ
next_backoff w backoff =
    let doubled = wrap64 (backoff +ℤ backoff) in
    if ltb_ℤ (most_delay w) doubled then most_delay w else doubled

-- One connection as the watcher sees it: the decisions that came, and whether the context was
-- cancelled when the stream ended, or during the wait after it.
pub record Connection : Type 0 where
  pub decisions : List Decision
  pub cancelled_in_stream : Bool
  pub cancelled_in_wait : Bool

-- What the loop does: it enqueues a route, or waits.
pub data WatchAct : Type 0 where
  triggered : NamespacedName → WatchAct
  waited : ℤ → WatchAct

-- The object that `handle` sends: the route that the decision names.
abbrev pub decided : Decision → NamespacedName
decided d = record { namespace = d.ref.namespace; name = d.ref.name }

unfoldable pub handle : Decision → WatchAct
handle d = triggered (decided d)

-- The loop of `Start`, over the connections that the context's life allows; it returns once the
-- context is cancelled. The wait is recorded where it ran to its end.
unfoldable pub watch_from : Watcher → ℤ → List Connection → List WatchAct
unfolding handle next_backoff
watch_from w backoff [] = []
watch_from w backoff (c ∷ rest) =
    let later = waited backoff ∷ watch_from w (next_backoff w backoff) rest in
    map handle c.decisions
    ++ (if c.cancelled_in_stream then [] else if c.cancelled_in_wait then [] else later)

unfoldable pub start : Watcher → List Connection → List WatchAct
unfolding watch_from least_delay
start w connections = watch_from w (least_delay w) connections
