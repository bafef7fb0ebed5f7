-- ===== src/Controller/Decisions/Backoff.antt =====
-- The reconnect delays of the decision watcher.
use Prim.Native.Nat.{min}
use kubetraffic.Prelude.{ap, ◌∙◌, ℕ, ◌+◌, ◌≤◌, ◌<◌, List, [], ◌∷◌, map, All, All-append, arith, ◌≡◌}
use kubetraffic.Prelude.Int.{pos, ◌+ℤ◌, ◌≤ℤ◌, int64_half, wrap64, wrap64-of_lt}
use kubetraffic.ControlPlane.Wire.{Decision}
use kubetraffic.Controller.Decisions.{
  Watcher, least_delay, most_delay, next_backoff, Connection, WatchAct, triggered, waited, handle,
  watch_from, start,
}

-- The delays of a watcher: in order, and the largest can be doubled in an int64.
pub record HasDelays (w : Watcher) (low high : ℕ) : Type 0 where
  pub least : least_delay w ≡ pos low
  pub most : most_delay w ≡ pos high
  pub ordered : low ≤ high
  pub fits : high + high < int64_half

-- A wait between the two delays; a trigger is no wait.
abbrev pub IsBounded : ℕ → ℕ → WatchAct → Type 0
IsBounded low high (triggered ref) = Unit
IsBounded low high (waited d) = (pos low ≤ℤ d) × (d ≤ℤ pos high)

module _ (w : Watcher) (low high : ℕ) (delays : HasDelays w low high) where
  doubled : (b : ℕ) → b ≤ high → wrap64 (pos b +ℤ pos b) ≡ pos (b + b)
  doubled b h =
      let plain : pos b +ℤ pos b ≡ pos (b + b) = ground arith in
      let fits = delays.fits in ap wrap64 plain ∙ wrap64-of_lt (b + b) (omega arith)

  -- A delay in range is doubled, up to the largest.
  next_backoff-eq : (b : ℕ) → b ≤ high → next_backoff w (pos b) ≡ pos (min (b + b) high)
  unfolding next_backoff
  next_backoff-eq b h = rw (doubled b h) (rw delays.most (ground arith))

  handles-IsBounded : (ds : List Decision) → All (IsBounded low high) (map handle ds)
  unfolding handle
  handles-IsBounded [] = tt
  handles-IsBounded (d ∷ ds) = (tt, handles-IsBounded ds)

  watch_from-IsBounded :
      (b : ℕ) (cs : List Connection)
      → low ≤ b
      → b ≤ high
      → All (IsBounded low high) (watch_from w (pos b) cs)
  unfolding watch_from
  watch_from-IsBounded b [] l h = tt
  watch_from-IsBounded b (c ∷ cs) l h =
      let ordered = delays.ordered in
      let later : All (IsBounded low high) (watch_from w (next_backoff w (pos b)) cs) =
        rw (next_backoff-eq b h)
          (watch_from-IsBounded (min (b + b) high) cs (omega arith) (omega arith)) in
      All-append (IsBounded low high) (map handle c.decisions) _ (handles-IsBounded c.decisions)
        (ground arith)

-- Whatever the connections, every wait before a reconnect lies between the least and the largest
-- delay, as long as the least is no larger than the largest, and the largest can be doubled in an
-- int64.
pub start-IsBounded :
    (w : Watcher) (low high : ℕ) (cs : List Connection)
    → HasDelays w low high
    → All (IsBounded low high) (start w cs)
unfolding start
start-IsBounded w low high cs delays =
    let ordered = delays.ordered in
    rw delays.least (watch_from-IsBounded w low high delays low cs (omega arith) (omega arith))
