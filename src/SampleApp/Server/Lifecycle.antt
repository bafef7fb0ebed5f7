-- ===== src/SampleApp/Server/Lifecycle.antt =====
-- `Run` and `markReadyAfterDelay`: two goroutines, the cancelled context and the ready flag.
use kubetraffic.Prelude.{◌≡◌, refl, ◌⊎◌, inl, Bool, true, false, arith}

-- `Run`: serving, then, once the context is cancelled, about to clear the flag, draining, done.
pub data RunPhase : Type 0 where
  serving clearing draining returned : RunPhase

-- `markReadyAfterDelay`: about to look at the configuration, in its select, about to set the flag,
-- done.
pub data MarkPhase : Type 0 where
  starting waiting setting stopped : MarkPhase

pub record Life : Type 0 where
  pub ready : Bool
  pub cancelled : Bool
  pub run : RunPhase
  pub mark : MarkPhase

-- The beginning of `Run`.
abbrev pub born : Life
born = record { ready = false; cancelled = false; run = serving; mark = starting }

-- One step, for a value of `FailReadiness`. Where both cases of a select can proceed, either may.
-- `ListenAndServe`, in a goroutine of its own, is seen by the error that it sends; `Shutdown`
-- returns when the connections are idle or `ShutdownGrace` is over, either of which may be at any
-- time.
pub data Turn (fail_readiness : Bool) : Life → Life → Type 0 where
  cancel : (l : Life) → Turn fail_readiness l (record l { cancelled = true })
  disabled :
      (l : Life)
      → l.mark ≡ starting
      → fail_readiness ≡ true
      → Turn fail_readiness l (record l { mark = stopped })
  enabled :
      (l : Life)
      → l.mark ≡ starting
      → fail_readiness ≡ false
      → Turn fail_readiness l (record l { mark = waiting })
  gave_up :
      (l : Life)
      → l.mark ≡ waiting
      → l.cancelled ≡ true
      → Turn fail_readiness l (record l { mark = stopped })
  delay_over : (l : Life) → l.mark ≡ waiting → Turn fail_readiness l (record l { mark = setting })
  set_ready :
      (l : Life)
      → l.mark ≡ setting
      → Turn fail_readiness l (record l { ready = true; mark = stopped })
  listener_failed :
      (l : Life) → l.run ≡ serving → Turn fail_readiness l (record l { run = returned })
  shutdown_requested :
      (l : Life)
      → l.run ≡ serving
      → l.cancelled ≡ true
      → Turn fail_readiness l (record l { run = clearing })
  clear_ready :
      (l : Life)
      → l.run ≡ clearing
      → Turn fail_readiness l (record l { ready = false; run = draining })
  drained : (l : Life) → l.run ≡ draining → Turn fail_readiness l (record l { run = returned })

pub data Turns (fail_readiness : Bool) (s : Life) : Life → Type 0 where
  here : Turns fail_readiness s s
  next :
      {l m : Life} → Turns fail_readiness s l → Turn fail_readiness l m → Turns fail_readiness s m

-- With `FailReadiness` the flag is never set, and the other goroutine never waits.
record IsMuted (l : Life) : Type 0 where
  unready : l.ready ≡ false
  idle : (l.mark ≡ starting) ⊎ (l.mark ≡ stopped)

Turn-IsMuted : {l m : Life} → Turn true l m → IsMuted l → IsMuted m
Turn-IsMuted (cancel l) x = ground arith
Turn-IsMuted (disabled l e f) x = ground arith
Turn-IsMuted (enabled l e f) x = ground arith
Turn-IsMuted (gave_up l e c) x = ground arith
Turn-IsMuted (delay_over l e) x = ground arith
Turn-IsMuted (set_ready l e) x = ground arith
Turn-IsMuted (listener_failed l e) x = ground arith
Turn-IsMuted (shutdown_requested l e c) x = ground arith
Turn-IsMuted (clear_ready l e) x = ground arith
Turn-IsMuted (drained l e) x = ground arith

Turns-IsMuted : {s l : Life} → IsMuted s → Turns true s l → IsMuted l
Turns-IsMuted x here = x
Turns-IsMuted x (next r t) = Turn-IsMuted t (Turns-IsMuted x r)

-- With `FailReadiness` the server is not ready in any state that it can reach.
pub fail_readiness_lem : {l : Life} → Turns true born l → l.ready ≡ false
fail_readiness_lem r = (Turns-IsMuted (record { unready = refl; idle = inl refl }) r).unready

-- Once the flag was cleared for the shutdown with the other goroutine done, it stays cleared.
record IsClosed (l : Life) : Type 0 where
  unready : l.ready ≡ false
  over : l.mark ≡ stopped
  left : (l.run ≡ draining) ⊎ (l.run ≡ returned)

Turn-IsClosed : {f : Bool} {l m : Life} → Turn f l m → IsClosed l → IsClosed m
Turn-IsClosed (cancel l) x = ground arith
Turn-IsClosed (disabled l e f) x = ground arith
Turn-IsClosed (enabled l e f) x = ground arith
Turn-IsClosed (gave_up l e c) x = ground arith
Turn-IsClosed (delay_over l e) x = ground arith
Turn-IsClosed (set_ready l e) x = ground arith
Turn-IsClosed (listener_failed l e) x = ground arith
Turn-IsClosed (shutdown_requested l e c) x = ground arith
Turn-IsClosed (clear_ready l e) x = ground arith
Turn-IsClosed (drained l e) x = ground arith

Turns-IsClosed : {f : Bool} {s l : Life} → IsClosed s → Turns f s l → IsClosed l
Turns-IsClosed x here = x
Turns-IsClosed x (next r t) = Turn-IsClosed t (Turns-IsClosed x r)

-- Where the other goroutine is done when `Run` clears the flag, the server is not ready in any
-- state after that.
pub clear_ready_lem :
    (f : Bool) (l m : Life)
    → l.run ≡ clearing
    → l.mark ≡ stopped
    → Turns f (record l { ready = false; run = draining }) m
    → m.ready ≡ false
clear_ready_lem f l m run mark r =
    (Turns-IsClosed (record { unready = refl; over = mark; left = inl refl }) r).unready

-- Without `FailReadiness` that condition is needed: from any state that waits for the delay while it
-- serves, the server can become ready while it drains its connections.
pub drains_ready :
    (l : Life)
    → l.mark ≡ waiting
    → l.run ≡ serving
    → (m : Life) × Turns false l m × (m.run ≡ draining) × (m.ready ≡ true)
drains_ready l mark run = (
  record l { ready = true; cancelled = true; run = draining; mark = stopped },
  next
      (next (next (next (next here (delay_over l mark)) (cancel _)) (shutdown_requested _ run refl))
        (clear_ready _ refl))
      (set_ready _ refl),
  refl,
  refl,
)
