-- ===== src/SampleApp/Server/Traffic.antt =====
-- Requests in flight, in any interleaving: the gauge, the request count and the fault state.
use kubetraffic.Prelude.{
  ℕ, suc, ◌+◌, ◌%◌, ◌<◌, ◌≡◌, refl, ap, ◌∙◌, ◌≢◌, Bool, true, none, some, List, arith, or_else, Str,
  bytes,
}
use kubetraffic.Prelude.Int.{ℤ, pos, negsuc, ◌+ℤ◌, ltb_ℤ, wrap64, pos_part, neg_part, int64_half}
use kubetraffic.SampleApp.Floats.{Floats, OrderLaws}
use kubetraffic.SampleApp.Config.{
  milliseconds, Config, Process, from_env, get_duration_ms-lt-max, get_duration_ms,
}
use kubetraffic.SampleApp.Fault.{
  set_fault, new_fault_state, FaultState, IsTame, max0, new_fault_state-IsTame, set_fault-IsTame,
}
use kubetraffic.SampleApp.Metrics.{new_metrics, uint64_mod, inc_inflight, dec_inflight, observe}
use kubetraffic.SampleApp.Metrics.Counts.{succ64, pred64}
use kubetraffic.SampleApp.Handlers.{
  panicked, Request, FaultRequest, RootWorld, root_delay, drawn_delay, update_fault, handle_root,
  WriterCall,
}
use kubetraffic.SampleApp.Server.{
  Server, Outside, new_server, begin_request, leave_request, end_request,
}

-- The server, the requests that `instrument` has counted in and not yet out, those that it has
-- counted out and not yet recorded, and how many it has recorded.
pub record Traffic (F : Type 0) : Type 0 where
  pub server : Server F
  pub open_requests : ℕ
  pub leaving : ℕ
  pub finished : ℕ

-- The bound of the draw does not wrap.
jitter-drawable :
    (j : ℤ)
    → neg_part j ≡ 0
    → suc (pos_part j) < int64_half
    → ltb_ℤ (pos 0) (wrap64 (j +ℤ pos 1)) ≡ true
jitter-drawable (negsuc n) h d = absurd (omega arith)
jitter-drawable (pos n) h d = rw (succ64 (pos n) refl d) (ground arith)

max0-lt : (d : ℤ) → suc (pos_part d) < int64_half → suc (pos_part (max0 d)) < int64_half
unfolding max0
max0-lt d h = ground arith

module _ {F : Type 0} (fl : Floats F) where
  abbrev pub quiet : Config F → Traffic F
  quiet cfg = record { server = new_server fl cfg; open_requests = 0; leaving = 0; finished = 0 }

  -- One step of some goroutine. A POST to /admin/fault may write what it makes of any snapshot;
  -- a business request reads a snapshot, whose jitter is that of now, since nothing sets it.
  pub data Step : Traffic F → Traffic F → Type 0 where
    arrive :
        (t : Traffic F)
        → suc t.open_requests < int64_half
        → Step t
            (record t { server = begin_request fl t.server; open_requests = suc t.open_requests })
    configure :
        (t : Traffic F) (req : FaultRequest F) (seen : FaultState F)
        → Step t (record t {
          server = record t.server { fault = update_fault fl req seen t.server.fault };
        })
    leave :
        (t : Traffic F) (n : ℕ)
        → t.open_requests ≡ suc n
        → Step t (record t {
          server = leave_request fl t.server;
          open_requests = n;
          leaving = suc t.leaving;
        })
    complete :
        (t : Traffic F) (out : Outside F) (method : Str) (seconds : F) (calls : List (WriterCall F))
        (n : ℕ)
        → t.leaving ≡ suc n
        → Step t (record t {
          server = end_request fl out method seconds calls t.server;
          leaving = n;
          finished = suc t.finished;
        })
    crash :
        (t : Traffic F) (w : RootWorld F) (r : Request) (seen : FaultState F) (n : ℕ)
        → t.open_requests ≡ suc n
        → seen.jitter ≡ t.server.fault.jitter
        → handle_root fl t.server.cfg w r seen ≡ panicked
        → Step t (record t { open_requests = n })
    turn : (t : Traffic F) (b : Bool) → Step t (record t { server = record t.server { ready = b } })

  pub data Reach (s : Traffic F) : Traffic F → Type 0 where
    here : Reach s s
    next : {t u : Traffic F} → Reach s t → Step t u → Reach s u

  -- The gauge and the count are exact, and the fault state is tame.
  pub record IsExact (t : Traffic F) : Type 0 where
    pub gauge : t.server.metrics.inflight ≡ pos t.open_requests
    pub few : t.open_requests < int64_half
    pub counted : t.server.metrics.count ≡ t.finished % uint64_mod
    pub tame : IsTame fl t.server.fault
    pub drawable : suc (pos_part t.server.fault.jitter) < int64_half

  begin_inflight :
      (s : Server F) (n : ℕ)
      → s.metrics.inflight ≡ pos n
      → suc n < int64_half
      → (begin_request fl s).metrics.inflight ≡ pos (suc n)
  unfolding begin_request inc_inflight
  begin_inflight s n e l = ap (λ k. wrap64 (k +ℤ pos 1)) e ∙ succ64 (pos n) refl l

  leave_inflight :
      (s : Server F) (n : ℕ)
      → s.metrics.inflight ≡ pos (suc n)
      → suc n < int64_half
      → (leave_request fl s).metrics.inflight ≡ pos n
  unfolding leave_request dec_inflight
  leave_inflight s n e l = ap (λ k. wrap64 (k +ℤ negsuc 0)) e ∙ pred64 n (omega arith)

  count-end_request :
      (out : Outside F) (method : Str) (seconds : F) (calls : List (WriterCall F)) (s : Server F)
      → (end_request fl out method seconds calls s).metrics.count
        ≡ (s.metrics.count + 1) % uint64_mod
  unfolding end_request observe
  count-end_request out method seconds calls s = refl

  no_panic :
      (cfg : Config F) (w : RootWorld F) (r : Request) (f : FaultState F)
      → neg_part f.jitter ≡ 0
      → suc (pos_part f.jitter) < int64_half
      → handle_root fl cfg w r f ≢ panicked
  unfolding handle_root root_delay drawn_delay
  no_panic cfg w r f t d e = ground (arith, jitter-drawable f.jitter t d)

  module _ (laws : OrderLaws fl) where
    update-IsTame :
        (req : FaultRequest F) (seen f : FaultState F)
        → IsTame fl f
        → IsTame fl (update_fault fl req seen f)
    unfolding update_fault
    update-IsTame req seen f t =
        set_fault-IsTame fl laws (or_else req.error_rate seen.rate)
          (elim req.latency_ms [ none ↦ seen.latency | some ms ↦ milliseconds ms ]) f t

    Step-IsExact : {t u : Traffic F} → Step t u → IsExact t → IsExact u
    Step-IsExact (arrive t few) x = record {
      gauge = begin_inflight t.server t.open_requests x.gauge few;
      few = few;
      counted = unfold begin_request inc_inflight in x.counted;
      tame = unfold begin_request in x.tame;
      drawable = unfold begin_request in x.drawable;
    }
    Step-IsExact (configure t req seen) x = record {
      gauge = x.gauge;
      few = x.few;
      counted = x.counted;
      tame = update-IsTame req seen t.server.fault x.tame;
      drawable = unfold update_fault set_fault in x.drawable;
    }
    Step-IsExact (leave t n e) x =
        let few = x.few in
        record {
          gauge = leave_inflight t.server n (x.gauge ∙ ap pos e) (omega arith);
          few = omega arith;
          counted = unfold leave_request dec_inflight in x.counted;
          tame = unfold leave_request in x.tame;
          drawable = unfold leave_request in x.drawable;
        }
    Step-IsExact (complete t out method seconds calls n e) x =
        let counted = x.counted in
        record {
          gauge = unfold end_request observe in x.gauge;
          few = x.few;
          counted = count-end_request out method seconds calls t.server ∙ omega arith;
          tame = unfold end_request in x.tame;
          drawable = unfold end_request in x.drawable;
        }
    Step-IsExact (crash t w r seen n e same p) x = absurd (
        no_panic t.server.cfg w r seen (ap neg_part same ∙ x.tame.jitter_from) (rw same x.drawable)
          p)
    Step-IsExact (turn t b) x = record {
      gauge = x.gauge;
      few = x.few;
      counted = x.counted;
      tame = x.tame;
      drawable = x.drawable;
    }

    Reach-IsExact : {s t : Traffic F} → IsExact s → Reach s t → IsExact t
    Reach-IsExact x here = x
    Reach-IsExact x (next r st) = Step-IsExact st (Reach-IsExact x r)

    quiet-IsExact : (p : Process) → IsExact (quiet (from_env fl p))
    unfolding new_server from_env
    quiet-IsExact p = record {
      gauge = unfold new_metrics in refl;
      few = omega arith;
      counted = unfold new_metrics in omega arith;
      tame = new_fault_state-IsTame fl laws _ _ _;
      drawable =
          unfold new_fault_state in
          max0-lt (get_duration_ms p (bytes "LATENCY_JITTER_MS") (pos 0))
            (get_duration_ms-lt-max p (bytes "LATENCY_JITTER_MS") (pos 0));
    }

    -- A server started from its environment, under any interleaving of requests, updates of the
    -- fault state and readiness changes, with fewer than 2^63 requests open at once: the in-flight
    -- gauge is the number of requests counted in and not yet out, the request count is the number
    -- recorded, modulo 2^64, and the injected fault rate is neither below 0 nor above 1, with no
    -- negative delay. A rate that is not a number is neither, and can be there.
    pub Reach-from_env : (p : Process) {t : Traffic F} → Reach (quiet (from_env fl p)) t → IsExact t
    Reach-from_env p r = Reach-IsExact (quiet-IsExact p) r
