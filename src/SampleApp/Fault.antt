-- ===== src/SampleApp/Fault.antt =====
-- demo/sample-app/internal/server/fault.go: the fault-injection parameters. Every method holds the
-- state's mutex throughout, so each is one step.
use kubetraffic.Prelude.{◌≡◌, false, arith, if◌then◌else◌}
use kubetraffic.Prelude.Int.{ℤ, pos, ltb_ℤ, neg_part}
use kubetraffic.SampleApp.Floats.{Floats, OrderLaws}

pub record FaultState (F : Type 0) : Type 0 where
  pub rate : F
  pub latency : ℤ
  pub jitter : ℤ

unfoldable pub max0 : ℤ → ℤ
max0 d = if ltb_ℤ d (pos 0) then pos 0 else d

module _ {F : Type 0} (fl : Floats F) where
  unfoldable pub clamp01 : F → F
  clamp01 v =
      if fl.lt v (fl.milli 0)
      then fl.milli 0
      else if fl.lt (fl.milli 1000) v
      then fl.milli 1000
      else v

  unfoldable pub new_fault_state : F → ℤ → ℤ → FaultState F
  unfolding clamp01 max0
  new_fault_state rate latency jitter = record {
    rate = clamp01 rate;
    latency = max0 latency;
    jitter = max0 jitter;
  }

  unfoldable pub set_fault : F → ℤ → FaultState F → FaultState F
  unfolding clamp01 max0
  set_fault rate latency f = record f { rate = clamp01 rate; latency = max0 latency }

  -- A rate that is neither below 0 nor above 1, and no negative delays.
  pub record IsTame (f : FaultState F) : Type 0 where
    pub rate_from : fl.lt f.rate (fl.milli 0) ≡ false
    pub rate_to : fl.lt (fl.milli 1000) f.rate ≡ false
    pub latency_from : neg_part f.latency ≡ 0
    pub jitter_from : neg_part f.jitter ≡ 0

  module _ (laws : OrderLaws fl) where
    clamp01_bounds :
        (v : F)
        → (fl.lt (clamp01 v) (fl.milli 0) ≡ false) × (fl.lt (fl.milli 1000) (clamp01 v) ≡ false)
    unfolding clamp01
    clamp01_bounds v =
        let a = laws.zero_irrefl in let b = laws.one_irrefl in let c = laws.one_zero in ground arith

    pub new_fault_state-IsTame :
        (rate : F) (latency jitter : ℤ) → IsTame (new_fault_state rate latency jitter)
    unfolding new_fault_state
    new_fault_state-IsTame rate latency jitter =
        let (from, to) = clamp01_bounds rate in
        record {
          rate_from = from;
          rate_to = to;
          latency_from = ground arith;
          jitter_from = ground arith;
        }

    pub set_fault-IsTame :
        (rate : F) (latency : ℤ) (f : FaultState F) → IsTame f → IsTame (set_fault rate latency f)
    unfolding set_fault
    set_fault-IsTame rate latency f t =
        let (from, to) = clamp01_bounds rate in
        record {
          rate_from = from;
          rate_to = to;
          latency_from = ground arith;
          jitter_from = t.jitter_from;
        }
