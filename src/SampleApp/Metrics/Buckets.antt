-- ===== src/SampleApp/Metrics/Buckets.antt =====
-- The histogram that is exposed is a histogram: cumulative counts that end at the request count.
use kubetraffic.Prelude.{ℕ, ◌≤◌, ◌<◌, List, [], ◌∷◌, map, arith, Str, length}
use kubetraffic.Prelude.Int.{int64_half}
use kubetraffic.SampleApp.Metrics.{new_metrics}
use kubetraffic.SampleApp.Floats.{Floats, OrderLaws}
use kubetraffic.SampleApp.Metrics.Counts.{Observation, within, observe_all, observe_all_lem}

-- From one number over the list to another, never down.
abbrev pub Climbs : ℕ → List ℕ → ℕ → Type 0
Climbs low [] high = low ≤ high
Climbs low (n ∷ rest) high = (low ≤ n) × Climbs n rest high

module _ {F : Type 0} (fl : Floats F) (laws : OrderLaws fl) (obs : List (Observation F)) where
  within_mono_from : (m n : ℕ) (os : List (Observation F)) → m ≤ n → within fl os m ≤ within fl os n
  within_mono_from m n [] h = omega arith
  within_mono_from m n (o ∷ rest) h = ground (
    arith,
    within_mono_from m n rest h,
    laws.le_trans o.seconds (fl.milli m) (fl.milli n),
    laws.milli_mono m n h,
  )

  within-le-length : (n : ℕ) (os : List (Observation F)) → within fl os n ≤ length os
  within-le-length n [] = omega arith
  within-le-length n (o ∷ rest) = ground (arith, within-le-length n rest)

  within-Climbs :
      (b : ℕ) (bounds : List ℕ) (top : ℕ)
      → Climbs b bounds top
      → Climbs (within fl obs b) (map (within fl obs) bounds) (length obs)
  within-Climbs b [] top h = within-le-length b obs
  within-Climbs b (c ∷ bounds) top h =
      (within_mono_from b c obs h.0, within-Climbs c bounds top h.1)

  -- After fewer than 2^63 observations the buckets never fall from one bound to the next, and the
  -- last is at most the request count, which is the bucket of +Inf.
  pub observe_all-Climbs :
      (app version pod : Str)
      → length obs < int64_half
      → let m = observe_all fl obs (new_metrics fl app version pod) in
        Climbs 0 m.bucket_counts m.count
  observe_all-Climbs app version pod l =
      let (counted, counts, at, total) = observe_all_lem fl obs app version pod l in
      rw (counts, counted)
        (
          (omega arith),
          within-Climbs 5 (10 ∷ 25 ∷ 50 ∷ 100 ∷ 250 ∷ 500 ∷ 1000 ∷ 2500 ∷ 5000 ∷ 10000 ∷ []) 10000
              (omega arith),
        )
