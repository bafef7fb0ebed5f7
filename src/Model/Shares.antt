-- ===== src/Model/Shares.antt =====
-- `apportion` splits a weight exactly and evenly, where HAProxy's bounds on a weight allow it.
use kubetraffic.Prelude.{
  ℕ, zero, suc, ◌+◌, ◌-◌, ◌*◌, ◌/◌, ◌%◌, ◌≤◌, ◌<◌, ◌≡◌, ◌∙◌, refl, length, length-replicate,
  replicate, sum, All, arith,
}
use kubetraffic.Prelude.Int.{ℤ, pos, pos_part, ◌≤ℤ◌}
use kubetraffic.Model.Apportion.{shares, apportion, clamp_weight}
use Prim.Native.Nat.{min, max}
use native.Mathlib.Decide.{dec_lt}

length-shares : (base rem i k : ℕ) → length (shares base rem i k) ≡ k
unfolding shares
length-shares base rem i zero = refl
length-shares base rem i (suc k) = omega (arith, length-shares base rem (suc i) k)

-- Every server has a weight.
pub length-apportion : (w : ℤ) (n : ℕ) → length (apportion w n) ≡ n
unfolding apportion
length-apportion w n =
    ground
      (arith, length-replicate {A = ℕ} n 0, length-shares (pos_part w / n) (pos_part w % n) 0 n)

-- Where no share is raised or cut, the first `rem` places have one more than `base`.
sum-shares :
    (base rem i k : ℕ)
    → 1 ≤ base
    → base + min 1 rem ≤ 256
    → sum (shares base rem i k) ≡ k * base + (min rem (i + k) - min rem i)
unfolding shares
sum-shares base rem i zero low high = grind arith
sum-shares base rem i (suc k) low high = grind (arith, sum-shares base rem (suc i) k low high)

All-shares :
    (low high base rem i k : ℕ)
    → low ≤ clamp_weight base
    → clamp_weight (base + 1) ≤ high
    → All (λ s. (low ≤ s) × (s ≤ high)) (shares base rem i k)
unfolding shares
All-shares low high base rem i zero l h = tt
All-shares low high base rem i (suc k) l h =
    ((ground arith, ground arith), All-shares low high base rem (suc i) k l h)

-- Where every share is raised to 1, or cut to 256.
sum-shares_low : (rem i k : ℕ) → sum (shares 0 rem i k) ≡ k
unfolding shares
sum-shares_low rem i zero = refl
sum-shares_low rem i (suc k) = ground (arith, sum-shares_low rem (suc i) k)

sum-shares_high : (base rem i k : ℕ) → 256 ≤ base → sum (shares base rem i k) ≡ k * 256
unfolding shares
sum-shares_high base rem i zero h = refl
sum-shares_high base rem i (suc k) h = ground (arith, sum-shares_high base rem (suc i) k h)

apportion-pos : (w n : ℕ) → 1 ≤ w → 1 ≤ n → apportion (pos w) n ≡ shares (w / n) (w % n) 0 n
unfolding apportion
apportion-pos w n hw hn = ground arith

-- The quotient, as far as it decides whether shares are raised or cut.
quotient_low : (w n : ℕ) → w < n → w / n ≡ 0
quotient_low w n h = grind arith

quotient_pos : (w n : ℕ) → 1 ≤ n → n ≤ w → 1 ≤ w / n
quotient_pos w n h k = grind arith

quotient_fits : (w n : ℕ) → 1 ≤ n → w < n * 256 → w / n + min 1 (w % n) ≤ 256
quotient_fits w n h k = grind arith

quotient_high : (w n : ℕ) → 1 ≤ n → n * 256 ≤ w → 256 ≤ w / n
quotient_high w n h k = grind arith

-- The weights of a version with a positive weight sum to that weight, raised to one for each
-- server and cut to 256 for each server.
pub sum-apportion : (w n : ℕ) → 1 ≤ w → 1 ≤ n → sum (apportion (pos w) n) ≡ min (max w n) (n * 256)
sum-apportion w n hw hn = rw (apportion-pos w n hw hn) (elim (dec_lt w n) [
  | yes few ↦ rw (quotient_low w n few) (sum-shares_low (w % n) 0 n ∙ grind arith)
  | no enough ↦ elim (dec_lt w (n * 256)) [
    | yes fits ↦
        sum-shares (w / n) (w % n) 0 n (quotient_pos w n hn (omega arith))
          (quotient_fits w n hn fits)
        ∙ grind arith
    | no over ↦
        sum-shares_high (w / n) (w % n) 0 n (quotient_high w n hn (omega arith)) ∙ grind arith
  ]
])

-- Each server of a version with a positive weight gets a weight between 1 and 256.
pub apportion_bounds : (w n : ℕ) → 1 ≤ w → All (λ s. (1 ≤ s) × (s ≤ 256)) (apportion (pos w) n)
unfolding apportion
apportion_bounds w zero hw = tt
apportion_bounds w (suc n) hw =
    rw (apportion-pos w (suc n) hw (omega arith))
      (All-shares 1 256 (w / suc n) (w % suc n) 0 (suc n) (ground arith) (ground arith))

-- No server of a version gets more than one unit of weight above another.
pub apportion_even :
    (w n : ℕ)
    → 1 ≤ w
    → 1 ≤ n
    → All (λ s. (clamp_weight (w / n) ≤ s) × (s ≤ clamp_weight (w / n) + 1)) (apportion (pos w) n)
apportion_even w n hw hn =
    rw (apportion-pos w n hw hn) (All-shares _ _ (w / n) (w % n) 0 n (omega arith) (ground arith))

-- A version whose weight is zero, or negative, gets no traffic.
pub apportion_parked : (w : ℤ) (n : ℕ) → w ≤ℤ pos 0 → apportion w n ≡ replicate n 0
unfolding apportion
apportion_parked w n h = ground arith
