-- ===== src/Model/Apportion.antt =====
-- `apportion` of controller/internal/model/model.go.
use kubetraffic.Prelude.{
  ℕ, zero, suc, ◌+◌, ◌/◌, ◌%◌, List, [], ◌∷◌, replicate, ltb, ◌==◌, ◌||◌, if◌then◌else◌,
}
use kubetraffic.Prelude.Int.{ℤ, pos, pos_part, leb_ℤ}

-- `if w < 1 { w = 1 }` and `if w > 256 { w = 256 }`
abbrev pub clamp_weight : ℕ → ℕ
clamp_weight w = let raised = if ltb w 1 then 1 else w in if ltb 256 raised then 256 else raised

-- The share of the server at place `i`.
unfoldable pub share : ℕ → ℕ → ℕ → ℕ
share base rem i = clamp_weight (if ltb i rem then base + 1 else base)

-- The loop, with `k` places left.
unfoldable pub shares : ℕ → ℕ → ℕ → ℕ → List ℕ
unfolding share
shares base rem i zero = []
shares base rem i (suc k) = share base rem i ∷ shares base rem (suc i) k

unfoldable pub apportion : ℤ → ℕ → List ℕ
unfolding shares
apportion version_weight n =
    if (n == 0) || leb_ℤ version_weight (pos 0)
    then replicate n 0
    else shares (pos_part version_weight / n) (pos_part version_weight % n) 0 n
