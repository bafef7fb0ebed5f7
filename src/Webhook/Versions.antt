-- ===== src/Webhook/Versions.antt =====
-- `validateVersions` accepts exactly the version lists whose names are given and distinct, whose
-- weights are percentages, and whose weights sum to 100.
use kubetraffic.Prelude.{
  ℕ, suc, ◌+◌, ◌*◌, ◌<◌, ◌≡◌, refl, ◌≢◌, ◌↔◌, Str, List, [], ◌∷◌, if◌then◌else◌, ◌∙◌, length, All,
  Distinct, FreshAfter, FreshAfter-nil, arith, is_empty, sym, ap, bytes,
}
use kubetraffic.Prelude.Int.{
  ℤ, pos, ◌+ℤ◌, ◌≤ℤ◌, eqb_ℤ_iff, wrap32, wrap32-of_IsInt32, int32_half, negsuc,
}
use kubetraffic.Api.{RouteRule, BackendVersion}
use kubetraffic.Webhook.{check_versions, name_errors, out_of_range, validate_versions}
use kubetraffic.Webhook.Errors.{FieldPath, child}

abbrev pub IsPercent : ℤ → Type 0
IsPercent w = (pos 0 ≤ℤ w) × (w ≤ℤ pos 100)

abbrev pub IsNamed : BackendVersion → Type 0
IsNamed v = v.name ≢ []

abbrev pub names : List BackendVersion → List Str
names [] = []
names (v ∷ vs) = v.name ∷ names vs

abbrev pub weights : List BackendVersion → List ℤ
weights [] = []
weights (v ∷ vs) = v.weight ∷ weights vs

-- The sum of the weights, over the integers.
abbrev pub total : List ℤ → ℤ
total [] = pos 0
total (w ∷ ws) = w +ℤ total ws

-- The sum as the loop computes it.
abbrev wrapped_total : ℤ → List ℤ → ℤ
wrapped_total acc [] = acc
wrapped_total acc (w ∷ ws) = wrapped_total (wrap32 (acc +ℤ w)) ws

abbrev Accepts : List Str → ℤ → List BackendVersion → Type 0
Accepts seen acc vs =
    All IsNamed vs
    × FreshAfter seen (names vs)
    × All IsPercent (weights vs)
    × (wrapped_total acc (weights vs) ≡ pos 100)

check_versions_sound :
    (vp : FieldPath) (i : ℕ) (seen : List Str) (acc : ℤ) (vs : List BackendVersion)
    → check_versions vp i seen acc vs ≡ []
    → Accepts seen acc vs
unfolding check_versions name_errors out_of_range
check_versions_sound vp i seen acc [] h = ground (arith, eqb_ℤ_iff acc (pos 100))
check_versions_sound vp i seen acc (v ∷ vs) h =
    ground (arith, check_versions_sound vp (suc i) (v.name ∷ seen) (wrap32 (acc +ℤ v.weight)) vs)

check_versions_complete :
    (vp : FieldPath) (i : ℕ) (seen : List Str) (acc : ℤ) (vs : List BackendVersion)
    → Accepts seen acc vs
    → check_versions vp i seen acc vs ≡ []
unfolding check_versions name_errors out_of_range
check_versions_complete vp i seen acc [] h = ground (arith, eqb_ℤ_iff acc (pos 100))
check_versions_complete vp i seen acc (v ∷ vs) h =
    ground (arith, check_versions_complete vp (suc i) (v.name ∷ seen) (wrap32 (acc +ℤ v.weight)) vs)

regroup : (a k : ℕ) (t : ℤ) → pos (a + k) +ℤ t ≡ pos a +ℤ (pos k +ℤ t)
regroup a k t = ground arith

wrap32-sum : (a k : ℕ) → a + k < int32_half → wrap32 (pos a +ℤ pos k) ≡ pos (a + k)
wrap32-sum a k h =
    let plain : pos a +ℤ pos k ≡ pos (a + k) = ground arith in
    ap wrap32 plain ∙ wrap32-of_IsInt32 (pos (a + k)) (omega arith)

-- The int32 sum of percentages is their sum, as long as there are not too many of them.
wrapped_total-eq :
    (a : ℕ) (ws : List ℤ)
    → All IsPercent ws
    → a + 100 * length ws < int32_half
    → wrapped_total (pos a) ws ≡ pos a +ℤ total ws
wrapped_total-eq a [] h bound = ground arith
wrapped_total-eq a (pos k ∷ ws) h bound =
    ap (λ t. wrapped_total t ws) (wrap32-sum a k (omega arith))
    ∙ (wrapped_total-eq (a + k) ws h.1 (omega arith) ∙ regroup a k (total ws))
wrapped_total-eq a (negsuc k ∷ ws) h bound = absurd (omega arith)

length-weights : (vs : List BackendVersion) → length (weights vs) ≡ length vs
length-weights [] = refl
length-weights (v ∷ vs) = ap suc (length-weights vs)

-- So few versions that an int32 holds the sum of as many percentages; the schema allows 16.
abbrev pub IsShort : List BackendVersion → Type 0
IsShort vs = 100 * length vs < int32_half

abbrev pub IsFullSplit : List BackendVersion → Type 0
IsFullSplit vs =
    All IsNamed vs
    × Distinct (names vs)
    × All IsPercent (weights vs)
    × (total (weights vs) ≡ pos 100)

-- No versions at all, or a split of all the traffic among them.
abbrev pub IsSplit : List BackendVersion → Type 0
IsSplit [] = Unit
IsSplit (v ∷ vs) = IsFullSplit (v ∷ vs)

pos0+ℤ : (a : ℤ) → pos 0 +ℤ a ≡ a
pos0+ℤ a = ground arith

total-wrapped :
    (vs : List BackendVersion)
    → IsShort vs
    → All IsPercent (weights vs)
    → wrapped_total (pos 0) (weights vs) ≡ total (weights vs)
total-wrapped vs short h =
    wrapped_total-eq 0 (weights vs) h (omega (arith, length-weights vs))
    ∙ pos0+ℤ (total (weights vs))

Accepts-iff : (vs : List BackendVersion) → IsShort vs → Accepts [] (pos 0) vs ↔ IsFullSplit vs
Accepts-iff vs short = (
  (λ (n, f, p, t). (n, (FreshAfter-nil (names vs)).0 f, p, sym (total-wrapped vs short p) ∙ t)),
  (λ (n, d, p, t). (n, (FreshAfter-nil (names vs)).1 d, p, total-wrapped vs short p ∙ t)),
)

-- `validateVersions` reports nothing exactly for a rule whose versions are none, or a split of
-- 100 percent over named, distinct versions, if there are few enough not to wrap the sum.
pub validate_versions_iff :
    (rp : FieldPath) (r : RouteRule)
    → IsShort r.versions
    → (validate_versions rp r ≡ []) ↔ IsSplit r.versions
unfolding validate_versions
validate_versions_iff rp r short = split r.versions short
  where
    split :
        (vs : List BackendVersion)
        → IsShort vs
        → ((if is_empty vs
              then []
              else check_versions (child rp (bytes "versions")) 0 [] (pos 0) vs)
            ≡ [])
          ↔ IsSplit vs
    split [] h = ((λ _. tt), (λ _. refl))
    split (v ∷ vs) h = (
      (λ e. (Accepts-iff (v ∷ vs) h).0 (check_versions_sound _ 0 [] (pos 0) (v ∷ vs) e)),
      (λ s. check_versions_complete _ 0 [] (pos 0) (v ∷ vs) ((Accepts-iff (v ∷ vs) h).1 s)),
    )
