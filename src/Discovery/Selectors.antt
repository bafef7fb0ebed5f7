-- ===== src/Discovery/Selectors.antt =====
-- Which bucket an endpoint is counted in.
use kubetraffic.Prelude.{
  none, All, Option-cases, sym, ◌∙◌, ◌⊎◌, ℕ, zero, suc, ◌+◌, Str, str_eq_iff, Dict, lookup, or_else,
  true, false, some, List, [], ◌∷◌, arith, ◌≡◌, ◌≢◌, ◌↔◌, Bool-cases, inl, inr,
}
use kubetraffic.Discovery.{VersionBucket, all_match, selector_matches, first_match}

-- Each wanted label has the wanted value; a label that is missing counts as "".
abbrev pub HasLabels : Dict Str → Dict Str → Type 0
HasLabels have [] = Unit
HasLabels have ((k, v) ∷ want) = (or_else (lookup k have) [] ≡ v) × HasLabels have want

all_match_iff : (have want : Dict Str) → (all_match have want ≡ true) ↔ HasLabels have want
unfolding all_match
all_match_iff have [] = ground arith
all_match_iff have ((k, v) ∷ want) =
    ground (arith, str_eq_iff (or_else (lookup k have) []) v, all_match_iff have want)

-- `selectorMatches` holds exactly for a selector that is not empty and whose labels are all there.
pub selector_matches_iff :
    (have want : Dict Str)
    → (selector_matches have want ≡ true) ↔ ((want ≢ []) × HasLabels have want)
unfolding selector_matches
selector_matches_iff have [] = ground arith
selector_matches_iff have (e ∷ want) = ground (arith, all_match_iff have (e ∷ want))

-- The bucket at the place matches, and none before it does.
abbrev pub IsFirst : Dict Str → ℕ → List VersionBucket → Type 0
IsFirst labels i [] = ⊥
IsFirst labels zero (b ∷ rest) = selector_matches labels b.selector ≡ true
IsFirst labels (suc i) (b ∷ rest) =
    (selector_matches labels b.selector ≡ false) × IsFirst labels i rest

first_match-from :
    (labels : Dict Str) (k i : ℕ) (bs : List VersionBucket)
    → first_match labels k bs ≡ some i
    → (j : ℕ) × (i ≡ k + j) × IsFirst labels j bs
unfolding first_match
first_match-from labels k i [] h = cc
first_match-from labels k i (b ∷ rest) h = elim (Bool-cases (selector_matches labels b.selector)) [
  | inl matches ↦ let same : some k ≡ some i = rw matches at h in (0, ground arith, matches)
  | inr misses ↦
      let (j, e, first) = first_match-from labels (suc k) i rest (rw misses at h) in
      (suc j, omega arith, (misses, first))
]

pub first_match-IsFirst :
    (labels : Dict Str) (i : ℕ) (bs : List VersionBucket)
    → first_match labels 0 bs ≡ some i
    → IsFirst labels i bs
first_match-IsFirst labels i bs h =
    let (j, e, first) = first_match-from labels 0 i bs h in
    let same : i ≡ j = omega arith in rw same first

-- A selector that is not empty and whose labels are all there.
abbrev pub IsWanted : Dict Str → VersionBucket → Type 0
IsWanted labels b = (b.selector ≢ []) × HasLabels labels b.selector

-- The bucket at the place wants the labels, and none before it does.
abbrev pub IsFirstWanted : Dict Str → ℕ → List VersionBucket → Type 0
IsFirstWanted labels i [] = ⊥
IsFirstWanted labels zero (b ∷ rest) = IsWanted labels b
IsFirstWanted labels (suc i) (b ∷ rest) = (IsWanted labels b → ⊥) × IsFirstWanted labels i rest

unwanted :
    (labels : Dict Str) (b : VersionBucket)
    → selector_matches labels b.selector ≡ false
    → IsWanted labels b
    → ⊥
unwanted labels b e w = cc (sym e ∙ (selector_matches_iff labels b.selector).1 w)

IsFirstWanted-of_IsFirst :
    (labels : Dict Str) (i : ℕ) (bs : List VersionBucket)
    → IsFirst labels i bs
    → IsFirstWanted labels i bs
IsFirstWanted-of_IsFirst labels i [] h = h
IsFirstWanted-of_IsFirst labels zero (b ∷ rest) h = (selector_matches_iff labels b.selector).0 h
IsFirstWanted-of_IsFirst labels (suc i) (b ∷ rest) (e, h) =
    (unwanted labels b e, IsFirstWanted-of_IsFirst labels i rest h)

first_match-none :
    (labels : Dict Str) (k : ℕ) (bs : List VersionBucket)
    → first_match labels k bs ≡ none
    → All (λ b. IsWanted labels b → ⊥) bs
unfolding first_match
first_match-none labels k [] h = tt
first_match-none labels k (b ∷ rest) h = elim (Bool-cases (selector_matches labels b.selector)) [
  | inl matches ↦ absurd (ground (arith, matches, h))
  | inr misses ↦ (unwanted labels b misses, first_match-none labels (suc k) rest (rw misses at h))
]

-- A pod is attributed to the first bucket, in the order of the spec, whose selector is not empty
-- and finds all its labels on the pod; and to none exactly where there is no such bucket.
pub first_match_lem :
    (labels : Dict Str) (bs : List VersionBucket)
    → ((first_match labels 0 bs ≡ none) × All (λ b. IsWanted labels b → ⊥) bs)
      ⊎ ((i : ℕ) × (first_match labels 0 bs ≡ some i) × IsFirstWanted labels i bs)
first_match_lem labels bs = elim (Option-cases (first_match labels 0 bs)) [
  | inl e ↦ inl (e, first_match-none labels 0 bs e)
  | inr (i, e) ↦
      inr (i, e, IsFirstWanted-of_IsFirst labels i bs (first_match-IsFirst labels i bs e))
]
