-- ===== src/SampleApp/Metrics/Counts.antt =====
-- The collector against a description of it: what it shows of a sequence of observations.
use kubetraffic.Prelude.{
  ℕ, suc, ◌+◌, ◌≤◌, ◌<◌, ◌≡◌, refl, sym, ap, ◌∙◌, inl, inr, Bool, true, false, List, [], ◌∷◌, map,
  arith, if◌then◌else◌, Bool-cases, or_else, Str, str_eq, length, All, Dict, lookup, replicate,
  str_eq_iff,
}
use kubetraffic.Prelude.Int.{
  ℤ, pos, negsuc, ◌+ℤ◌, wrap64, pos_part, neg_part, int64_half, wrap64-of_lt,
}
use mathlib.Core.Path.{subst}
use native.Mathlib.Nat.{zero-add}
use kubetraffic.SampleApp.Floats.{Floats}
use kubetraffic.SampleApp.Metrics.{
  Metrics, bump, count_buckets, new_metrics, observe, request_key, uint64_mod, duration_buckets,
}

pub record Observation (F : Type 0) : Type 0 where
  pub method : Str
  pub status : ℕ
  pub seconds : F

abbrev pub observation_key : {F : Type 0} → Observation F → Str
observation_key o = request_key o.method o.status

-- How many have a key, and how many took no longer than a bound.
abbrev pub hits : {F : Type 0} → Str → List (Observation F) → ℕ
hits k [] = 0
hits k (o ∷ rest) = (if str_eq (observation_key o) k then 1 else 0) + hits k rest

abbrev pub within : {F : Type 0} → Floats F → List (Observation F) → ℕ → ℕ
within fl [] b = 0
within fl (o ∷ rest) b = (if fl.le o.seconds (fl.milli b) then 1 else 0) + within fl rest b

-- The numbers in a map, which are not negative.
abbrev pub tally : Dict ℤ → ℕ
tally [] = 0
tally ((k, n) ∷ m) = pos_part n + tally m

abbrev AreTallies : Dict ℤ → Type 0
AreTallies m = All (λ (e : Str × ℤ). neg_part e.1 ≡ 0) m

abbrev tally_at : Str → Dict ℤ → ℤ
tally_at k m = or_else (lookup k m) (pos 0)

pub succ64 :
    (n : ℤ)
    → neg_part n ≡ 0
    → suc (pos_part n) < int64_half
    → wrap64 (n +ℤ pos 1) ≡ pos (suc (pos_part n))
succ64 (pos n) h l =
    let plain : pos n +ℤ pos 1 ≡ pos (suc n) = ground arith in
    ap wrap64 plain ∙ wrap64-of_lt (suc n) l
succ64 (negsuc n) h l = absurd (omega arith)

pub pred64 : (n : ℕ) → n < int64_half → wrap64 (pos (suc n) +ℤ negsuc 0) ≡ pos n
pred64 n l =
    let plain : pos (suc n) +ℤ negsuc 0 ≡ pos n = ground arith in ap wrap64 plain ∙ wrap64-of_lt n l

tally-bump :
    (k : Str) (m : Dict ℤ)
    → AreTallies m
    → suc (tally m) < int64_half
    → AreTallies (bump k m) × (tally (bump k m) ≡ suc (tally m))
unfolding bump
tally-bump k [] h l = ((refl, tt), refl)
tally-bump k ((j, n) ∷ m) h l = elim (Bool-cases (str_eq j k)) [
  | inl e ↦ let next = succ64 n h.0 (omega arith) in rw e (rw next ((refl, h.1), omega arith))
  | inr e ↦ let (rest, more) = tally-bump k m h.1 (omega arith) in rw e ((h.0, rest), omega arith)
]

tally_at-bump :
    (k j : Str) (m : Dict ℤ)
    → AreTallies m
    → suc (tally m) < int64_half
    → tally_at j (bump k m)
      ≡ (if str_eq k j then pos (suc (pos_part (tally_at j m))) else tally_at j m)
unfolding bump lookup
tally_at-bump k j [] h l = ground arith
tally_at-bump k j ((i, n) ∷ m) h l = ground (
  arith,
  succ64 n h.0 (omega arith),
  str_eq_iff i k,
  str_eq_iff i j,
  str_eq_iff k j,
  tally_at-bump k j m h.1 (omega arith),
)

eq_of_count : (n : ℤ) → neg_part n ≡ 0 → n ≡ pos (pos_part n + 0)
eq_of_count n h = ground arith

at_step :
    (b : Bool) (t t' : ℤ) (h : ℕ)
    → t' ≡ (if b then pos (suc (pos_part t)) else t)
    → pos (pos_part t' + h) ≡ pos (pos_part t + ((if b then 1 else 0) + h))
at_step true t t' h e = rw e (ap pos (omega arith))
at_step false t t' h e = rw e (ap pos (omega arith))

module _ {F : Type 0} (fl : Floats F) where
  abbrev pub observe_all : List (Observation F) → Metrics F → Metrics F
  observe_all [] m = m
  observe_all (o ∷ rest) m = observe_all rest (observe fl o.method o.status o.seconds m)

  -- The counts after some observations.
  abbrev add_within : List (Observation F) → List ℕ → List ℕ → List ℕ
  add_within obs [] counts = counts
  add_within obs (b ∷ bounds) [] = []
  add_within obs (b ∷ bounds) (n ∷ counts) = (n + within fl obs b) ∷ add_within obs bounds counts

  tally_at-count : (k : Str) (m : Dict ℤ) → AreTallies m → neg_part (tally_at k m) ≡ 0
  unfolding lookup
  tally_at-count k [] h = refl
  tally_at-count k ((j, n) ∷ m) h = elim (Bool-cases (str_eq j k)) [
    | inl e ↦ rw e h.0
    | inr e ↦ rw e (tally_at-count k m h.1)
  ]

  -- `n` observations so far: no count is above it.
  record Seen (n : ℕ) (m : Metrics F) : Type 0 where
    counted : m.count ≡ n
    tallies : AreTallies m.req_total
    total : tally m.req_total ≡ n
    below : All (λ c. c ≤ n) m.bucket_counts

  count_buckets-below :
      (s : F) (n : ℕ) (bounds counts : List ℕ)
      → All (λ c. c ≤ n) counts
      → suc n < uint64_mod
      → All (λ c. c ≤ suc n) (count_buckets fl s bounds counts)
  unfolding count_buckets
  count_buckets-below s n [] [] h l = tt
  count_buckets-below s n [] (c ∷ cs) h l = (omega arith, count_buckets-below s n [] cs h.1 l)
  count_buckets-below s n (b ∷ bounds) [] h l = tt
  count_buckets-below s n (b ∷ bounds) (c ∷ cs) h l =
      (ground arith, count_buckets-below s n bounds cs h.1 l)

  add_within-nil : (bounds counts : List ℕ) → add_within [] bounds counts ≡ counts
  add_within-nil [] counts = refl
  add_within-nil (b ∷ bounds) [] = refl
  add_within-nil (b ∷ bounds) (c ∷ cs) = ground (arith, add_within-nil bounds cs)

  add_within-zero :
      (obs : List (Observation F)) (bounds : List ℕ)
      → add_within obs bounds (replicate (length bounds) 0) ≡ map (within fl obs) bounds
  add_within-zero obs [] = refl
  add_within-zero obs (b ∷ bounds) = ground (arith, add_within-zero obs bounds)

  add_within-step :
      (o : Observation F) (rest : List (Observation F)) (n : ℕ) (bounds counts : List ℕ)
      → All (λ c. c ≤ n) counts
      → suc n < uint64_mod
      → add_within rest bounds (count_buckets fl o.seconds bounds counts)
        ≡ add_within (o ∷ rest) bounds counts
  unfolding count_buckets
  add_within-step o rest n [] counts h l = refl
  add_within-step o rest n (b ∷ bounds) [] h l = refl
  add_within-step o rest n (b ∷ bounds) (c ∷ cs) h l =
      ground (arith, add_within-step o rest n bounds cs h.1 l)

  observe-Seen :
      (o : Observation F) (n : ℕ) (m : Metrics F)
      → Seen n m
      → suc n < int64_half
      → Seen (suc n) (observe fl o.method o.status o.seconds m)
  unfolding observe
  observe-Seen o n m s l =
      let total = s.total in
      let counted = s.counted in
      let (tallies, more) = tally-bump (observation_key o) m.req_total s.tallies (omega arith) in
      record {
        counted = omega arith;
        tallies = tallies;
        total = omega arith;
        below =
            count_buckets-below o.seconds n duration_buckets m.bucket_counts s.below (omega arith);
      }

  observe_all-Seen :
      (obs : List (Observation F)) (n : ℕ) (m : Metrics F)
      → Seen n m
      → length obs + n < int64_half
      → Seen (length obs + n) (observe_all obs m)
        × ((observe_all obs m).bucket_counts ≡ add_within obs duration_buckets m.bucket_counts)
  observe_all-Seen [] n m s l =
      (rw zero-add s, sym (add_within-nil duration_buckets m.bucket_counts))
  observe_all-Seen (o ∷ rest) n m s l =
      let m' = observe fl o.method o.status o.seconds m in
      let (seen, counts) =
        observe_all-Seen rest (suc n) m' (observe-Seen o n m s (omega arith)) (omega arith) in
      let more : length rest + suc n ≡ length (o ∷ rest) + n = omega arith in
      (
        subst (λ k. Seen k (observe_all rest m')) more seen,
        counts
            ∙ unfold observe in
              add_within-step o rest n duration_buckets m.bucket_counts s.below (omega arith),
      )

  observe_all-at :
      (k : Str) (obs : List (Observation F)) (n : ℕ) (m : Metrics F)
      → Seen n m
      → length obs + n < int64_half
      → tally_at k (observe_all obs m).req_total
        ≡ pos (pos_part (tally_at k m.req_total) + hits k obs)
  observe_all-at k [] n m s l =
      let t = tally_at-count k m.req_total s.tallies in eq_of_count (tally_at k m.req_total) t
  observe_all-at k (o ∷ rest) n m s l =
      let m' = observe fl o.method o.status o.seconds m in
      let ih =
        observe_all-at k rest (suc n) m' (observe-Seen o n m s (omega arith)) (omega arith) in
      let total = s.total in
      let step : tally_at k m'.req_total ≡ (
          if str_eq (observation_key o) k
          then pos (suc (pos_part (tally_at k m.req_total)))
          else tally_at k m.req_total) =
        unfold observe in tally_at-bump (observation_key o) k m.req_total s.tallies (omega arith) in
      ih
      ∙ at_step (str_eq (observation_key o) k) (tally_at k m.req_total) (tally_at k m'.req_total)
          (hits k rest) step

  no_tally : (k : Str) (h : ℕ) → pos_part (tally_at k []) + h ≡ h
  unfolding lookup
  no_tally k h = omega arith

  -- After fewer than 2^63 observations on a new collector, the request count is their number, each
  -- bucket holds the number of those that took no longer than its bound, each series of requests
  -- holds the number of those with its method and status, and the series sum to the request count.
  pub observe_all_lem :
      (obs : List (Observation F)) (app version pod : Str)
      → length obs < int64_half
      → let m = observe_all obs (new_metrics fl app version pod) in
        (m.count ≡ length obs)
        × (m.bucket_counts ≡ map (within fl obs) duration_buckets)
        × ((k : Str) → tally_at k m.req_total ≡ pos (hits k obs))
        × (tally m.req_total ≡ m.count)
  unfolding new_metrics
  observe_all_lem obs app version pod l =
      let start = new_metrics fl app version pod in
      let fresh : Seen 0 start = record {
        counted = refl;
        tallies = tt;
        total = refl;
        below = omega arith;
      } in
      let (seen, counts) = observe_all-Seen obs 0 start fresh (omega arith) in
      let counted = seen.counted in
      let total = seen.total in
      (
        omega arith,
        counts ∙ add_within-zero obs duration_buckets,
        λ k. observe_all-at k obs 0 start fresh (omega arith) ∙ ap pos (no_tally k (hits k obs)),
        omega arith,
      )
