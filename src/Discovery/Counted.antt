-- ===== src/Discovery/Counted.antt =====
-- Counting one endpoint: what a place in the buckets, and the progress of the loops, keep.
use kubetraffic.Prelude.{
  ℕ, zero, suc, ◌+◌, ◌<◌, ◌≡◌, refl, ap, inl, inr, Bool, true, false, Option, none, some, List, [],
  ◌∷◌, arith, if◌then◌else◌, Bool-cases, Option-cases, Str, length, All, Dict,
}
use kubetraffic.Prelude.Int.{wrap32, pos_part, neg_part, int32_half, ℤ, pos, negsuc}
use kubetraffic.Discovery.Selectors.{IsFirst, first_match-IsFirst}
use kubetraffic.Discovery.Reads.{Endpoint, EndpointSlice}
use kubetraffic.Discovery.{
  is_ready, inc32, count_endpoint, count_at, VersionBucket, Progress, EndpointSet, place,
  first_match,
}

-- The ready endpoints of the slices.
abbrev pub ready_endpoints : List Endpoint → ℕ
ready_endpoints [] = 0
ready_endpoints (ep ∷ rest) = (if is_ready ep then 1 else 0) + ready_endpoints rest

abbrev pub ready_in_slices : List EndpointSlice → ℕ
ready_in_slices [] = 0
ready_in_slices (slice ∷ rest) = ready_endpoints slice.endpoints + ready_in_slices rest

-- The sum of the ready counts, which are no negative numbers.
abbrev pub total_ready : List EndpointSet → ℕ
total_ready [] = 0
total_ready (es ∷ rest) = pos_part es.ready + total_ready rest

abbrev pub AreCounts : List EndpointSet → Type 0
AreCounts sets = All (λ (es : EndpointSet). neg_part es.ready ≡ 0) sets

abbrev pub bucket_ready : List VersionBucket → ℕ
bucket_ready [] = 0
bucket_ready (b ∷ rest) = pos_part b.set.ready + bucket_ready rest

abbrev pub IsCount : VersionBucket → Type 0
IsCount b = neg_part b.set.ready ≡ 0

-- `seen` ready endpoints were counted so far.
pub record Counted (seen : ℕ) (s : Progress) : Type 0 where
  pub counts : All IsCount s.buckets
  pub unmatched : neg_part s.unmatched ≡ 0
  pub total : bucket_ready s.buckets + pos_part s.unmatched ≡ seen

pub inc32-count :
    (n : ℤ) → neg_part n ≡ 0 → suc (pos_part n) < int32_half → inc32 n ≡ pos (suc (pos_part n))
unfolding wrap32
inc32-count (pos n) h l = ground arith
inc32-count (negsuc n) h l = absurd (omega arith)

pub count_endpoint-ready :
    (as' : List Str) (b : VersionBucket)
    → IsCount b
    → suc (pos_part b.set.ready) < int32_half
    → (count_endpoint true as' b).set.ready ≡ pos (suc (pos_part b.set.ready))
unfolding count_endpoint
count_endpoint-ready as' b c l = inc32-count b.set.ready c l

pub count_endpoint-unready :
    (as' : List Str) (b : VersionBucket) → (count_endpoint false as' b).set.ready ≡ b.set.ready
unfolding count_endpoint
count_endpoint-unready as' b = refl

pub count_at-ready :
    (i : ℕ) (as' : List Str) (bs : List VersionBucket)
    → i < length bs
    → All IsCount bs
    → suc (bucket_ready bs) < int32_half
    → All IsCount (count_at i true as' bs)
      × (bucket_ready (count_at i true as' bs) ≡ suc (bucket_ready bs))
unfolding count_at
count_at-ready i as' [] h c l = absurd (omega arith)
count_at-ready zero as' (b ∷ rest) h c l =
    ground (arith, count_endpoint-ready as' b c.0 (omega arith))
count_at-ready (suc i) as' (b ∷ rest) h c l =
    let (ih, e) = count_at-ready i as' rest (omega arith) c.1 (omega arith) in
    ((c.0, ih), omega arith)

pub count_at-unready :
    (i : ℕ) (as' : List Str) (bs : List VersionBucket)
    → All IsCount bs
    → All IsCount (count_at i false as' bs)
      × (bucket_ready (count_at i false as' bs) ≡ bucket_ready bs)
unfolding count_at
count_at-unready zero as' [] c = (tt, refl)
count_at-unready (suc i) as' [] c = (tt, refl)
count_at-unready zero as' (b ∷ rest) c = ground (arith, count_endpoint-unready as' b)
count_at-unready (suc i) as' (b ∷ rest) c =
    let (ih, e) = count_at-unready i as' rest c.1 in ((c.0, ih), omega arith)

pub length-count_at :
    (i : ℕ) (ready : Bool) (as' : List Str) (bs : List VersionBucket)
    → length (count_at i ready as' bs) ≡ length bs
unfolding count_at
length-count_at zero ready as' [] = refl
length-count_at (suc i) ready as' [] = refl
length-count_at zero ready as' (b ∷ rest) = refl
length-count_at (suc i) ready as' (b ∷ rest) = ap suc (length-count_at i ready as' rest)

abbrev pub InRange : Option ℕ → List VersionBucket → Type 0
InRange none bs = Unit
InRange (some i) bs = i < length bs

pub place-Counted :
    (target : Option ℕ) (ep : Endpoint) (s : Progress) (seen : ℕ)
    → InRange target s.buckets
    → Counted seen s
    → (if is_ready ep then 1 else 0) + seen < int32_half
    → Counted ((if is_ready ep then 1 else 0) + seen) (place target ep s)
unfolding place
place-Counted none ep s seen r c l = elim (Bool-cases (is_ready ep)) [
  | inl ready ↦
      let l' : 1 + seen < int32_half = rw ready at l in
      rw ready (
        let e = inc32-count s.unmatched c.unmatched (let t = c.total in omega arith) in
        let t = c.total in
        record { counts = c.counts; unmatched = rw e refl; total = rw e (omega arith) })
  | inr unready ↦ rw unready (ground arith)
]
place-Counted (some i) ep s seen r c l = elim (Bool-cases (is_ready ep)) [
  | inl ready ↦
      let l' : 1 + seen < int32_half = rw ready at l in
      let t = c.total in
      let (counts, e) = count_at-ready i ep.addresses s.buckets r c.counts (omega arith) in
      rw ready (record { counts = counts; unmatched = c.unmatched; total = omega arith })
  | inr unready ↦
      let t = c.total in
      let (counts, e) = count_at-unready i ep.addresses s.buckets c.counts in
      rw unready (record { counts = counts; unmatched = c.unmatched; total = omega arith })
]

pub IsFirst-InRange :
    (labels : Dict Str) (i : ℕ) (bs : List VersionBucket) → IsFirst labels i bs → i < length bs
IsFirst-InRange labels i [] h = absurd h
IsFirst-InRange labels zero (b ∷ rest) h = omega arith
IsFirst-InRange labels (suc i) (b ∷ rest) h = omega (arith, IsFirst-InRange labels i rest h.1)

pub first_match-InRange :
    (labels : Dict Str) (bs : List VersionBucket) → InRange (first_match labels 0 bs) bs
first_match-InRange labels bs = elim (Option-cases (first_match labels 0 bs)) [
  | inl e ↦ rw e tt
  | inr (i, e) ↦ rw e (IsFirst-InRange labels i bs (first_match-IsFirst labels i bs e))
]
