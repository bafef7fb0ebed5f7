-- ===== src/Model/Retries.antt =====
-- The `retry-on` tokens that `buildResilience` hands to HAProxy.
use mathlib.Core.Path.{subst}
use kubetraffic.Prelude.{
  Str, is_nil, is_nil_iff, contains, Option, none, some, List, [], ◌∷◌, arith, ◌≡◌, ◌≢◌, refl, All,
  Distinct, FreshAfter, FreshAfter-nil, Bool-cases, inl, inr,
}
use kubetraffic.Api.{ResiliencePolicy, RetryPolicy}
use kubetraffic.Model.{Resilience, retry_on_token, retry_tokens, with_retries, build_resilience}

-- One of the five tokens of the table.
abbrev pub IsToken : Str → Type 0
IsToken t = (c : Str) × (retry_on_token c ≡ t) × (t ≢ [])

abbrev TokensOf : List Str → List Str → Type 0
TokensOf seen ts = FreshAfter seen ts × All IsToken ts

retry_tokens-TokensOf : (seen rs : List Str) → TokensOf seen (retry_tokens seen rs)
unfolding retry_tokens
retry_tokens-TokensOf seen [] = (tt, tt)
retry_tokens-TokensOf seen (ro ∷ rest) = elim (Bool-cases (is_nil (retry_on_token ro))) [
  | inl unknown ↦ rw unknown (retry_tokens-TokensOf seen rest)
  | inr known ↦ elim (Bool-cases (contains (retry_on_token ro) seen)) [
    | inl repeated ↦ rw (known, repeated) (retry_tokens-TokensOf seen rest)
    | inr new ↦
        let later = retry_tokens-TokensOf (retry_on_token ro ∷ seen) rest in
        rw (known, new)
          ((new, later.0), ((ro, refl, ground (arith, is_nil_iff (retry_on_token ro))), later.1))
  ]
]

with_retries-tokens :
    (base : Resilience) (o : Option RetryPolicy)
    → base.retry_on ≡ []
    → Distinct (with_retries base o).retry_on × All IsToken (with_retries base o).retry_on
unfolding with_retries
with_retries-tokens base none e = rw e (tt, tt)
with_retries-tokens base (some rt) e =
    let (fresh, tokens) = retry_tokens-TokensOf [] rt.retry_on in
    ((FreshAfter-nil _).0 fresh, tokens)

abbrev TokensIn : Option Resilience → Type 0
TokensIn none = Unit
TokensIn (some out) = Distinct out.retry_on × All IsToken out.retry_on

-- The tokens are entries of the table, and none is repeated, whatever the spec lists; a condition
-- that the table does not know is dropped.
pub build_resilience_retry_on :
    (r : ResiliencePolicy) (out : Resilience)
    → build_resilience (some r) ≡ some out
    → Distinct out.retry_on × All IsToken out.retry_on
unfolding build_resilience
build_resilience_retry_on r out e =
    subst {A = Option Resilience} (λ t. TokensIn t) e (with_retries-tokens _ r.retries refl)
