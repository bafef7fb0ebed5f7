-- ===== src/Model/Timeouts.antt =====
-- `retryOnTokens` and `buildResilience` of controller/internal/model/model.go.
use kubetraffic.Prelude.{
  Str, bytes, str_eq, is_nil, contains, Option, none, some, List, [], ◌∷◌, ◌||◌, if◌then◌else◌,
}
use kubetraffic.Prelude.Int.{ℤ, pos, div_trunc, ltb_ℤ}
use kubetraffic.Api.{ResiliencePolicy, RetryPolicy}
use kubetraffic.Model.Records.{Resilience}

-- `Duration.Milliseconds()`
abbrev pub milliseconds : ℤ → ℤ
milliseconds d = div_trunc d 1000000

-- `retryOnTokens[ro]`, "" where the key is missing.
unfoldable pub retry_on_token : Str → Str
retry_on_token ro =
    if str_eq ro (bytes "5xx")
    then bytes "500 501 502 503 504"
    else if str_eq ro (bytes "gateway-error")
    then bytes "502 503 504"
    else if str_eq ro (bytes "connect-failure")
    then bytes "conn-failure"
    else if str_eq ro (bytes "reset")
    then bytes "empty-response conn-failure"
    else if str_eq ro (bytes "retriable-status-codes")
    then bytes "all-retryable-errors"
    else []

-- The loop over `RetryOn`: what it appends.
unfoldable pub retry_tokens : List Str → List Str → List Str
unfolding retry_on_token
retry_tokens seen [] = []
retry_tokens seen (ro ∷ rest) =
    let token = retry_on_token ro in
    let skipped = retry_tokens seen rest in
    let added = token ∷ retry_tokens (token ∷ seen) rest in
    if is_nil token || contains token seen then skipped else added

abbrev server_timeout : ℤ → ℤ → ℤ
server_timeout timeout per_try = if ltb_ℤ (pos 0) per_try then per_try else timeout

unfoldable pub with_retries : Resilience → Option RetryPolicy → Resilience
with_retries out none = out
with_retries out (some rt) = record out {
  retries = rt.attempts;
  timeout_ms = server_timeout out.timeout_ms (milliseconds rt.per_try_timeout);
  retry_on = retry_tokens [] rt.retry_on;
}

unfoldable pub build_resilience : Option ResiliencePolicy → Option Resilience
unfolding with_retries
build_resilience none = none
build_resilience (some r) = some (
    with_retries
      (record {
        timeout_ms = milliseconds r.timeout;
        connect_timeout_ms = milliseconds r.timeout;
        retries = pos 0;
        retry_on = [];
      })
      r.retries)
