-- ===== src/Ai/Replies.antt =====
-- The statuses, codes and waiting times that a client gets.
use vethealth_backend.Base.{
  ℕ, ◌*◌, ◌+◌, ◌≤◌, ◌<◌, ◌≡◌, refl, Option, none, some, arith, ◌≢◌, subst, ap, ◌∙◌,
}
use mathlib.Core.Option.{some-injective}
use vethealth_backend.Ai.{
  Positive, ceil, ceil_thousandth, Value, Kind, api_call, no_object_generated, other, retry, Heap,
  ErrorCode, not_configured, key_rejected, rate_limited, provider_error, invalid_output,
  generation_failed, timeout, retry_after_seconds_of, kind_of, classify, to_http_exception, unwrap,
  forward_retry_after,
}

-- The status that modules/ai/ai-error-codes.ts documents for a code.
abbrev pub status_of : ErrorCode → ℕ
status_of not_configured = 503
status_of key_rejected = 503
status_of rate_limited = 429
status_of provider_error = 502
status_of invalid_output = 502
status_of generation_failed = 502
status_of timeout = 504

classify-status :
    (heap : Heap) (v : Value) → (classify heap v).status ≡ status_of (classify heap v).error_code
unfolding classify
classify-status heap v = ground arith

-- Every exception has the status that the documentation names for its code.
pub to_http_exception-status :
    (heap : Heap) (v : Value)
    → (to_http_exception heap v).status ≡ status_of (to_http_exception heap v).error_code
unfolding to_http_exception
to_http_exception-status heap v = classify-status heap _

-- The waiting time covers what the provider asked for, and by less than a second more.
abbrev pub Covers : ℕ → Option Positive → Option Positive → Type 0
Covers n (some ms) seconds = (ceil ms ≤ 1000 * n) × (1000 * n < ceil ms + 1000)
Covers n none (some x) = (n ≡ ceil x)
Covers n none none = n ≢ n

ceil-thousandth :
    (x : Positive)
    → (ceil x ≤ 1000 * ceil_thousandth x) × (1000 * ceil_thousandth x < ceil x + 1000)
ceil-thousandth x = (ground arith, ground arith)

retry_after-Covers :
    (n : ℕ) (ms seconds : Option Positive)
    → retry_after_seconds_of ms seconds ≡ some n
    → Covers n ms seconds
unfolding retry_after_seconds_of
retry_after-Covers n (some ms) seconds e =
    subst (λ k. (ceil ms ≤ 1000 * k) × (1000 * k < ceil ms + 1000))
      (some-injective (ceil_thousandth ms) n e) (ceil-thousandth ms)
retry_after-Covers n none (some x) e = ground arith
retry_after-Covers n none none e = absurd (ground arith)

-- The waiting time that was found, and the answer of the provider that it is from.
abbrev IsLimited : Heap → Value → ℕ → Type 0
IsLimited heap v n =
    ((classify heap v).error_code ≡ rate_limited)
    × (ms seconds : Option Positive) × (kind_of heap v ≡ api_call (some 429) ms seconds)
    × (retry_after_seconds_of ms seconds ≡ some n)

classified_kind :
    (heap : Heap) (v : Value) (n : ℕ) (k : Kind)
    → (classify heap v).retry_after_seconds ≡ some n
    → kind_of heap v ≡ k
    → IsLimited heap v n
unfolding classify
classified_kind heap v n (api_call none ms seconds) e h = absurd (ground arith)
classified_kind heap v n (api_call (some status) ms seconds) e h =
    (ground arith, ms, seconds, ground arith, ground arith)
classified_kind heap v n no_object_generated e h = absurd (ground arith)
classified_kind heap v n other e h = absurd (ground arith)
classified_kind heap v n (retry last) e h = absurd (ground arith)

-- A client is told to wait only where the provider answered 429 with a waiting time of its own, and
-- then the time covers what the provider asked for, and is less than a second longer.
pub forward_retry_after_sound :
    (heap : Heap) (v : Value) (n : ℕ)
    → forward_retry_after (to_http_exception heap v) ≡ some n
    → ((to_http_exception heap v).status ≡ 429)
      × (cause : Value) × (ms seconds : Option Positive) × (kind_of heap cause
          ≡ api_call (some 429) ms seconds)
      × Covers n ms seconds
unfolding to_http_exception
forward_retry_after_sound heap v n e =
    let (code, ms, seconds, k, f) =
      classified_kind heap (unwrap (kind_of heap v) v) n (kind_of heap (unwrap (kind_of heap v) v))
        e refl in
    (
      classify-status heap (unwrap (kind_of heap v) v) ∙ ap status_of code,
      unwrap (kind_of heap v) v,
      ms,
      seconds,
      k,
      retry_after-Covers n ms seconds f,
    )
