-- ===== src/Ai.antt =====
-- modules/ai/ai.service.ts and modules/ai/forward-retry-after.ts: what the failures of a provider
-- become. The objects that JavaScript throws lie on a heap, since their causes may form a cycle.
pub mod Registry
pub mod Service
pub mod Aborts
pub mod Replies
pub mod Runs
pub mod Addresses
mod Tests
use vethealth_backend.Base.{
  ℕ, zero, suc, ◌+◌, ◌/◌, ◌%◌, Bool, true, false, not, ◌||◌, Option, none, some, List, any, Text,
  codes, text_eq, ◌==◌, if◌then◌else◌,
}

-- A finite positive result of JavaScript's `Number`: its whole part, and whether there is a
-- fraction besides.
pub record Positive : Type 0 where
  pub whole : ℕ
  pub fraction : Bool

-- `Math.ceil(x)`
abbrev pub ceil : Positive → ℕ
ceil x = if x.fraction then suc x.whole else x.whole

-- `Math.ceil(x / 1000)`
abbrev pub ceil_thousandth : Positive → ℕ
ceil_thousandth x =
    if x.fraction || not (x.whole % 1000 == 0) then suc (x.whole / 1000) else x.whole / 1000

-- Where an object lies.
abbrev pub Ref : Type 0
Ref = ℕ

-- A thrown value: `none` is a value that is falsy or no object.
abbrev pub Value : Type 0
Value = Option Ref

-- What the `isInstance` tests of the SDK say of an object. The headers of an answer are given as
-- `Number` reads them, `none` where the result is not finite and positive.
pub data Kind : Type 0 where
  api_call : (status : Option ℕ) (retry_after_ms retry_after : Option Positive) → Kind
  no_object_generated other : Kind
  retry : (last_error : Value) → Kind

-- An object, as far as the service reads it. `errors` is `none` where it is no array.
pub record Thrown : Type 0 where
  pub kind : Kind
  pub name : Option Text
  pub cause : Value
  pub errors : Option (List Value)

abbrev pub Heap : Type 0
Heap = Ref → Thrown

-- `MAX_CAUSE_DEPTH`
abbrev pub max_cause_depth : ℕ
max_cause_depth = 3

abbrev pub is_abort_name : Option Text → Bool
is_abort_name none = false
is_abort_name (some t) = text_eq t (codes "TimeoutError") || text_eq t (codes "AbortError")

abbrev pub any_error : (Value → Bool) → Option (List Value) → Bool
any_error p none = false
any_error p (some errors) = any p errors

-- `isAbortError` with `fuel` levels left, which is `MAX_CAUSE_DEPTH + 1 - depth`
unfoldable pub is_abort_error : Heap → (fuel : ℕ) → Value → Bool
is_abort_error heap zero error = false
is_abort_error heap (suc fuel) none = false
is_abort_error heap (suc fuel) (some r) =
    is_abort_name (heap r).name
    || (any_error (is_abort_error heap fuel) (heap r).errors
        || is_abort_error heap fuel (heap r).cause)

-- `AI_ERROR_CODES`
pub data ErrorCode : Type 0 where
  not_configured key_rejected rate_limited provider_error : ErrorCode
  invalid_output generation_failed timeout : ErrorCode

-- `AiErrorMapping` and the exception made of it. The messages are constants of the code, and what
-- is logged is left out.
pub record Mapping : Type 0 where
  pub status : ℕ
  pub error_code : ErrorCode
  pub retry_after_seconds : Option ℕ

abbrev seconds_of : Option Positive → Option ℕ
seconds_of none = none
seconds_of (some x) = some (ceil x)

-- `retryAfterSecondsOf`
unfoldable pub retry_after_seconds_of : (retry_after_ms retry_after : Option Positive) → Option ℕ
retry_after_seconds_of (some ms) seconds = some (ceil_thousandth ms)
retry_after_seconds_of none seconds = seconds_of seconds

abbrev has_status : ℕ → Option ℕ → Bool
has_status n none = false
has_status n (some k) = k == n

abbrev classify_kind : Kind → Mapping
classify_kind (api_call status ms seconds) =
    if has_status 401 status || has_status 403 status
    then record { status = 503; error_code = key_rejected; retry_after_seconds = none }
    else if has_status 429 status
    then record {
      status = 429;
      error_code = rate_limited;
      retry_after_seconds = retry_after_seconds_of ms seconds;
    }
    else record { status = 502; error_code = provider_error; retry_after_seconds = none }
classify_kind no_object_generated = record {
  status = 502;
  error_code = invalid_output;
  retry_after_seconds = none;
}
classify_kind _ = record {
  status = 502;
  error_code = generation_failed;
  retry_after_seconds = none;
}

abbrev pub kind_of : Heap → Value → Kind
kind_of heap none = other
kind_of heap (some r) = (heap r).kind

unfoldable pub classify : Heap → Value → Mapping
classify heap cause =
    if is_abort_error heap (suc max_cause_depth) cause
    then record { status = 504; error_code = timeout; retry_after_seconds = none }
    else classify_kind (kind_of heap cause)

-- `RetryError.isInstance(error) ? error.lastError : error`
abbrev pub unwrap : Kind → Value → Value
unwrap (retry last) error = last
unwrap _ error = error

unfoldable pub to_http_exception : Heap → Value → Mapping
to_http_exception heap error = classify heap (unwrap (kind_of heap error) error)

-- The header `Retry-After` that `forwardRetryAfter` sets; the error is raised again.
abbrev pub forward_retry_after : Mapping → Option ℕ
forward_retry_after m = m.retry_after_seconds
