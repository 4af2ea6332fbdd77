-- ===== src/Ai/Tests.antt =====
-- Failures on a small heap, and a provider that answers the first call only.
use vethealth_backend.Base.{
  ℕ, zero, suc, ◌≡◌, refl, ◌↔◌, ◌⊎◌, true, false, none, some, [], ◌∷◌, codes, text_eq, ◌==◌,
  if◌then◌else◌, split, join,
}
use vethealth_backend.Ai.{
  api_call, other, retry, Thrown, Heap, Mapping, is_abort_error, classify, to_http_exception,
  retry_after_seconds_of, timeout, rate_limited,
}
use vethealth_backend.Ai.Registry.{
  anthropic, open_ai, AiConfig, ModelAddress, resolve_address, language_model, provider_of,
}
use vethealth_backend.Ai.Service.{
  AiTask, object, failed, ok, exception, Sdk, warnings_of, loop, run,
}
use vethealth_backend.Ai.Aborts.{IsAborted, is_abort_error_iff}
use vethealth_backend.Ai.Replies.{status_of}
use vethealth_backend.Ai.Runs.{run_total, run_kept}

tests : Unit {0}
unfolding is_abort_error classify to_http_exception retry_after_seconds_of resolve_address
    language_model provider_of split join codes text_eq loop run
tests = tt

abbrev plain : Thrown
plain = record { kind = other; name = none; cause = none; errors = none }

-- At 0 a retry of what lies at 1, an answer 429 that asks for 1.5 seconds; at 2 an error that is
-- its own cause; at 3 an aggregate of a time-out.
abbrev heap : Heap
heap zero = record plain { kind = retry (some 1) }
heap (suc zero) = record plain {
  kind = api_call (some 429) (some (record { whole = 1500; fraction = false })) none;
}
heap (suc (suc zero)) = record plain { cause = some 2 }
heap (suc (suc (suc zero))) = record plain { errors = some (none ∷ some 4 ∷ []) }
heap (suc (suc (suc (suc n)))) = record plain { name = some (codes "TimeoutError") }

error_tests :
    (to_http_exception heap (some 0)
      ≡ record { status = 429; error_code = rate_limited; retry_after_seconds = some 2 })
    × ((to_http_exception heap (some 3)).error_code ≡ timeout)
    × (is_abort_error heap 4 (some 2) ≡ false)
unfolding tests
error_tests = (refl, refl, refl)

abbrev config : AiConfig
config = record { provider = anthropic; model = none; api_key = λ p. some (7 ∷ []) }

address_tests :
    (resolve_address config (some (codes "openai:gpt-5.1:mini"))
      ≡ some (record { provider = open_ai; model = codes "gpt-5.1:mini" }))
    × (resolve_address config (some (codes "mistral:x")) ≡ none)
    × (resolve_address config none
        ≡ some (record { provider = anthropic; model = codes "claude-opus-5" }))
unfolding tests
address_tests = (refl, refl, refl)

is_abort_error_iff_example : (is_abort_error heap 4 (some 3) ≡ true) ↔ IsAborted heap 4 (some 3)
is_abort_error_iff_example = is_abort_error_iff heap 4 (some 3)

abbrev claude : ModelAddress
claude = record { provider = anthropic; model = codes "claude-opus-5" }

-- The world counts the calls; the draft has a warning, and the correction fails.
abbrev sdk : Sdk (Unit {0}) ℕ ℕ
sdk = record {
  generate_object = λ r w. (if w == 0 then object 5 else failed none, suc w);
  aborted = λ w. false;
  heap = λ w. heap;
  print_object = λ o. 61 ∷ [];
  print_warnings = λ ws. 62 ∷ [];
}

abbrev task : AiTask (Unit {0}) (Unit {0}) ℕ
task = record {
  name = 1 ∷ [];
  schema = tt;
  system = [];
  build_prompt = λ i. 2 ∷ [];
  max_output_tokens = 2000;
  review = some (λ o. (3 ∷ []) ∷ []);
  needs_correction = some (λ o. true);
  model = none;
}

run_tests : run sdk task config tt 0 ≡ (ok 5 ((3 ∷ []) ∷ []), 2)
unfolding tests
run_tests = refl

run_total_example :
    ((o : ℕ) × ((run sdk task config tt 0).0 ≡ ok o (warnings_of task o)))
    ⊎ ((m : Mapping) × ((run sdk task config tt 0).0 ≡ exception m)
        × (m.status ≡ status_of m.error_code))
run_total_example = run_total sdk task config tt 0

run_kept_example : (o : ℕ) × ((run sdk task config tt 0).0 ≡ ok o (warnings_of task o))
unfolding tests
run_kept_example = run_kept sdk task config tt 0 claude 5 refl refl
