-- ===== src/Examples/Security.antt =====
-- A breaker that trips, and an address that is blocked.
use paymaster.Common.{◌≡◌, refl, [], ◌∷◌, arith, list_eq, nat_eq}
use paymaster.Common.Results.{ok}
use paymaster.Common.JsMap
use paymaster.Common.Text.{text}
use paymaster.Policy.Quota.Window.{window_start}
use paymaster.Policy.Quota.InMemory.{count, in_memory_store, in_memory_laws}
use paymaster.Security.CircuitBreaker.{
  CircuitBreakerOptions, CircuitBreaker, opened, new_breaker, on_failure, Reaches, begun, failed_at,
  IsSound, Reaches-IsSound,
}
use paymaster.Security.IpThrottle.{
  IpThrottleOptions, reject, blocked, retry_after, check, after_failures, check-after_failures,
}

abbrev limits : CircuitBreakerOptions
limits = record { failure_threshold = 2; open_ms = 1000; half_open_max_calls = 1 }

abbrev tripped : CircuitBreaker
tripped = record { state = opened; consecutive_failures = 2; opened_at = 20; half_open_calls = 0 }

two_failures : Reaches limits (on_failure limits 20 (on_failure limits 10 new_breaker))
two_failures = failed_at 20 (failed_at 10 begun)

Reaches-IsSound_example : IsSound limits (on_failure limits 20 (on_failure limits 10 new_breaker))
Reaches-IsSound_example =
    Reaches-IsSound limits (on_failure limits 20 (on_failure limits 10 new_breaker)) (omega arith)
      two_failures

abbrev throttle : IpThrottleOptions
throttle = record {
  requests_per_window = 10;
  window_seconds = 60;
  auth_failure_threshold = 2;
  block_window_seconds = 900;
}

check-after_failures_example :
    check in_memory_store throttle
      (text "::1")
      100
      (after_failures in_memory_store throttle (text "::1") (10 ∷ 20 ∷ []) [])
    ≡ (
      ok (reject blocked (retry_after 100 900)),
      after_failures in_memory_store throttle (text "::1") (10 ∷ 20 ∷ []) [],
    )
check-after_failures_example =
    check-after_failures in_memory_store throttle in_memory_laws (text "::1") 100 (10 ∷ 20 ∷ []) []
      (unfold window_start in (refl, (refl, tt))) (omega arith)
      (unfold in_memory_laws count JsMap.get in omega arith)
