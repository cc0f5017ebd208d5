-- ===== src/Security/IpThrottle.antt =====
-- backend/src/security/ipThrottle.ts: limits by address, before anything is authenticated.
use paymaster.Common.{
  ℕ, ◌+◌, ◌-◌, ◌≤◌, ◌<◌, ◌≡◌, refl, ap, sym, ◌∙◌, max, Bool, true, List, [], ◌∷◌, ◌++◌, leb, All,
  length, ◌==◌, list_eq, nat_eq, list_beq_iff, if◌then◌else◌, arith,
}
use paymaster.Common.Results.{Result, ok, and_then, and_then-ok}
use paymaster.Common.Text.{Text, text, colon, decimal}
use paymaster.Policy.Context.{Exec}
use paymaster.Policy.Quota.Window.{window_start, window_end, windowed_key}
use paymaster.Policy.Quota.Store.{
  QuotaConsumeParams, QuotaOutcome, QuotaStore, QuotaStoreLaws, consume_slot,
}

pub record IpThrottleOptions : Type 0 where
  pub requests_per_window : ℕ
  pub window_seconds : ℕ
  pub auth_failure_threshold : ℕ
  pub block_window_seconds : ℕ

pub data Rejection : Type 0 where
  throttled blocked : Rejection

pub data IpDecision : Type 0 where
  pass : IpDecision
  reject : Rejection → ℕ → IpDecision

abbrev pub rate_prefix : Text
rate_prefix = text "sec:iprate"

abbrev pub fail_prefix : Text
fail_prefix = text "sec:ipfail"

abbrev pub failure_counter_ceiling : ℕ
failure_counter_ceiling = 1000000

abbrev pub rate_key : Text → Text
rate_key ip = rate_prefix ++ colon ∷ ip

abbrev pub fail_key : Text → Text
fail_key ip = fail_prefix ++ colon ∷ ip

-- The end of a window lies behind every instant of it.
abbrev pub retry_after : ℕ → ℕ → ℕ
retry_after now window_seconds = max 1 (window_end now window_seconds - now)

module _ {W : Type 0} (s : QuotaStore W) (o : IpThrottleOptions) where
  abbrev pub rate_params : Text → ℕ → QuotaConsumeParams
  rate_params ip now = record {
    key = rate_key ip;
    amount = 1;
    limit = o.requests_per_window;
    window_seconds = o.window_seconds;
    now = now;
  }

  abbrev pub failure_params : Text → ℕ → QuotaConsumeParams
  failure_params ip now = record {
    key = fail_key ip;
    amount = 1;
    limit = failure_counter_ceiling;
    window_seconds = o.block_window_seconds;
    now = now;
  }

  abbrev judge_rate : ℕ → QuotaOutcome → IpDecision
  judge_rate now outcome =
      if outcome.consumed then pass else reject throttled (max 1 (outcome.resets_at - now))

  -- `check`
  unfoldable pub check : Text → ℕ → Exec W IpDecision
  check ip now w = and_then (s.usage (fail_key ip) o.block_window_seconds now w) (λ failures v.
      if leb o.auth_failure_threshold failures
      then (ok (reject blocked (retry_after now o.block_window_seconds)), v)
      else and_then (s.try_consume (rate_params ip now) v)
          (λ outcome u. (ok (judge_rate now outcome), u)))

  -- `recordAuthFailure`: whether the alert fires.
  unfoldable pub record_auth_failure : Text → ℕ → Exec W Bool
  record_auth_failure ip now w =
      and_then (s.try_consume (failure_params ip now) w)
        (λ outcome v. (ok (outcome.usage == o.auth_failure_threshold), v))

  -- Failures one after the other.
  unfoldable pub after_failures : Text → List ℕ → W → W
  after_failures ip [] w = w
  after_failures ip (now ∷ times) w = after_failures ip times (record_auth_failure ip now w).1

  module _ (laws : QuotaStoreLaws s) where
    open laws use {count}

    abbrev pub failures_at : Text → ℕ → W → ℕ
    failures_at ip now w = count w (windowed_key (fail_key ip) o.block_window_seconds now)

    failure-counts :
        (ip : Text) (now : ℕ) (w : W)
        → failures_at ip now w < failure_counter_ceiling
        → failures_at ip now (record_auth_failure ip now w).1 ≡ failures_at ip now w + 1
    unfolding record_auth_failure
    failure-counts ip now w h =
        let x = s.try_consume (failure_params ip now) w in
        let slot = consume_slot (failure_params ip now) in
        ap (λ (y : Result Text Bool × W). count y.1 slot)
          (and_then-ok x (λ outcome v. (ok (outcome.usage == o.auth_failure_threshold), v)) _
            (laws.consume_outcome (failure_params ip now) w))
        ∙ laws.count-consume (failure_params ip now) w slot
        ∙ ground (arith, list_beq_iff slot slot)

    same_slot :
        (ip : Text) (t now : ℕ) (w : W)
        → window_start t o.block_window_seconds ≡ window_start now o.block_window_seconds
        → failures_at ip t w ≡ failures_at ip now w
    unfolding windowed_key
    same_slot ip t now w e = λ i.
        count w (fail_key ip ++ colon ∷ (decimal o.block_window_seconds ++ colon ∷ decimal (e i)))

    failures-count :
        (ip : Text) (now : ℕ) (times : List ℕ) (w : W)
        → All
            (λ t. window_start t o.block_window_seconds ≡ window_start now o.block_window_seconds)
            times
        → failures_at ip now w + length times ≤ failure_counter_ceiling
        → failures_at ip now (after_failures ip times w) ≡ failures_at ip now w + length times
    unfolding after_failures
    failures-count ip now [] w same h = omega arith
    failures-count ip now (t ∷ times) w same h =
        let v = (record_auth_failure ip t w).1 in
        let more : failures_at ip now v ≡ failures_at ip now w + 1 =
          sym (same_slot ip t now v same.0)
          ∙ failure-counts ip t w (omega (arith, same_slot ip t now w same.0, h))
          ∙ ap (λ n. n + 1) (same_slot ip t now w same.0) in
        failures-count ip now times v same.1 (omega (arith, more, h)) ∙ omega (arith, more)

    check-blocked :
        (ip : Text) (now : ℕ) (w : W)
        → o.auth_failure_threshold ≤ failures_at ip now w
        → check ip now w ≡ (ok (reject blocked (retry_after now o.block_window_seconds)), w)
    unfolding check
    check-blocked ip now w h =
        let test : leb o.auth_failure_threshold (failures_at ip now w) ≡ true = ground arith in
        rw (laws.usage_lem (fail_key ip) o.block_window_seconds now w, test) refl

    -- After as many failures in one block window as the threshold says, which is not above the
    -- counter's ceiling, the address is blocked at every instant of that window, and the refusal
    -- spends nothing.
    pub check-after_failures :
        (ip : Text) (now : ℕ) (times : List ℕ) (w : W)
        → All
            (λ t. window_start t o.block_window_seconds ≡ window_start now o.block_window_seconds)
            times
        → o.auth_failure_threshold ≤ length times
        → failures_at ip now w + length times ≤ failure_counter_ceiling
        → check ip now (after_failures ip times w) ≡ (
          ok (reject blocked (retry_after now o.block_window_seconds)),
          after_failures ip times w,
        )
    check-after_failures ip now times w same many room =
        check-blocked ip now (after_failures ip times w)
          (omega (arith, failures-count ip now times w same room, many))
