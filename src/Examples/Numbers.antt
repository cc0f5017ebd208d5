-- ===== src/Examples/Numbers.antt =====
-- Instants, windows, packed words and subscriptions.
use paymaster.Common.{ℕ, ◌≡◌, refl, true, arith}
use paymaster.Common.Text.{Text, text}
use paymaster.Policy.Quota.Window.{
  window_start, window_end, windowed_key, window_start-same, windowed_key_injective,
}
use paymaster.Common.{Option, some, [], ◌∷◌, list_beq_iff, list_eq, nat_eq}
use paymaster.Common.JsMap
use paymaster.Billing.Subscription.{Subscription, SubscriptionServiceOptions, Cache}
use paymaster.Billing.Subscription.Status.{IsFresh}

window_start-same_example : window_start 10799 3600 ≡ window_start 7250 3600
window_start-same_example =
    window_start-same 7250 10799 3600 (omega arith) (omega arith)
      (unfold window_end window_start in omega arith)

windowed_key_injective_example :
    (text "quota:daily" ≡ text "quota:daily")
    × (◌≡◌ {A = ℕ} 3600 3600)
    × (window_start 7250 3600 ≡ window_start 7300 3600)
windowed_key_injective_example =
    windowed_key_injective (text "quota:daily") (text "quota:daily") 3600 3600 7250 7300
      (unfold windowed_key window_start in refl)

abbrev a_year : Subscription
a_year = record {
  tenant_id = text "acme";
  plan = text "pro";
  paid_through = 1000;
  grace_seconds = 100;
}

abbrev week_notice : SubscriptionServiceOptions
week_notice = record { unsubscribed_allows = true; ttl_ms = 30000; notice_seconds = 50 }

abbrev rows : Text → Option Subscription
rows t = some a_year

abbrev one_cached : Cache
one_cached = (text "acme", record { subscription = some a_year; read_at = 5 }) ∷ []

cached_once : IsFresh rows one_cached
unfolding JsMap.get
cached_once = record { at = λ t e p. ground (arith, list_beq_iff (text "acme") t) }
