-- ===== src/Billing/Subscription.antt =====
-- backend/src/billing/subscription.ts: where a subscription stands, read through a short cache.
pub mod Status
use paymaster.Common.{
  ℕ, ◌+◌, ◌-◌, Bool, true, false, not, ◌&&◌, ◌||◌, Option, none, some, ltb, leb, list_eq, nat_eq,
  if◌then◌else◌,
}
use paymaster.Common.Results.{Result, ok, err}
use paymaster.Common.JsMap
use paymaster.Common.JsMap.{JsMap}
use paymaster.Common.Text.{Text}
use paymaster.Fault.{Fault}

-- `Subscription` of db/subscriptionRepository.ts.
pub record Subscription : Type 0 where
  pub tenant_id : Text
  pub plan : Text
  pub paid_through : ℕ
  pub grace_seconds : ℕ

-- `unsubscribed` is the source's `none`.
pub data SubscriptionState : Type 0 where
  active grace lapsed unsubscribed : SubscriptionState

pub record SubscriptionStatus : Type 0 where
  pub state : SubscriptionState
  pub plan : Option Text
  pub paid_through : Option ℕ
  pub grace_ends_at : Option ℕ
  pub allows_sponsorship : Bool
  pub renewal_due : Bool

pub record SubscriptionServiceOptions : Type 0 where
  pub unsubscribed_allows : Bool
  pub ttl_ms : ℕ
  pub notice_seconds : ℕ

unfoldable pub state_at : ℕ → Subscription → SubscriptionState
state_at now s =
    if leb now s.paid_through
    then active
    else if leb now (s.paid_through + s.grace_seconds)
    then grace
    else lapsed

abbrev pub is_lapsed : SubscriptionState → Bool
is_lapsed lapsed = true
is_lapsed _ = false

-- `now >= paidThrough - noticeSeconds`: a difference below zero is below every instant.
unfoldable pub is_renewal_due : ℕ → ℕ → Subscription → SubscriptionState → Bool
is_renewal_due notice now s grace = true
is_renewal_due notice now s active = leb (s.paid_through - notice) now
is_renewal_due notice now s _ = false

unfoldable pub describe : SubscriptionServiceOptions → ℕ → Option Subscription → SubscriptionStatus
unfolding state_at is_renewal_due
describe o now none = record {
  state = unsubscribed;
  plan = none;
  paid_through = none;
  grace_ends_at = none;
  allows_sponsorship = o.unsubscribed_allows;
  renewal_due = false;
}
describe o now (some s) =
    let state = state_at now s in
    record {
      state = state;
      plan = some s.plan;
      paid_through = some s.paid_through;
      grace_ends_at = some (s.paid_through + s.grace_seconds);
      allows_sponsorship = not (is_lapsed state);
      renewal_due = is_renewal_due o.notice_seconds now s state;
    }

-- A row, or its absence, as it was read.
pub record CacheEntry : Type 0 where
  pub subscription : Option Subscription
  pub read_at : ℕ

abbrev pub Cache : Type 0
Cache = JsMap Text CacheEntry

module _ (repository : Text → Result Fault (Option Subscription)) where
  fetched :
      Text
      → ℕ
      → Cache
      → Result Fault (Option Subscription)
      → Result Fault (Option Subscription) × Cache
  fetched tenant now_ms cache (ok s) =
      (ok s, JsMap.put tenant (record { subscription = s; read_at = now_ms }) cache)
  fetched tenant now_ms cache (err e) = (err e, cache)

  load_from : Option CacheEntry → ℕ → Text → ℕ → Cache → Result Fault (Option Subscription) × Cache
  unfolding fetched
  load_from none ttl tenant now_ms cache = fetched tenant now_ms cache (repository tenant)
  load_from (some entry) ttl tenant now_ms cache =
      if ltb (now_ms - entry.read_at) ttl
      then (ok entry.subscription, cache)
      else fetched tenant now_ms cache (repository tenant)

  -- The clock in milliseconds does not run backwards.
  unfoldable pub load : ℕ → Text → ℕ → Cache → Result Fault (Option Subscription) × Cache
  unfolding load_from
  load ttl tenant now_ms cache = load_from (JsMap.get tenant cache) ttl tenant now_ms cache

  described :
      SubscriptionServiceOptions
      → ℕ
      → Result Fault (Option Subscription) × Cache
      → Result Fault SubscriptionStatus × Cache
  described o now (ok s, cache) = (ok (describe o now s), cache)
  described o now (err e, cache) = (err e, cache)

  unfoldable pub status_of :
      SubscriptionServiceOptions → Text → ℕ → ℕ → Cache → Result Fault SubscriptionStatus × Cache
  unfolding load described
  status_of o tenant now now_ms cache = described o now (load o.ttl_ms tenant now_ms cache)

unfoldable pub invalidate : Text → Cache → Cache
invalidate tenant cache = JsMap.delete tenant cache
