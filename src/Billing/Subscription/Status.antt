-- ===== src/Billing/Subscription/Status.antt =====
-- What a status of backend/src/billing/subscription.ts says, and what the cache may change of it.
use paymaster.Common.{
  ℕ, ◌+◌, ◌-◌, ◌≤◌, ◌≡◌, refl, ap, true, Option, none, some, ltb, arith, list_eq, nat_eq, ◌↔◌,
  list_beq_iff, inl, inr, Bool-cases,
}
use paymaster.Common.Results.{Result, ok, err}
use paymaster.Common.JsMap
use paymaster.Common.JsMap.{map_laws}
use paymaster.Common.Text.{Text}
use paymaster.Fault.{Fault}
use paymaster.Billing.Subscription.{
  Subscription, SubscriptionServiceOptions, describe, CacheEntry, Cache, load, load_from, fetched,
  described, status_of,
}

-- A subscription permits sponsorship up to the end of its grace window, which the status names, and
-- is due for renewal from the notice before its paid-through date up to that same end.
pub describe_lem :
    (o : SubscriptionServiceOptions) (now : ℕ) (s : Subscription)
    → (((describe o now (some s)).allows_sponsorship ≡ true)
        ↔ (now ≤ s.paid_through + s.grace_seconds))
      × (((describe o now (some s)).renewal_due ≡ true)
          ↔ ((s.paid_through ≤ now + o.notice_seconds) × (now ≤ s.paid_through + s.grace_seconds)))
      × ((describe o now (some s)).grace_ends_at ≡ some (s.paid_through + s.grace_seconds))
unfolding describe
describe_lem o now s = (ground arith, ground arith, refl)

module _ (row : Text → Option Subscription) where
  abbrev reads : Text → Result Fault (Option Subscription)
  reads t = ok (row t)

  -- Every cached row is the one in the database.
  pub record IsFresh (cache : Cache) : Type 0 where
    pub at : (t : Text) (e : CacheEntry) → JsMap.get t cache ≡ some e → e.subscription ≡ row t

  IsFresh-put :
      (cache : Cache) (tenant : Text) (now_ms : ℕ)
      → IsFresh cache
      → IsFresh (JsMap.put tenant (record { subscription = row tenant; read_at = now_ms }) cache)
  IsFresh-put cache tenant now_ms h = record {
    at = λ t e p. ground (
      arith,
      list_beq_iff tenant t,
      h.at t e,
      JsMap.get-put tenant t (record { subscription = row tenant; read_at = now_ms }) cache,
      p,
    );
  }

  entry-IsFresh :
      (cache : Cache) (tenant : Text) (o : Option CacheEntry) (ttl now_ms : ℕ)
      → IsFresh cache
      → JsMap.get tenant cache ≡ o
      → ((load_from reads o ttl tenant now_ms cache).0 ≡ ok (row tenant))
        × IsFresh (load_from reads o ttl tenant now_ms cache).1
  unfolding load_from fetched
  entry-IsFresh cache tenant none ttl now_ms h e = (refl, IsFresh-put cache tenant now_ms h)
  entry-IsFresh cache tenant (some entry) ttl now_ms h e =
      elim (Bool-cases (ltb (now_ms - entry.read_at) ttl)) [
        | inl young ↦ rw young (ap ok (h.at tenant entry e), h)
        | inr old ↦ rw old (refl, IsFresh-put cache tenant now_ms h)
      ]

  described-ok :
      (o : SubscriptionServiceOptions) (now : ℕ) (s : Option Subscription)
      (x : Result Fault (Option Subscription) × Cache)
      → x.0 ≡ ok s
      → IsFresh x.1
      → ((described reads o now x).0 ≡ ok (describe o now s)) × IsFresh (described reads o now x).1
  unfolding described
  described-ok o now s (ok u, cache) e h = (ap (λ v. ok (describe o now v)) (cc e), h)
  described-ok o now s (err f, cache) e h = absurd (cc (e))

  -- While the rows stand still, the cache changes nothing that is said: from a cache whose entries
  -- are the rows, the status is the row's at this instant, and the cache stays one.
  pub status_of-IsFresh :
      (o : SubscriptionServiceOptions) (tenant : Text) (now now_ms : ℕ) (cache : Cache)
      → IsFresh cache
      → ((status_of reads o tenant now now_ms cache).0 ≡ ok (describe o now (row tenant)))
        × IsFresh (status_of reads o tenant now now_ms cache).1
  unfolding status_of load
  status_of-IsFresh o tenant now now_ms cache h =
      let (e, k) = entry-IsFresh cache tenant (JsMap.get tenant cache) o.ttl_ms now_ms h refl in
      described-ok o now (row tenant)
        (load_from reads (JsMap.get tenant cache) o.ttl_ms tenant now_ms cache) e k
