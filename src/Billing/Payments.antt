-- ===== src/Billing/Payments.antt =====
-- backend/src/db/subscriptionRepository.ts with the tables of backend/migrations/0005_subscriptions.sql:
-- a payment extends a subscription, in one transaction.
use paymaster.Common.{
  ℕ, ◌+◌, ◌≤◌, ◌≡◌, ◌≢◌, ◌⊎◌, ==_refl, refl, ap, ◌∙◌, max, Bool, true, false, not, ◌&&◌, Option,
  none, some, List, [], ◌∷◌, ltb, any, ◌==◌, list_eq, nat_eq, list_beq_iff, if◌then◌else◌, arith,
  Bool-cases, inl, inr,
}
use paymaster.Common.Results.{Result, ok, err}
use paymaster.Common.JsMap
use paymaster.Common.JsMap.{JsMap, map_laws}
use paymaster.Common.Text.{Text, text}
use paymaster.Fault.{Fault, failed}
use paymaster.Billing.Subscription.{Subscription}

pub record SubscriptionPayment : Type 0 where
  pub tenant_id : Text
  pub amount_wei : Option Text
  pub chain_id : Option ℕ
  pub tx_hash : Option Text
  pub extended_from : ℕ
  pub extended_to : ℕ
  pub recorded_by : Text
  pub note : Option Text

pub record RecordPaymentRequest : Type 0 where
  pub tenant_id : Text
  pub plan : Text
  pub period_seconds : ℕ
  pub amount_wei : Option Text
  pub chain_id : Option ℕ
  pub tx_hash : Option Text
  pub recorded_by : Text
  pub note : Option Text
  pub now : ℕ

-- The two tables: the subscriptions by their primary key, and the payments, the newest first.
pub record Books : Type 0 where
  pub subscriptions : JsMap Text Subscription
  pub payments : List SubscriptionPayment

-- The column's default, of three days.
abbrev pub default_grace_seconds : ℕ
default_grace_seconds = 259200

unfoldable pub paid_through_of : Option Subscription → ℕ
paid_through_of none = 0
paid_through_of (some s) = s.paid_through

same_transaction : Option ℕ → Option Text → Option ℕ → Option Text → Bool
same_transaction (some c) (some h) (some d) (some g) = (c == d) && (h == g)
same_transaction _ _ _ _ = false

-- The unique index on `(chain_id, tx_hash)`, which nulls do not enter.
unfoldable pub is_recorded : Option ℕ → Option Text → List SubscriptionPayment → Bool
unfolding same_transaction
is_recorded chain_id tx_hash payments =
    any (λ (p : SubscriptionPayment). same_transaction p.chain_id p.tx_hash chain_id tx_hash)
      payments

-- `INSERT … ON CONFLICT (tenant_id) DO UPDATE SET plan, paid_through`: the grace window stays.
unfoldable pub upserted : Text → Text → ℕ → Option Subscription → Subscription
upserted tenant_id plan paid_through none = record {
  tenant_id = tenant_id;
  plan = plan;
  paid_through = paid_through;
  grace_seconds = default_grace_seconds;
}
upserted tenant_id plan paid_through (some s) = record s {
  plan = plan;
  paid_through = paid_through;
}

unfoldable pub payment_of : RecordPaymentRequest → Option Subscription → SubscriptionPayment
unfolding paid_through_of
payment_of r existing =
    let extended_from = max r.now (paid_through_of existing) in
    record {
      tenant_id = r.tenant_id;
      amount_wei = r.amount_wei;
      chain_id = r.chain_id;
      tx_hash = r.tx_hash;
      extended_from = extended_from;
      extended_to = extended_from + r.period_seconds;
      recorded_by = r.recorded_by;
      note = r.note;
    }

pub record Recorded : Type 0 where
  pub subscription : Subscription
  pub payment : SubscriptionPayment

pub given_together : Option ℕ → Option Text → Bool
given_together none none = true
given_together (some _) (some _) = true
given_together _ _ = false

-- The table's checks: `extended_to > extended_from`, and a chain exactly with a hash.
unfoldable pub meets_checks : SubscriptionPayment → Bool
unfolding given_together
meets_checks p = ltb p.extended_from p.extended_to && given_together p.chain_id p.tx_hash

-- The table's checks and its index may each refuse the row; then the
-- transaction is rolled back.
unfoldable pub record_payment : RecordPaymentRequest → Books → Result Fault Recorded × Books
unfolding payment_of is_recorded upserted meets_checks
record_payment r b =
    let existing = JsMap.get r.tenant_id b.subscriptions in
    let payment = payment_of r existing in
    let subscription = upserted r.tenant_id r.plan payment.extended_to existing in
    if not (meets_checks payment)
    then (err (failed (text "check violation")), b)
    else if is_recorded r.chain_id r.tx_hash b.payments
    then (err (failed (text "DuplicatePaymentError")), b)
    else (
      ok (record { subscription = subscription; payment = payment }),
      record {
        subscriptions = JsMap.put r.tenant_id subscription b.subscriptions;
        payments = payment ∷ b.payments;
      },
    )

-- Which payments name the transaction.
abbrev names : ℕ → Text → SubscriptionPayment → Bool
unfolding same_transaction
names c h p = same_transaction p.chain_id p.tx_hash (some c) (some h)

unfoldable pub times_credited : ℕ → Text → List SubscriptionPayment → ℕ
unfolding names
times_credited c h [] = 0
times_credited c h (p ∷ ps) = (if names c h p then 1 else 0) + times_credited c h ps

-- Every transaction buys time at most once.
abbrev pub CreditedOnce : Books → Type 0
CreditedOnce b = (c : ℕ) (h : Text) → times_credited c h b.payments ≤ 1

abbrev written : RecordPaymentRequest → Books → Recorded
written r b =
    let existing = JsMap.get r.tenant_id b.subscriptions in
    record {
      subscription = upserted r.tenant_id r.plan (payment_of r existing).extended_to existing;
      payment = payment_of r existing;
    }

abbrev books_with : RecordPaymentRequest → Books → Books
books_with r b = record {
  subscriptions = JsMap.put r.tenant_id (written r b).subscription b.subscriptions;
  payments = (written r b).payment ∷ b.payments;
}

-- Why the tables refuse a payment: it buys no time, it names a chain without a transaction or a
-- transaction without a chain, or its transaction is recorded already.
pub data IsRefused (r : RecordPaymentRequest) (b : Books) : Type 0 where
  no_time : r.period_seconds ≡ 0 → IsRefused r b
  half_named : given_together r.chain_id r.tx_hash ≡ false → IsRefused r b
  duplicate : is_recorded r.chain_id r.tx_hash b.payments ≡ true → IsRefused r b

unchecked-IsRefused :
    (r : RecordPaymentRequest) (b : Books) (o : Option Subscription)
    → meets_checks (payment_of r o) ≡ false
    → IsRefused r b
unfolding meets_checks payment_of
unchecked-IsRefused r b o e = elim (Bool-cases (given_together r.chain_id r.tx_hash)) [
  | inl named ↦ no_time (ground arith)
  | inr half ↦ half_named half
]

-- Either nothing is written, or both rows are.
record_payment-cases :
    (r : RecordPaymentRequest) (b : Books)
    → (IsRefused r b × (f : Fault) × (record_payment r b ≡ (err f, b)))
      ⊎ ((is_recorded r.chain_id r.tx_hash b.payments ≡ false)
          × (record_payment r b ≡ (ok (written r b), books_with r b)))
unfolding record_payment
record_payment-cases r b =
    let p = payment_of r (JsMap.get r.tenant_id b.subscriptions) in
    elim (Bool-cases (meets_checks p)) [
      | inr e ↦ inl (
        unchecked-IsRefused r b (JsMap.get r.tenant_id b.subscriptions) e,
        failed (text "check violation"),
        rw e refl,
      )
      | inl e ↦ elim (Bool-cases (is_recorded r.chain_id r.tx_hash b.payments)) [
        | inl d ↦ inl (duplicate d, failed (text "DuplicatePaymentError"), rw (e, d) refl)
        | inr d ↦ inr (d, rw (e, d) refl)
      ]
    ]

upserted-paid :
    (t plan : Text) (n : ℕ) (o : Option Subscription) → (upserted t plan n o).paid_through ≡ n
unfolding upserted
upserted-paid t plan n none = refl
upserted-paid t plan n (some s) = refl

pub record_payment-extends :
    (r : RecordPaymentRequest) (b : Books)
    → (IsRefused r b × (f : Fault) × (record_payment r b ≡ (err f, b)))
      ⊎ ((s : Subscription) × (JsMap.get r.tenant_id (record_payment r b).1.subscriptions ≡ some s)
          × (s.paid_through
              ≡ max r.now (paid_through_of (JsMap.get r.tenant_id b.subscriptions))
                + r.period_seconds)
          × ((j : Text)
              → r.tenant_id ≢ j
              → JsMap.get j (record_payment r b).1.subscriptions ≡ JsMap.get j b.subscriptions))
unfolding payment_of
record_payment-extends r b = elim (record_payment-cases r b) [
  | inl refused ↦ inl refused
  | inr (new, e) ↦ inr (
    (written r b).subscription,
    ap (λ (x : Result Fault Recorded × Books). JsMap.get r.tenant_id x.1.subscriptions) e
        ∙ JsMap.get-put r.tenant_id r.tenant_id (written r b).subscription b.subscriptions
        ∙ rw (==_refl r.tenant_id) refl,
    upserted-paid r.tenant_id r.plan _ (JsMap.get r.tenant_id b.subscriptions),
    λ j other.
        ap (λ (x : Result Fault Recorded × Books). JsMap.get j x.1.subscriptions) e
        ∙ ground (
          arith,
          JsMap.get-put r.tenant_id j (written r b).subscription b.subscriptions,
          list_beq_iff r.tenant_id j,
        ),
  )
]
