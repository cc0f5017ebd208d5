-- ===== src/Admin/Payments/Claimed.antt =====
-- What a claimed payment of backend/src/api/admin/admin.service.ts stands on.
use paymaster.Common.{
  ℕ, ◌≡◌, ◌≢◌, ◌≤◌, ◌*◌, ◌+◌, max, inl, inr, refl, ap, sym, subst, Option, none, some, list_eq,
  nat_eq, arith,
}
use paymaster.Common.Results.{Result, ok, err}
use paymaster.Common.JsMap
use paymaster.Common.JsMap.{JsMap}
use paymaster.Common.Text.{Text}
use paymaster.Fault.{Fault}
use paymaster.Billing.Subscription.{Subscription, Cache}
use paymaster.Billing.Payments.{
  Books, Recorded, record_payment, record_payment-extends, paid_through_of,
}
use paymaster.Billing.Verifier
use paymaster.Billing.Verifier.{
  PaymentVerificationError, PaymentVerifierOptions, VerifiedPayment, NativeTransfer, Claim, IsPaid,
  verify-IsPaid,
}
use paymaster.Admin.Keys.{ActorContext, AuditEntry, AdminState, Refused}
use paymaster.Admin.Payments.{
  SoldPlan, ClaimRequest, BillingState, periods_of, payment_request, claim_of, claim_audited,
  recorded, claim_verified, claim_sold, claim_payment,
}

module _ {W : Type 0} (record_entry : Option (AuditEntry → W → Result Text (Unit {0}) × W))
    (get_address : Text → Text) (options : PaymentVerifierOptions) (payment_data : Text → Text)
    (transfer_of : ℕ → Text → Result PaymentVerificationError (Option NativeTransfer))
    (head_of : ℕ → Result PaymentVerificationError ℕ) where
  claim_audited-books :
      (r : Recorded) (x : Result Refused (Unit {0}) × AdminState W) (books : Books) (cache : Cache)
      → (claim_audited record_entry get_address options payment_data transfer_of head_of r x books
          cache).1.books
        ≡ books
  unfolding claim_audited
  claim_audited-books r (ok _, admin) books cache = refl
  claim_audited-books r (err e, admin) books cache = refl

  -- The books of a claim are those of its payment, whatever the audit log answers.
  recorded-books :
      (payment_id : Text) (c : ActorContext) (s : BillingState W)
      (x : Result Fault Recorded × Books)
      → (recorded record_entry get_address options payment_data transfer_of head_of payment_id c s
          x).1.books
        ≡ x.1
  unfolding recorded
  recorded-books payment_id c s (err e, books) = refl
  recorded-books payment_id c s (ok r, books) = claim_audited-books r _ books _

  recorded-ok :
      (payment_id : Text) (c : ActorContext) (s : BillingState W)
      (x : Result Fault Recorded × Books) (r : Recorded)
      → (recorded record_entry get_address options payment_data transfer_of head_of payment_id c s
          x).0
        ≡ ok r
      → (f : Fault) → x.0 ≢ err f
  unfolding recorded
  recorded-ok payment_id c s (err e, books) r h f k = absurd (cc (h))
  recorded-ok payment_id c s (ok q, books) r h f k = absurd (cc (k))

  -- A claim that was credited: what was paid on the chain, and what it bought.
  pub record IsClaimed (plans : JsMap Text SoldPlan) (q : ClaimRequest) (c : ActorContext) (now : ℕ)
      (before after : Books) : Type 0 where
    pub plan : SoldPlan
    pub paid : VerifiedPayment
    pub transfer : NativeTransfer
    pub price : ℕ
    pub head : ℕ
    pub sold : JsMap.get q.plan_id plans ≡ some plan
    pub on_chain : transfer_of q.chain_id q.tx_hash ≡ ok (some transfer)
    pub is_paid :
        IsPaid get_address options
          (claim_of record_entry get_address options payment_data transfer_of head_of q c plan)
          transfer
          price
          head
          paid
    pub bought : periods_of plan paid * price ≤ transfer.value_wei
    pub subscription : Subscription
    pub stands : JsMap.get c.write_tenant after.subscriptions ≡ some subscription
    pub extended :
        subscription.paid_through
        ≡ max now (paid_through_of (JsMap.get c.write_tenant before.subscriptions))
          + plan.period_seconds * periods_of plan paid
    pub others :
        (j : Text)
        → c.write_tenant ≢ j
        → JsMap.get j after.subscriptions ≡ JsMap.get j before.subscriptions

  fewer : (a b p v : ℕ) → a ≤ b → b * p ≤ v → a * p ≤ v
  fewer a b p v h k = grind arith

  with_payment :
      (plans : JsMap Text SoldPlan) (q : ClaimRequest) (c : ActorContext) (payment_id : Text)
      (now : ℕ) (s : BillingState W) (r : Recorded) (plan : SoldPlan) (paid : VerifiedPayment)
      → JsMap.get q.plan_id plans ≡ some plan
      → Verifier.verify get_address options
          (transfer_of q.chain_id q.tx_hash)
          (head_of q.chain_id)
          (claim_of record_entry get_address options payment_data transfer_of head_of q c plan)
        ≡ ok paid
      → (recorded record_entry get_address options payment_data transfer_of head_of payment_id c s
          (record_payment (payment_request c plan paid now) s.books)).0
        ≡ ok r
      → IsClaimed plans q c now s.books
          (recorded record_entry get_address options payment_data transfer_of head_of payment_id c s
            (record_payment (payment_request c plan paid now) s.books)).1.books
  unfolding payment_request periods_of
  with_payment plans q c payment_id now s r plan paid sold verified e =
      let request = payment_request c plan paid now in
      let (transfer, price, head, on_chain, _, is_paid) =
        verify-IsPaid get_address options (transfer_of q.chain_id q.tx_hash) (head_of q.chain_id)
          (claim_of record_entry get_address options payment_data transfer_of head_of q c plan) paid
          verified in
      elim (record_payment-extends request s.books) [
        | inl (_, f, refused) ↦ absurd (
            recorded-ok payment_id c s (record_payment request s.books) r e f
              (ap (λ (x : Result Fault Recorded × Books). x.0) refused))
        | inr (subscription, stands, extended, others) ↦
            subst (IsClaimed plans q c now s.books)
              (sym (recorded-books payment_id c s (record_payment request s.books)))
              (record {
                plan = plan;
                paid = paid;
                transfer = transfer;
                price = price;
                head = head;
                sold = sold;
                on_chain = on_chain;
                is_paid = is_paid;
                bought =
                    fewer (periods_of plan paid) paid.periods price transfer.value_wei (omega arith)
                      (subst (λ n. paid.periods * price ≤ n) is_paid.amount is_paid.paid_for);
                subscription = subscription;
                stands = stands;
                extended = extended;
                others = others;
              })
      ]

  verified-IsClaimed :
      (plans : JsMap Text SoldPlan) (q : ClaimRequest) (c : ActorContext) (payment_id : Text)
      (now : ℕ) (s : BillingState W) (r : Recorded) (plan : SoldPlan)
      (v : Result PaymentVerificationError VerifiedPayment)
      → JsMap.get q.plan_id plans ≡ some plan
      → Verifier.verify get_address options
          (transfer_of q.chain_id q.tx_hash)
          (head_of q.chain_id)
          (claim_of record_entry get_address options payment_data transfer_of head_of q c plan)
        ≡ v
      → (claim_verified record_entry get_address options payment_data transfer_of head_of payment_id
          c plan now s v).0
        ≡ ok r
      → IsClaimed plans q c now s.books
          (claim_verified record_entry get_address options payment_data transfer_of head_of
            payment_id c plan now s v).1.books
  unfolding claim_verified
  verified-IsClaimed plans q c payment_id now s r plan (err f) sold verified e = absurd (cc (e))
  verified-IsClaimed plans q c payment_id now s r plan (ok paid) sold verified e =
      with_payment plans q c payment_id now s r plan paid sold verified e

  sold-IsClaimed :
      (plans : JsMap Text SoldPlan) (q : ClaimRequest) (c : ActorContext) (payment_id : Text)
      (now : ℕ) (s : BillingState W) (r : Recorded) (o : Option SoldPlan)
      → JsMap.get q.plan_id plans ≡ o
      → (claim_sold record_entry get_address options payment_data transfer_of head_of q c payment_id
          now s o).0
        ≡ ok r
      → IsClaimed plans q c now s.books
          (claim_sold record_entry get_address options payment_data transfer_of head_of q c
            payment_id now s o).1.books
  unfolding claim_sold
  sold-IsClaimed plans q c payment_id now s r none sold e = absurd (cc (e))
  sold-IsClaimed plans q c payment_id now s r (some plan) sold e =
      verified-IsClaimed plans q c payment_id now s r plan _ sold refl e

-- A claim that is answered with a payment was paid for: a transfer on the chain that succeeded, to the
-- treasury, with the key of the caller's own tenant, worth at least the price of the periods that it
-- bought, and confirmed; it adds exactly these periods to what that tenant had paid for, or to now, and
-- moves no other tenant's subscription.
pub claim_payment-IsClaimed :
    {W : Type 0} (record_entry : Option (AuditEntry → W → Result Text (Unit {0}) × W))
    (get_address : Text → Text) (options : PaymentVerifierOptions) (payment_data : Text → Text)
    (transfer_of : ℕ → Text → Result PaymentVerificationError (Option NativeTransfer))
    (head_of : ℕ → Result PaymentVerificationError ℕ) (plans : JsMap Text SoldPlan)
    (q : ClaimRequest) (c : ActorContext) (payment_id : Text) (now : ℕ) (s : BillingState W)
    (r : Recorded)
    → (claim_payment record_entry get_address options payment_data transfer_of head_of plans q c
        payment_id now s).0
      ≡ ok r
    → IsClaimed record_entry get_address options payment_data transfer_of head_of plans q c now
        s.books
        (claim_payment record_entry get_address options payment_data transfer_of head_of plans q c
          payment_id now s).1.books
unfolding claim_payment
claim_payment-IsClaimed record_entry get_address options payment_data transfer_of head_of plans q c
      payment_id now s r e =
    sold-IsClaimed record_entry get_address options payment_data transfer_of head_of plans q c
      payment_id now s r (JsMap.get q.plan_id plans) refl e
