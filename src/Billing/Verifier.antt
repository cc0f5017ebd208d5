-- ===== src/Billing/Verifier.antt =====
-- backend/src/billing/paymentVerifier.ts: a claimed payment becomes a fact, read from the chain. The
-- chain's transfer and its head are what the adapter answered; `getAddress` of viem is a parameter.
use paymaster.Common.{
  ℕ, ◌+◌, ◌*◌, ◌/◌, ◌≤◌, ◌≡◌, refl, ap, ◌∙◌, min, max, Bool, true, false, not, Option, none, some,
  ltb, ◌==◌, list_eq, nat_eq, list_beq_iff, arith,
}
use paymaster.Common.Results.{Result, ok, err, ◌>>=◌, ◌>>◌, guard, >>=-eq-ok, guard-eq-ok}
use paymaster.Common.JsMap
use paymaster.Common.JsMap.{JsMap}
use paymaster.Common.Text.{Text, to_lower}

pub data PaymentVerificationError : Type 0 where
  not_sold_on_chain not_found reverted wrong_recipient : PaymentVerificationError
  wrong_account underpaid unconfirmed chain_error range_error : PaymentVerificationError

pub record PaymentVerifierOptions : Type 0 where
  pub treasury : Text
  pub confirmations : ℕ
  pub max_periods_per_payment : ℕ

pub record VerifiedPayment : Type 0 where
  pub chain_id : ℕ
  pub tx_hash : Text
  pub sender : Text
  pub amount_wei : ℕ
  pub periods : ℕ

-- `getNativeTransfer` of the chain's adapter; `to` is null where a contract was created.
pub record NativeTransfer : Type 0 where
  pub success : Bool
  pub recipient : Option Text
  pub sender : Text
  pub input : Text
  pub value_wei : ℕ
  pub block_number : ℕ

pub record Claim : Type 0 where
  pub chain_id : ℕ
  pub tx_hash : Text
  pub payment_data : Text
  pub price_wei : JsMap ℕ ℕ

abbrev pub present {ℓ} :
    {A : Type ℓ} → Option A → PaymentVerificationError → Result PaymentVerificationError A
present none e = err e
present (some a) e = ok a

-- `to !== null && getAddress(to) === treasury`
abbrev pub is_treasury : (Text → Text) → Text → Option Text → Bool
is_treasury get_address treasury none = false
is_treasury get_address treasury (some a) = get_address a == treasury

module _ (get_address : Text → Text) (options : PaymentVerifierOptions) where
  abbrev pub payment : Claim → NativeTransfer → ℕ → VerifiedPayment
  payment claim transfer price = record {
    chain_id = claim.chain_id;
    tx_hash = claim.tx_hash;
    sender = transfer.sender;
    amount_wei = transfer.value_wei;
    periods = max 1 (min (transfer.value_wei / price) options.max_periods_per_payment);
  }

  -- A division by a price of zero throws. `payment_data` of the claim is the on-chain key of the claimer's own tenant.
  -- `head - blockNumber + 1n < confirmations` is written without a difference.
  unfoldable pub verify :
      Result PaymentVerificationError (Option NativeTransfer)
      → Result PaymentVerificationError ℕ
      → Claim
      → Result PaymentVerificationError VerifiedPayment
  verify transfer_of head_of claim = do
    price ← present (JsMap.get claim.chain_id claim.price_wei) not_sold_on_chain
    answer ← transfer_of
    transfer ← present answer not_found
    guard transfer.success reverted
    guard (is_treasury get_address (get_address options.treasury) transfer.recipient)
        wrong_recipient
    guard (to_lower transfer.input == to_lower claim.payment_data) wrong_account
    guard (not (ltb transfer.value_wei price)) underpaid
    head ← head_of
    guard (not (ltb (head + 1) (transfer.block_number + options.confirmations))) unconfirmed
    guard (not (price == 0)) range_error
    ok (record {
      chain_id = claim.chain_id;
      tx_hash = claim.tx_hash;
      sender = transfer.sender;
      amount_wei = transfer.value_wei;
      periods = max 1 (min (transfer.value_wei / price) options.max_periods_per_payment);
    })

  -- What a payment that was accepted is, on the chain.
  pub record IsPaid (claim : Claim) (transfer : NativeTransfer) (price head : ℕ)
      (paid : VerifiedPayment) : Type 0 where
    pub priced : JsMap.get claim.chain_id claim.price_wei ≡ some price
    pub succeeded : transfer.success ≡ true
    pub to_treasury :
        is_treasury get_address (get_address options.treasury) transfer.recipient ≡ true
    pub for_tenant : to_lower transfer.input ≡ to_lower claim.payment_data
    pub covers : price ≤ transfer.value_wei
    pub confirmed : transfer.block_number + options.confirmations ≤ head + 1
    pub at_least_one : 1 ≤ paid.periods
    pub capped : paid.periods ≤ max 1 options.max_periods_per_payment
    pub paid_for : paid.periods * price ≤ paid.amount_wei
    pub amount : paid.amount_wei ≡ transfer.value_wei

  present-ok :
      {A : Type 0} (o : Option A) (e : PaymentVerificationError) {a : A}
      → present o e ≡ ok a
      → o ≡ some a
  present-ok none e h = cc
  present-ok (some b) e h = ground arith

  pub periods-capped : (value price cap : ℕ) → max 1 (min (value / price) cap) ≤ max 1 cap
  periods-capped value price cap = omega arith

  pub periods-paid :
      (value price cap : ℕ)
      → price ≤ value
      → (price == 0) ≡ false
      → max 1 (min (value / price) cap) * price ≤ value
  periods-paid value price cap covers positive = grind arith

  accepted :
      (claim : Claim) (transfer : NativeTransfer) (price head : ℕ) (paid : VerifiedPayment)
      → JsMap.get claim.chain_id claim.price_wei ≡ some price
      → transfer.success ≡ true
      → is_treasury get_address (get_address options.treasury) transfer.recipient ≡ true
      → (to_lower transfer.input == to_lower claim.payment_data) ≡ true
      → not (ltb transfer.value_wei price) ≡ true
      → not (ltb (head + 1) (transfer.block_number + options.confirmations)) ≡ true
      → not (price == 0) ≡ true
      → ◌≡◌ {A = Result PaymentVerificationError VerifiedPayment}
          (ok (payment claim transfer price))
          (ok paid)
      → IsPaid claim transfer price head paid
  accepted claim transfer price head paid priced succeeded treasury account enough deep positive
        same =
      let e : payment claim transfer price ≡ paid = ap paid_in same in
      rw (← e) (record {
        priced = priced;
        succeeded = succeeded;
        to_treasury = treasury;
        for_tenant = (list_beq_iff _ _).0 account;
        covers = ground arith;
        confirmed = ground arith;
        at_least_one = omega arith;
        capped = periods-capped transfer.value_wei price options.max_periods_per_payment;
        paid_for =
            periods-paid transfer.value_wei price options.max_periods_per_payment (ground arith)
              (ground arith);
        amount = refl;
      })
    where
      paid_in : Result PaymentVerificationError VerifiedPayment → VerifiedPayment
      paid_in (ok x) = x
      paid_in (err _) = paid

  -- Time is only granted for a transfer that succeeded, to the treasury, with this tenant's key as
  -- its data, for at least the plan's price, and buried under enough blocks; and never for more
  -- periods than the cap, nor for more than was paid for.
  pub verify-IsPaid :
      (answer : Result PaymentVerificationError (Option NativeTransfer))
      (head_of : Result PaymentVerificationError ℕ) (claim : Claim) (paid : VerifiedPayment)
      → verify answer head_of claim ≡ ok paid
      → (transfer : NativeTransfer) × (price : ℕ) × (head : ℕ) × (answer ≡ ok (some transfer))
        × (head_of ≡ ok head)
        × IsPaid claim transfer price head paid
  unfolding verify
  verify-IsPaid answer head_of claim paid e =
      let (price, p, e₁) =
        >>=-eq-ok (present (JsMap.get claim.chain_id claim.price_wei) not_sold_on_chain) _ e in
      let (reply, t, e₂) = >>=-eq-ok answer _ e₁ in
      let (transfer, q, e₃) = >>=-eq-ok (present reply not_found) _ e₂ in
      let (succeeded, e₄) = guard-eq-ok transfer.success reverted _ e₃ in
      let (treasury, e₅) =
        guard-eq-ok (is_treasury get_address (get_address options.treasury) transfer.recipient)
          wrong_recipient _ e₄ in
      let (account, e₆) =
        guard-eq-ok (to_lower transfer.input == to_lower claim.payment_data) wrong_account _ e₅ in
      let (enough, e₇) = guard-eq-ok (not (ltb transfer.value_wei price)) underpaid _ e₆ in
      let (head, hd, e₈) = >>=-eq-ok head_of _ e₇ in
      let (deep, e₉) =
        guard-eq-ok (not (ltb (head + 1) (transfer.block_number + options.confirmations)))
          unconfirmed _ e₈ in
      let (positive, same) = guard-eq-ok (not (price == 0)) range_error _ e₉ in
      (
        transfer,
        price,
        head,
        t ∙ ap ok (present-ok reply not_found q),
        hd,
        accepted claim transfer price head paid (present-ok _ not_sold_on_chain p) succeeded
            treasury account enough deep positive same,
      )
