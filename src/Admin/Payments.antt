-- ===== src/Admin/Payments.antt =====
-- The payments that a customer claims, in backend/src/api/admin/admin.service.ts: verified on the chain by
-- backend/src/billing/paymentVerifier.ts and recorded in the books. The catalogue is that of
-- backend/src/billing/plans.ts, where the period of a plan is positive; the key of a tenant on the chain,
-- the reads of the chain and the id of a payment's row are arguments.
pub mod Claimed
use paymaster.Common.{
  ℕ, ◌*◌, ◌/◌, min, max, Option, none, some, List, [], ◌∷◌, ◌++◌, list_eq, nat_eq,
}
use paymaster.Common.Results.{Result, ok, err, ◌>>=◌, and_then}
use paymaster.Common.JsMap
use paymaster.Common.JsMap.{JsMap}
use paymaster.Common.Text.{Text, text, decimal, to_lower}
use paymaster.Fault.{Fault}
use paymaster.Billing.Subscription.{Cache, invalidate}
use paymaster.Billing.Payments.{RecordPaymentRequest, Books, Recorded, record_payment}
use paymaster.Billing.Verifier
use paymaster.Billing.Verifier.{
  PaymentVerificationError, PaymentVerifierOptions, VerifiedPayment, NativeTransfer, Claim,
}
use paymaster.Admin.Keys.{ActorContext, AuditEntry, AdminState, Refused, subscription_claim, audit}

-- A plan as it is sold.
pub record SoldPlan : Type 0 where
  pub id : Text
  pub name : Text
  pub period_seconds : ℕ
  pub price_wei : JsMap ℕ ℕ

pub data ClaimFault : Type 0 where
  unknown_plan : ClaimFault
  unverified : PaymentVerificationError → ClaimFault
  unrecorded : Fault → ClaimFault
  unaudited : Refused → ClaimFault

pub record ClaimRequest : Type 0 where
  pub chain_id : ℕ
  pub tx_hash : Text
  pub plan_id : Text

pub record BillingState (W : Type 0) : Type 0 where
  pub admin : AdminState W
  pub books : Books
  pub cache : Cache

-- Two years.
abbrev pub max_claim_extension_seconds : ℕ
max_claim_extension_seconds = 63072000

unfoldable pub periods_of : SoldPlan → VerifiedPayment → ℕ
periods_of plan paid = min paid.periods (max 1 (max_claim_extension_seconds / plan.period_seconds))

unfoldable pub payment_request :
    ActorContext → SoldPlan → VerifiedPayment → ℕ → RecordPaymentRequest
unfolding periods_of
payment_request c plan paid now = record {
  tenant_id = c.write_tenant;
  plan = plan.id;
  period_seconds = plan.period_seconds * periods_of plan paid;
  amount_wei = some (decimal paid.amount_wei);
  chain_id = some paid.chain_id;
  tx_hash = some (to_lower paid.tx_hash);
  recorded_by = text "chain-verified:" ++ c.actor;
  note = some (
      text "verified on chain from "
      ++ paid.sender
      ++ text "; "
      ++ decimal (periods_of plan paid)
      ++ text " period(s) of "
      ++ plan.name);
  now = now;
}

module _ {W : Type 0} (record_entry : Option (AuditEntry → W → Result Text (Unit {0}) × W))
    (get_address : Text → Text) (options : PaymentVerifierOptions) (payment_data : Text → Text)
    (transfer_of : ℕ → Text → Result PaymentVerificationError (Option NativeTransfer))
    (head_of : ℕ → Result PaymentVerificationError ℕ) where
  abbrev pub claim_of : ClaimRequest → ActorContext → SoldPlan → Claim
  claim_of q c plan = record {
    chain_id = q.chain_id;
    tx_hash = q.tx_hash;
    payment_data = payment_data c.write_tenant;
    price_wei = plan.price_wei;
  }

  -- The entry in the audit log; the payment stands if it throws.
  claim_audited :
      Recorded
      → Result Refused (Unit {0}) × AdminState W
      → Books
      → Cache
      → Result ClaimFault Recorded × BillingState W
  claim_audited r (ok _, admin) books cache =
      (ok r, record { admin = admin; books = books; cache = cache })
  claim_audited r (err e, admin) books cache =
      (err (unaudited e), record { admin = admin; books = books; cache = cache })

  recorded :
      Text
      → ActorContext
      → BillingState W
      → Result Fault Recorded × Books
      → Result ClaimFault Recorded × BillingState W
  unfolding claim_audited audit invalidate
  recorded payment_id c s (err e, books) =
      (err (unrecorded e), record { admin = s.admin; books = books; cache = s.cache })
  recorded payment_id c s (ok r, books) =
      claim_audited r
        (audit record_entry c subscription_claim (text "payment:" ++ payment_id) s.admin) books
        (invalidate c.write_tenant s.cache)

  claim_verified :
      Text
      → ActorContext
      → SoldPlan
      → ℕ
      → BillingState W
      → Result PaymentVerificationError VerifiedPayment
      → Result ClaimFault Recorded × BillingState W
  unfolding recorded payment_request
  claim_verified payment_id c plan now s (err e) = (err (unverified e), s)
  claim_verified payment_id c plan now s (ok paid) =
      recorded payment_id c s (record_payment (payment_request c plan paid now) s.books)

  claim_sold :
      ClaimRequest
      → ActorContext
      → Text
      → ℕ
      → BillingState W
      → Option SoldPlan
      → Result ClaimFault Recorded × BillingState W
  unfolding claim_verified
  claim_sold q c payment_id now s none = (err unknown_plan, s)
  claim_sold q c payment_id now s (some plan) = claim_verified payment_id c plan now s (
      Verifier.verify get_address options (transfer_of q.chain_id q.tx_hash) (head_of q.chain_id)
        (claim_of q c plan))

  -- `claimSubscriptionPayment`
  unfoldable pub claim_payment :
      JsMap Text SoldPlan
      → ClaimRequest
      → ActorContext
      → Text
      → ℕ
      → BillingState W
      → Result ClaimFault Recorded × BillingState W
  unfolding claim_sold
  claim_payment plans q c payment_id now s =
      claim_sold q c payment_id now s (JsMap.get q.plan_id plans)
