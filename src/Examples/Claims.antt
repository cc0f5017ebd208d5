-- ===== src/Examples/Claims.antt =====
-- A customer's claim of a payment.
use paymaster.Common.{refl, true, none, some, [], ◌∷◌, list_eq, nat_eq}
use paymaster.Common.Results.{Result, ok}
use paymaster.Common.JsMap
use paymaster.Common.Text.{text, to_lower, decimal}
use paymaster.Auth.Scope.{tenant_scope}
use paymaster.Auth.ApiKeys.{no_keys}
use paymaster.Billing.Subscription.{invalidate}
use paymaster.Billing.Payments.{
  Recorded, record_payment, is_recorded, upserted, payment_of, meets_checks, paid_through_of,
}
use paymaster.Billing.Verifier.{NativeTransfer, PaymentVerifierOptions, verify}
use paymaster.Admin.Keys.{ActorContext}
use paymaster.Admin.Payments.{
  SoldPlan, ClaimFault, ClaimRequest, BillingState, claim_payment, payment_request, periods_of,
}
use paymaster.Admin.Payments.Claimed.{IsClaimed, claim_payment-IsClaimed}

abbrev treasury_rules : PaymentVerifierOptions
treasury_rules = record {
  treasury = text "0xTreasury";
  confirmations = 5;
  max_periods_per_payment = 12;
}

abbrev on_chain_transfer : NativeTransfer
on_chain_transfer = record {
  success = true;
  recipient = some (text "0xTreasury");
  sender = text "0xabc";
  input = text "acme";
  value_wei = 2500;
  block_number = 90;
}

abbrev customer : ActorContext
customer = record {
  actor = text "alice";
  client_ip = none;
  scope = tenant_scope (text "acme");
  write_tenant = text "acme";
  permissions = [];
}

abbrev monthly : SoldPlan
monthly = record {
  id = text "pro";
  name = text "Pro";
  period_seconds = 100;
  price_wei = (8453, 1000) ∷ [];
}

abbrev a_request_to_claim : ClaimRequest
a_request_to_claim = record { chain_id = 8453; tx_hash = text "0xAA"; plan_id = text "pro" }

abbrev before_claim : BillingState (Unit {0})
before_claim = record {
  admin = record { keys = no_keys; log = tt };
  books = record { subscriptions = []; payments = [] };
  cache = [];
}

abbrev run_claim : Result ClaimFault Recorded × BillingState (Unit {0})
run_claim =
    claim_payment none (λ a. a) treasury_rules (λ t. t) (λ chain hash. ok (some on_chain_transfer))
      (λ chain. ok 100) ((text "pro", monthly) ∷ []) a_request_to_claim customer (text "1") 1000
      before_claim

abbrev credited : Recorded
credited = record {
  subscription = record {
    tenant_id = text "acme";
    plan = text "pro";
    paid_through = 1200;
    grace_seconds = 259200;
  };
  payment = record {
    tenant_id = text "acme";
    amount_wei = some (text "2500");
    chain_id = some 8453;
    tx_hash = some (text "0xaa");
    extended_from = 1000;
    extended_to = 1200;
    recorded_by = text "chain-verified:alice";
    note = some (text "verified on chain from 0xabc; 2 period(s) of Pro");
  };
}

claim_payment-IsClaimed_example :
    IsClaimed {W = Unit {0}} none
      (λ a. a)
      treasury_rules
      (λ t. t)
      (λ chain hash. ok (some on_chain_transfer))
      (λ chain. ok 100)
      ((text "pro", monthly) ∷ [])
      a_request_to_claim
      customer
      1000
      before_claim.books
      run_claim.1.books
claim_payment-IsClaimed_example =
    claim_payment-IsClaimed none (λ a. a) treasury_rules (λ t. t)
      (λ chain hash. ok (some on_chain_transfer)) (λ chain. ok 100) ((text "pro", monthly) ∷ [])
      a_request_to_claim customer (text "1") 1000 before_claim credited
      (unfold claim_payment verify record_payment payment_request periods_of is_recorded upserted
          payment_of meets_checks paid_through_of to_lower decimal invalidate JsMap.get JsMap.put in
        refl)
