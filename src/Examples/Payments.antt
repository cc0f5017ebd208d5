-- ===== src/Examples/Payments.antt =====
-- Payments for a subscription, claimed and recorded.
use paymaster.Common.{ℕ, ◌≡◌, refl, true, Option, none, some, [], ◌∷◌, list_eq, nat_eq}
use paymaster.Common.Results.{Result, ok}
use paymaster.Common.JsMap
use paymaster.Common.Text.{Text, text, to_lower}
use paymaster.Fault.{Fault}
use paymaster.Billing.Subscription.{Subscription}
use paymaster.Billing.Payments.{RecordPaymentRequest, Books}
use paymaster.Billing.Verifier.{
  NativeTransfer, Claim, PaymentVerifierOptions, VerifiedPayment, PaymentVerificationError, verify,
  IsPaid, verify-IsPaid,
}

abbrev a_payment : RecordPaymentRequest
a_payment = record {
  tenant_id = text "acme";
  plan = text "pro";
  period_seconds = 100;
  amount_wei = some (text "5000");
  chain_id = some 8453;
  tx_hash = some (text "0xaa");
  recorded_by = text "acme";
  note = none;
  now = 1000;
}

abbrev no_books : Books
no_books = record { subscriptions = []; payments = [] }

abbrev a_transfer : NativeTransfer
a_transfer = record {
  success = true;
  recipient = some (text "0xTreasury");
  sender = text "0xabc";
  input = text "0xKEY";
  value_wei = 2500;
  block_number = 90;
}

abbrev verifier : PaymentVerifierOptions
verifier = record { treasury = text "0xTreasury"; confirmations = 5; max_periods_per_payment = 12 }

abbrev a_claim : Claim
a_claim = record {
  chain_id = 8453;
  tx_hash = text "0xaa";
  payment_data = text "0xkey";
  price_wei = (8453, 1000) ∷ [];
}

abbrev a_paid : VerifiedPayment
a_paid = record {
  chain_id = 8453;
  tx_hash = text "0xaa";
  sender = text "0xabc";
  amount_wei = 2500;
  periods = 2;
}

verify-IsPaid_example :
    (transfer : NativeTransfer) × (price : ℕ) × (head : ℕ) × (◌≡◌
      {A = Result PaymentVerificationError (Option NativeTransfer)}
      (ok (some a_transfer))
      (ok (some transfer)))
    × (◌≡◌ {A = Result PaymentVerificationError ℕ} (ok 100) (ok head))
    × IsPaid (λ a. a) verifier a_claim transfer price head a_paid
verify-IsPaid_example =
    verify-IsPaid (λ a. a) verifier (ok (some a_transfer)) (ok 100) a_claim a_paid
      (unfold verify to_lower JsMap.get in refl)
