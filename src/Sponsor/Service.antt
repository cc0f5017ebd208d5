-- ===== src/Sponsor/Service.antt =====
-- backend/src/api/sponsor/sponsor.service.ts: pack, price, authorise, attest, record. Traces and the
-- textual forms of the response (`toHex`, `expiresAt`) are left out.
pub mod Stages
pub mod Compensation
pub mod Issued
pub mod Debited
use paymaster.Common.{
  ℕ, ◌+◌, ◌≡◌, Bool, true, false, Option, none, some, List, [], ◌∷◌, ◌++◌, ltb, if◌then◌else◌,
  or_default,
}
use paymaster.Common.Results.{Result, ok, err, ◌>>=◌, and_then}
use paymaster.Common.Text.{Text, text}
use paymaster.Fault.{Fault, denied, tenant_balance_insufficient, subscription_lapsed}
use paymaster.Viem.{Viem}
use paymaster.UserOperation.{Hex, PackedUserOperation}
use paymaster.Gas.{calculate_max_cost}
use paymaster.CallData.{AccountExecution, decode_call_targets}
use paymaster.Chain.Registry.{ChainConfig, ChainRegistry, chain_of}
use paymaster.Chain.Balance.{Balances}
use paymaster.Chain.Balance
use paymaster.Billing.Subscription.{
  Subscription, SubscriptionStatus, SubscriptionServiceOptions, status_of,
}
use paymaster.Billing.Subscription
use paymaster.Policy.Context.{PolicyContext, PolicyDecision, allow, deny, Policy}
use paymaster.Policy.Engine.{PolicyEvaluation, Engine, evaluate, release_reservations}
use paymaster.Policy.Source.{PolicySource, policy_of}
use paymaster.Signature.Layout.{PaymasterKind, on_chain_tenant_key}
use paymaster.Signature.Codec.{paymaster_data_offset, or_hex_error}
use paymaster.Signature.TypedData.{Contract, TypedData}
use paymaster.Signature.Engine.{
  SponsorshipRequest, SponsorshipAttestation, SponsorshipSigner, attest,
}
use paymaster.Sponsor.Request.{SponsorRequest, to_packed_user_operation}
use paymaster.Sponsor.Ports.{
  SponsorServiceOptions, CallerIdentity, Sponsorship, SponsorshipOutcome, SponsorResponse,
  SponsorServiceDeps, State, Quote, issued, was_denied, was_error,
}

module _ {W : Type 0} (d : SponsorServiceDeps W) (r : SponsorRequest)
    (caller : CallerIdentity) where
  unfoldable pub quote_of : Result Fault (Quote W)
  quote_of = do
    chain ← chain_of r.chain_id d.chains
    let policy_id = or_default r.policy_id d.options.default_policy_id
    policy ← policy_of caller.tenant_id policy_id d.policies
    user_op ← to_packed_user_operation d.viem r.user_operation
    ok (record {
      chain = chain;
      policy_id = policy_id;
      policy = policy;
      user_op = user_op;
      max_cost = calculate_max_cost d.viem.hex_to_bigint (record {
        user_op = user_op;
        paymaster_verification_gas_limit = d.options.paymaster_verification_gas_limit;
        post_op_gas_limit = d.options.post_op_gas_limit;
      });
    })

  unfoldable pub count_outcome : SponsorshipOutcome → State W → State W
  count_outcome o s = record s { outcomes = s.outcomes ++ o ∷ [] }

  -- A subscription that was read decides; one that cannot be read is thrown on.
  judge_subscription :
      State W
      → Result Fault SubscriptionStatus × Subscription.Cache
      → Result Fault (Unit {0}) × State W
  unfolding count_outcome
  judge_subscription s (err e, cache) = (err e, record s { subscriptions = cache })
  judge_subscription s (ok status, cache) =
      if status.allows_sponsorship then (ok tt, record s { subscriptions = cache }) else (
        err (denied (text "subscription") subscription_lapsed),
        count_outcome (was_denied r.chain_id) (record s { subscriptions = cache }),
      )

  unfoldable pub check_subscription_of :
      Option (SubscriptionServiceOptions × (Text → Result Fault (Option Subscription)))
      → State W
      → Result Fault (Unit {0}) × State W
  unfolding judge_subscription
  check_subscription_of none s = (ok tt, s)
  check_subscription_of (some (o, repository)) s =
      judge_subscription s (status_of repository o caller.tenant_id d.now d.now_ms s.subscriptions)

  unfoldable pub check_subscription : State W → Result Fault (Unit {0}) × State W
  unfolding check_subscription_of
  check_subscription s = check_subscription_of d.subscriptions s

  -- A balance that cannot be read lets the request go on.
  judge_balance : ℕ → State W → Result Fault ℕ × Balances → Result Fault (Unit {0}) × State W
  unfolding count_outcome
  judge_balance max_cost s (err e, cache) = (ok tt, record s { balances = cache })
  judge_balance max_cost s (ok balance, cache) =
      if ltb balance max_cost
      then (
        err (denied (text "tenantBalance") tenant_balance_insufficient),
        count_outcome (was_denied r.chain_id) (record s { balances = cache }),
      )
      else (ok tt, record s { balances = cache })

  unfoldable pub check_balance_of :
      PaymasterKind
      → Option (ℕ × (ℕ → Text → Result Fault ℕ))
      → ℕ
      → State W
      → Result Fault (Unit {0}) × State W
  unfolding judge_balance
  check_balance_of PaymasterKind.verifying reader max_cost s = (ok tt, s)
  check_balance_of PaymasterKind.tenant none max_cost s = (ok tt, s)
  check_balance_of PaymasterKind.tenant (some (ttl, read)) max_cost s =
      judge_balance max_cost s
        (Balance.balance_of read ttl d.now_ms r.chain_id caller.tenant_id s.balances)

  unfoldable pub check_balance : Quote W → State W → Result Fault (Unit {0}) × State W
  unfolding check_balance_of
  check_balance q s = check_balance_of q.chain.paymaster_kind d.tenant_balances q.max_cost s

  unfoldable pub context_of : Quote W → PolicyContext
  context_of q = record {
    chain_id = r.chain_id;
    sender = r.user_operation.sender;
    user_op = q.user_op;
    calls = decode_call_targets d.viem d.decode_function_data r.user_operation.call_data;
    client_ip = caller.client_ip;
    api_key_id = caller.api_key_id;
    max_cost = q.max_cost;
    now = d.now;
  }

  judge_policy : PolicyDecision → State W → Result Fault (Unit {0}) × State W
  unfolding count_outcome
  judge_policy allow s = (ok tt, s)
  judge_policy (deny name code) s =
      (err (denied name code), count_outcome (was_denied r.chain_id) s)

  unfoldable pub check_policy : Quote W → State W → Result Fault (Unit {0}) × State W
  unfolding judge_policy context_of
  check_policy q s =
      let (evaluation, engine) = evaluate q.policy (context_of q) s.engine in
      judge_policy evaluation.decision (record s { engine = engine })

  unfoldable pub contract_of : PaymasterKind → Contract
  contract_of PaymasterKind.verifying = Contract.verifying
  contract_of PaymasterKind.tenant =
      Contract.tenant (on_chain_tenant_key d.viem.keccak256 d.to_hex caller.tenant_id)

  unfoldable pub attestation_request : Quote W → SponsorshipRequest
  unfolding contract_of
  attestation_request q = record {
    user_op = q.user_op;
    chain_id = r.chain_id;
    paymaster = q.chain.paymaster;
    paymaster_verification_gas_limit = d.options.paymaster_verification_gas_limit;
    post_op_gas_limit = d.options.post_op_gas_limit;
    valid_until = d.now + d.options.validity_seconds;
    valid_after = 0;
    contract = contract_of q.chain.paymaster_kind;
  }

  unfoldable pub row_of : Quote W → SponsorshipAttestation → Sponsorship
  row_of q a = record {
    chain_id = r.chain_id;
    sender = r.user_operation.sender;
    nonce = r.user_operation.nonce;
    paymaster = q.chain.paymaster;
    entry_point = q.chain.entry_point;
    tenant_id = caller.tenant_id;
    api_key_id = or_default caller.api_key_id (text "anonymous");
    policy_id = q.policy_id;
    signer = a.signer;
    max_cost_wei = q.max_cost;
    valid_after = a.valid_after;
    valid_until = a.valid_until;
  }

  unfoldable pub response_of : Quote W → SponsorshipAttestation → Hex → SponsorResponse
  response_of q a paymaster_data = record {
    paymaster = q.chain.paymaster;
    paymaster_verification_gas_limit = d.options.paymaster_verification_gas_limit;
    paymaster_post_op_gas_limit = d.options.post_op_gas_limit;
    paymaster_data = paymaster_data;
    paymaster_and_data = a.paymaster_and_data;
    valid_until = a.valid_until;
    valid_after = a.valid_after;
    chain_id = r.chain_id;
    policy_id = q.policy_id;
    signer = a.signer;
    max_cost = q.max_cost;
    entry_point = q.chain.entry_point;
  }

  recorded_row : Sponsorship → Result Fault (Unit {0}) → State W → Result Fault (Unit {0}) × State W
  recorded_row row (err e) s = (err e, s)
  recorded_row row (ok _) s = (ok tt, record s { recorded = s.recorded ++ row ∷ [] })

  -- Without a recorder there is no audit trail.
  record_with :
      Option (Sponsorship → Result Fault (Unit {0}))
      → Sponsorship
      → State W
      → Result Fault (Unit {0}) × State W
  unfolding recorded_row
  record_with none row s = (ok tt, s)
  record_with (some port) row s = recorded_row row (port row) s

  -- Behind the attestation: the cached balance goes, the row is written, the outcome is counted, and
  -- the response is cut from the bytes.
  unfoldable pub hand_out :
      Quote W → SponsorshipAttestation → State W → Result Fault SponsorResponse × State W
  unfolding row_of response_of record_with count_outcome
  hand_out q a s =
      let fresh = record s {
        balances = Balance.invalidate r.chain_id caller.tenant_id s.balances;
      } in
      and_then (record_with d.sponsorships (row_of q a) fresh) (λ _ written. (
        or_hex_error (d.viem.slice_from a.paymaster_and_data paymaster_data_offset) >>= λ data_part.
            ok (response_of q a data_part),
        count_outcome (issued r.chain_id q.max_cost) written,
      ))

  -- The body of the `try`.
  unfoldable pub issue : Quote W → State W → Result Fault SponsorResponse × State W
  unfolding attestation_request hand_out
  issue q s =
      and_then (attest d.viem d.hash_typed_data d.signer (attestation_request q), s) (hand_out q)

  -- The `catch`.
  unfoldable pub compensate :
      Quote W → Result Fault SponsorResponse × State W → Result Fault SponsorResponse × State W
  unfolding count_outcome context_of
  compensate q (ok response, s) = (ok response, s)
  compensate q (err e, s) = (
    err e,
    count_outcome (was_error r.chain_id)
        (record s { engine = release_reservations q.policy (context_of q) s.engine }),
  )

  unfoldable pub authorised : Quote W → State W → Result Fault SponsorResponse × State W
  unfolding check_subscription check_balance check_policy compensate issue
  authorised q s = and_then (check_subscription s) (λ _ s₁.
      and_then (check_balance q s₁)
        (λ _ s₂. and_then (check_policy q s₂) (λ _ s₃. compensate q (issue q s₃))))

  unfoldable pub sponsor : State W → Result Fault SponsorResponse × State W
  unfolding quote_of authorised
  sponsor s = and_then (quote_of, s) authorised
