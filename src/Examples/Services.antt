-- ===== src/Examples/Services.antt =====
-- The service on a multi-tenant chain: one request that is issued, and one that is not recorded.
use paymaster.Common.{
  ◌≡◌, refl, ap, sym, subst, ◌∙◌, true, false, Option, none, some, [], ◌∷◌, ◌++◌, nat_eq, list_eq,
}
use paymaster.Common.Results.{Result, ok, err}
use paymaster.Common.JsMap
use paymaster.Common.Text.{Text, text, decimal, to_lower}
use paymaster.Fault.{Fault, failed}
use paymaster.UserOperation.{pack_uint128_pair}
use paymaster.Gas.{calculate_max_cost}
use paymaster.CallData.{decode_call_targets}
use paymaster.Billing.Subscription.{Subscription, status_of, describe}
use paymaster.Chain.Balance
use paymaster.Policy.Context.{Policy, rule_cost_order, is_reserving}
use paymaster.Policy.Engine.{evaluate, release_reservations}
use paymaster.Policy.Engine.Compensation.{AllCompensate}
use paymaster.Policy.Source.{policy_of}
use paymaster.Policy.Quota.InMemory.{Counters, in_memory_laws, in_memory_store, release}
use paymaster.Policy.Quota.Window.{windowed_key, window_start}
use paymaster.Policy.Rules.AccessLists.{in_memory_rule, sender_blocklist, has, has_text}
use paymaster.Policy.Rules.QuotaRule.{
  quota_rule, key_for, key_on, key_prefix, amount_for, amount_in,
}
use paymaster.Signature.Layout.{PaymasterKind, on_chain_tenant_key}
use paymaster.Signature.Codec.{encode_paymaster_and_data, encode_head}
use paymaster.Signature.TypedData.{sponsorship_digest, paymaster_gas_limits_from}
use paymaster.Signature.Engine.{attest}
use paymaster.Chain.Registry.{ChainConfig, chain_of}
use paymaster.Sponsor.Request.{SponsorRequest, to_packed_user_operation}
use paymaster.Sponsor.Ports.{
  SponsorServiceDeps, CallerIdentity, State, SponsorResponse, Sponsorship, Quote,
}
use paymaster.Sponsor.Service.{sponsor, quote_of, context_of}
use paymaster.Sponsor.Service.Compensation.{sponsor_restores}
use paymaster.Sponsor.Service.Issued.{Grounds, issued_lem}
use paymaster.Examples.Bytes.{byte_lists, bytes, flatten, bytes_of, value_of}
use paymaster.Examples.Policies.{open_policy, idle, open-compensates}
use paymaster.Examples.Signatures.{signs_all, some_hash, number}
use paymaster.Examples.Sponsorships.{an_op, one_loaded}

abbrev a_chain : ChainConfig
a_chain = record {
  chain_id = 8453;
  entry_point = bytes 2 20;
  paymaster = bytes 7 20;
  paymaster_kind = PaymasterKind.tenant;
  enabled = true;
}

abbrev subscribed : Text → Result Fault (Option Subscription)
subscribed t =
    ok (some (record { tenant_id = t; plan = text "pro"; paid_through = 9000; grace_seconds = 0 }))

abbrev deps : (Sponsorship → Result Fault (Unit {0})) → SponsorServiceDeps Counters
deps record_row = record {
  chains = (8453, a_chain) ∷ [];
  policies = one_loaded;
  options = record {
    validity_seconds = 300;
    paymaster_verification_gas_limit = 300000;
    post_op_gas_limit = 40000;
    default_policy_id = text "open";
  };
  subscriptions =
      some
        (record { unsubscribed_allows = false; ttl_ms = 30000; notice_seconds = 50 }, subscribed);
  tenant_balances = some (3000, λ chain_id tenant. ok 100000000);
  sponsorships = some record_row;
  signer = signs_all;
  viem = byte_lists;
  hash_typed_data = some_hash;
  to_hex = λ t. bytes 9 32;
  decode_function_data = λ h. none;
  now = 7250;
  now_ms = 7250000;
}

abbrev a_request : SponsorRequest
a_request = record { chain_id = 8453; user_operation = an_op; policy_id = none }

abbrev a_caller : CallerIdentity
a_caller = record { tenant_id = text "acme"; client_ip = none; api_key_id = some (text "k1") }

abbrev start : State Counters
start = record { engine = idle; subscriptions = []; balances = []; recorded = []; outcomes = [] }

abbrev records_all : Sponsorship → Result Fault (Unit {0})
records_all row = ok tt

abbrev records_none : Sponsorship → Result Fault (Unit {0})
records_none row = err (failed (text "database down"))

both {ℓ κ} : {A : Type ℓ} {B : Type κ} (x : A × B) {a : A} → x.0 ≡ a → x ≡ (a, x.1)
both (a, b) e = λ i. (e i, b)

abbrev result :
    (Sponsorship → Result Fault (Unit {0})) → Result Fault SponsorResponse × State Counters
result record_row = sponsor (deps record_row) a_request a_caller start

refused : (result records_none).0 ≡ err (failed (text "database down"))
unfolding sponsor chain_of JsMap.get JsMap.put JsMap.delete policy_of to_packed_user_operation
    pack_uint128_pair bytes_of status_of describe Balance.balance_of Balance.invalidate
    calculate_max_cost value_of evaluate rule_cost_order quota_rule in_memory_rule sender_blocklist
    has has_text to_lower is_reserving key_for key_on key_prefix amount_for amount_in
    in_memory_store windowed_key window_start decimal attest encode_paymaster_and_data encode_head
    flatten sponsorship_digest paymaster_gas_limits_from decode_call_targets on_chain_tenant_key
    release_reservations release
refused = refl

policy_in : Result Fault (Quote Counters) → Policy Counters
policy_in (ok q) = q.policy
policy_in (err e) = open_policy

found_policy : policy_in (quote_of (deps records_none) a_request a_caller) ≡ open_policy
unfolding policy_in quote_of chain_of JsMap.get policy_of to_packed_user_operation pack_uint128_pair
    bytes_of
found_policy = refl

compensating :
    (q : Quote Counters)
    → quote_of (deps records_none) a_request a_caller ≡ ok q
    → AllCompensate in_memory_laws.count
        (context_of (deps records_none) a_request a_caller q)
        q.policy.rules
unfolding policy_in
compensating q e =
    let c = context_of (deps records_none) a_request a_caller q in
    subst (λ (p : Policy Counters). AllCompensate in_memory_laws.count c p.rules)
      (sym found_policy ∙ ap policy_in e) (open-compensates c)

sponsor_restores_example :
    in_memory_laws.count (result records_none).1.engine.world (text "quota:acme/daily:k1:86400:0")
    ≡ in_memory_laws.count start.engine.world (text "quota:acme/daily:k1:86400:0")
sponsor_restores_example =
    sponsor_restores in_memory_laws.count (deps records_none) a_request a_caller
      (text "quota:acme/daily:k1:86400:0") start (result records_none).1
      (failed (text "database down")) compensating (both (result records_none) refused)

abbrev a_response : SponsorResponse
a_response = record {
  paymaster = bytes 7 20;
  paymaster_verification_gas_limit = 300000;
  paymaster_post_op_gas_limit = 40000;
  paymaster_data = number 7550 6 ++ (number 0 6 ++ (bytes 9 32 ++ bytes 1 65));
  paymaster_and_data =
      bytes 7 20
      ++ (number 300000 16
          ++ (number 40000 16 ++ (number 7550 6 ++ (number 0 6 ++ (bytes 9 32 ++ bytes 1 65)))));
  valid_until = 7550;
  valid_after = 0;
  chain_id = 8453;
  policy_id = text "open";
  signer = bytes 5 20;
  max_cost = 4830000;
  entry_point = bytes 2 20;
}

issues : (result records_all).0 ≡ ok a_response
unfolding sponsor chain_of JsMap.get JsMap.put JsMap.delete policy_of to_packed_user_operation
    pack_uint128_pair bytes_of status_of describe Balance.balance_of Balance.invalidate
    calculate_max_cost value_of evaluate rule_cost_order quota_rule in_memory_rule sender_blocklist
    has has_text to_lower is_reserving key_for key_on key_prefix amount_for amount_in
    in_memory_store windowed_key window_start decimal attest encode_paymaster_and_data encode_head
    flatten sponsorship_digest paymaster_gas_limits_from decode_call_targets on_chain_tenant_key
    release_reservations release
issues = refl

issued_lem_example :
    Grounds (deps records_all) a_request a_caller start (result records_all).1 a_response
issued_lem_example =
    issued_lem (deps records_all) a_request a_caller start (result records_all).1 a_response
      (both (result records_all) issues)
