-- ===== src/Examples/Quotas.antt =====
-- Quota rules over the in-memory store.
use paymaster.Common.{
  ℕ, ◌+◌, ◌-◌, ◌*◌, ◌≤◌, ◌<◌, ◌≡◌, refl, some, none, List, [], ◌∷◌, arith, if◌then◌else◌, ◌==◌,
  list_eq, nat_eq,
}
use paymaster.Common.Results.{ok}
use paymaster.Common.JsMap
use paymaster.Common.Text.{Text, text, decimal}
use paymaster.UserOperation.{PackedUserOperation}
use paymaster.Policy.Context.{PolicyContext}
use paymaster.Policy.Quota.Window.{windowed_key, window_start}
use paymaster.Policy.Quota.InMemory.{
  in_memory_store, in_memory_laws, count, try_consume, release, refund_of, consume-release,
}
use paymaster.Policy.Quota.Store.{QuotaConsumeParams, consume_slot}
use paymaster.Policy.Rules.QuotaRule.{
  QuotaRule, QuotaRuleOptions, SpendTrueUp, api_key, wei, refuse, new_quota_rule, counted_limit_of,
  key_for, key_on, key_prefix, subject_fields, evaluate, true_up, evaluate_on, ceil_div_gwei,
  wei_per_gwei, amount_for, amount_in,
}
use paymaster.Policy.Rules.QuotaRule.Budget.{slot_of}
use paymaster.Policy.Rules.QuotaRule.Spend.{approved_cost, spend_cap_holds, true_up-evaluate}
use paymaster.Policy.Rules.QuotaRule.Keys.{IsTenantName, tenants_apart, default_tenant_meets}

abbrev pub an_operation : PackedUserOperation
an_operation = record {
  sender = text "0xabc";
  nonce = 7;
  init_code = [];
  call_data = [];
  account_gas_limits = [];
  pre_verification_gas = 0;
  gas_fees = [];
  paymaster_and_data = [];
  signature = [];
}

-- A request that may cost `cost` wei.
abbrev pub request_of : ℕ → PolicyContext
request_of cost = record {
  chain_id = 8453;
  sender = text "0xabc";
  user_op = an_operation;
  calls = some [];
  client_ip = none;
  api_key_id = some (text "k1");
  max_cost = cost;
  now = 7250;
}

abbrev pub daily_cap : QuotaRuleOptions
daily_cap = record {
  name = text "daily";
  subject = api_key;
  unit = wei;
  limit = 5000000000;
  window_seconds = 86400;
  on_missing_subject = none;
  namespace = some (text "acme");
}

abbrev pub daily_rule : QuotaRule
daily_rule = record {
  name = text "daily";
  subject = api_key;
  unit = wei;
  window_seconds = 86400;
  on_missing_subject = refuse;
  namespace = text "acme";
  counted_limit = 5;
}

abbrev daily_key : Text
daily_key = text "quota:acme/daily:k1"

abbrev daily_slot : Text
daily_slot = text "quota:acme/daily:k1:86400:0"

-- Two requests fit and the third does not.
abbrev three_requests : List PolicyContext
three_requests = request_of 1500000000 ∷ request_of 3000000000 ∷ request_of 1 ∷ []

spend_cap_holds_example :
    approved_cost in_memory_laws daily_rule daily_slot three_requests [] ≤ 5000000000
spend_cap_holds_example =
    spend_cap_holds in_memory_laws daily_cap daily_rule daily_slot three_requests [] refl
      (unfold new_quota_rule counted_limit_of in refl)
      (unfold in_memory_laws count JsMap.get in refl)

approved_two : approved_cost in_memory_laws daily_rule daily_slot three_requests [] ≡ 4500000000
unfolding approved_cost evaluate evaluate_on in_memory_store try_consume windowed_key window_start
    count key_for key_on key_prefix amount_for amount_in JsMap.get JsMap.put decimal in_memory_laws
approved_two = refl

abbrev a_true_up : SpendTrueUp
a_true_up = record {
  chain_id = 8453;
  sender = text "0xabc";
  api_key_id = some (text "k1");
  reserved_max_cost_wei = 1500000000;
  actual_cost_wei = 700000000;
  reserved_at = 7250;
}

true_up-evaluate_example :
    (in_memory_laws.count
        (true_up in_memory_store daily_rule a_true_up
          (evaluate in_memory_store daily_rule (request_of 1500000000) []).1).1
        daily_slot
      ≡ in_memory_laws.count [] daily_slot
        + (if slot_of daily_rule daily_key 7250 == daily_slot then ceil_div_gwei 700000000 else 0))
    × ((true_up in_memory_store daily_rule a_true_up
          (evaluate in_memory_store daily_rule (request_of 1500000000) []).1).0
        ≡ ok ((ceil_div_gwei 1500000000 - ceil_div_gwei 700000000) * wei_per_gwei))
true_up-evaluate_example =
    true_up-evaluate in_memory_laws daily_rule (request_of 1500000000) a_true_up daily_key []
      daily_slot refl (unfold key_for key_on key_prefix in refl)
      (unfold key_for key_on key_prefix in refl) refl refl (omega arith)
      (unfold evaluate evaluate_on in_memory_store try_consume key_for key_on key_prefix amount_for
          amount_in JsMap.get count windowed_key window_start decimal in
        refl)

acme : IsTenantName (text "acme")
acme = record { not_empty = λ e. cc; no_slash = (λ e. cc, (λ e. cc, (λ e. cc, (λ e. cc, tt)))) }

tenants_apart_example : text "acme" ≡ text "acme"
tenants_apart_example =
    tenants_apart daily_rule daily_rule (subject_fields (request_of 1))
      (subject_fields (request_of 2)) daily_key acme acme (unfold key_for key_on key_prefix in refl)
      (unfold key_for key_on key_prefix in refl)

default_tenant_meets_example :
    key_for
      (record daily_rule { namespace = []; name = text "acme/daily" })
      (subject_fields (request_of 1))
    ≡ key_for
        (record daily_rule { namespace = text "acme"; name = text "daily" })
        (subject_fields (request_of 1))
default_tenant_meets_example =
    default_tenant_meets daily_rule b'a' (text "cme") (text "daily") (subject_fields (request_of 1))

abbrev one_of_two : QuotaConsumeParams
one_of_two = record {
  key = text "quota:daily";
  amount = 1;
  limit = 2;
  window_seconds = 3600;
  now = 7250;
}

consume-release_example :
    (count [] (consume_slot one_of_two) ≤ 2
      → count (try_consume one_of_two []).1 (consume_slot one_of_two) ≤ 2)
    × (2 < count [] (consume_slot one_of_two) + 1 → (try_consume one_of_two []).1 ≡ [])
    × (count [] (consume_slot one_of_two) + 1 ≤ 2
        → count (release (refund_of one_of_two) (try_consume one_of_two []).1).1 (text "other")
          ≡ count [] (text "other"))
consume-release_example = consume-release one_of_two [] (text "other")
