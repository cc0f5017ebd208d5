-- ===== src/Examples/Policies.antt =====
-- A policy with a quota, an access list and a rule that refuses, over the in-memory store.
use paymaster.Common.{ℕ, ◌≡◌, ◌≢◌, ◌↔◌, refl, ap, ◌∙◌, none, some, [], ◌∷◌, ◌++◌}
use paymaster.Common.Results.{Result, ok}
use paymaster.Common.JsMap
use paymaster.Common.Text.{Text, text, decimal, to_lower}
use paymaster.Policy.Context.{
  PolicyContext, allow, PolicyRule, Policy, in_memory, store, network, is_reserving,
  rule_cost_order,
}
use paymaster.Policy.Engine.{
  Engine, evaluate, order_rules, run_rules, evaluate_rule, settle, release_reservations,
}
use paymaster.Policy.Engine.Order.{tier, order_rules-tiers}
use paymaster.Policy.Engine.Decision.{Passes, approved_iff}
use paymaster.Policy.Engine.Compensation.{AllCompensate, denied_restores}
use paymaster.Policy.Engine.Refund.{release_undoes_approval}
use paymaster.Policy.Quota.Window.{windowed_key, window_start}
use paymaster.Policy.Quota.InMemory.{Counters, in_memory_store, in_memory_laws, try_consume}
use paymaster.Policy.Rules.AccessLists.{in_memory_rule, sender_blocklist, has, has_text}
use paymaster.Policy.Rules.TokenOwnership.{
  TokenOwnershipConfig, token_ownership_rule, token_ownership, token_for,
}
use paymaster.Policy.Rules.QuotaRule.{
  quota_rule, key_for, key_on, key_prefix, amount_for, amount_in, ceil_div_gwei, evaluate_on,
}
use paymaster.Policy.Rules.QuotaRule
use paymaster.Policy.Rules.QuotaRule.Budget.{quota_rule-Compensates}
use paymaster.Policy.Rules.ReadOnly.{in_memory_rule-Compensates, token_ownership_rule-Compensates}
use paymaster.Examples.Quotas.{daily_rule, request_of}

abbrev no_balance : ℕ → Text → Text → Result Text ℕ
no_balance chain_id token sender = ok 0

abbrev a_token : TokenOwnershipConfig
a_token = record { token = some (text "0x70"); token_by_chain = []; min_balance = none }

abbrev pub blocks_others : PolicyRule Counters
blocks_others = in_memory_rule (text "sender-blocklist") (sender_blocklist (text "0xdef" ∷ []))

abbrev pub caps_spend : PolicyRule Counters
caps_spend = quota_rule in_memory_store daily_rule

abbrev needs_token : PolicyRule Counters
needs_token = token_ownership_rule no_balance a_token

-- The cap comes before the balance, so it is charged and has to be given back.
abbrev strict : Policy Counters
strict = record {
  tenant_id = text "acme";
  id = text "strict";
  rules = needs_token ∷ caps_spend ∷ blocks_others ∷ [];
}

abbrev pub open_policy : Policy Counters
open_policy = record {
  tenant_id = text "acme";
  id = text "open";
  rules = caps_spend ∷ blocks_others ∷ [];
}

abbrev pub idle : Engine Counters
idle = record { world = []; observed = [] }

abbrev pub a_request : PolicyContext
a_request = request_of 1500000000

abbrev a_slot : Text
a_slot = text "quota:acme/daily:k1:86400:0"

pub open-compensates : (c : PolicyContext) → AllCompensate in_memory_laws.count c open_policy.rules
open-compensates c = (
  quota_rule-Compensates in_memory_laws daily_rule c,
  (in_memory_rule-Compensates in_memory_laws.count c _ _, tt),
)

strict-compensates : (c : PolicyContext) → AllCompensate in_memory_laws.count c strict.rules
strict-compensates c = (
  token_ownership_rule-Compensates in_memory_laws.count c no_balance a_token,
  (
    quota_rule-Compensates in_memory_laws daily_rule c,
    (in_memory_rule-Compensates in_memory_laws.count c _ _, tt),
  ),
)

order_rules-tiers_example :
    order_rules strict.rules
    ≡ tier in_memory strict.rules ++ (tier store strict.rules ++ tier network strict.rules)
order_rules-tiers_example = order_rules-tiers strict.rules

sorted_rules : order_rules strict.rules ≡ blocks_others ∷ caps_spend ∷ needs_token ∷ []
sorted_rules =
    order_rules-tiers strict.rules
    ∙ (unfold in_memory_rule quota_rule token_ownership_rule rule_cost_order in refl)

refused : (evaluate strict a_request idle).0.decision ≢ allow
unfolding evaluate run_rules evaluate_rule settle in_memory_rule quota_rule token_ownership_rule
    sender_blocklist has has_text to_lower QuotaRule.evaluate evaluate_on key_for key_on key_prefix
    amount_for amount_in in_memory_store try_consume windowed_key window_start decimal JsMap.get
    JsMap.put token_ownership token_for is_reserving
refused e = cc (e, sorted_rules)

denied_restores_example :
    in_memory_laws.count (evaluate strict a_request idle).1.world a_slot
    ≡ in_memory_laws.count idle.world a_slot
denied_restores_example =
    denied_restores in_memory_laws.count a_request strict idle a_slot (strict-compensates a_request)
      refused

approved_iff_example :
    ((evaluate open_policy a_request idle).0.decision ≡ allow)
    ↔ ((u : Counters) × Passes a_request (order_rules open_policy.rules) idle.world u)
approved_iff_example = approved_iff a_request open_policy idle

open-sorted : order_rules open_policy.rules ≡ blocks_others ∷ caps_spend ∷ []
open-sorted =
    order_rules-tiers open_policy.rules
    ∙ (unfold in_memory_rule quota_rule token_ownership_rule rule_cost_order in refl)

pub approved : (evaluate open_policy a_request idle).0.decision ≡ allow
unfolding evaluate run_rules evaluate_rule settle in_memory_rule quota_rule sender_blocklist has
    has_text to_lower QuotaRule.evaluate evaluate_on key_for key_on key_prefix amount_for amount_in
    in_memory_store try_consume windowed_key window_start decimal JsMap.get JsMap.put is_reserving
approved = rw (ap (λ rs. (run_rules rs a_request [] [] []).decision) open-sorted) refl

release_undoes_approval_example :
    in_memory_laws.count
      (release_reservations open_policy a_request (evaluate open_policy a_request idle).1).world
      a_slot
    ≡ in_memory_laws.count idle.world a_slot
release_undoes_approval_example =
    release_undoes_approval in_memory_laws.count a_request open_policy idle a_slot
      (open-compensates a_request) approved
