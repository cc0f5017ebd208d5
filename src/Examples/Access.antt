-- ===== src/Examples/Access.antt =====
-- Keys, roles, plans and access lists.
use paymaster.Common.{
  ◌≡◌, ◌↔◌, refl, true, false, not, none, some, List, [], ◌∷◌, any, every, map, ltb, list_eq,
  nat_eq,
}
use paymaster.Common.Results.{ok}
use paymaster.Common.JsMap
use paymaster.Common.Text.{Text, text, to_lower}
use paymaster.Policy.Context.{DecodedCall, allow, Policy}
use paymaster.Policy.Engine.{evaluate, run_rules, evaluate_rule, settle, order_rules}
use paymaster.Policy.Ceilings.{
  Plan, PlanCatalogue, plan_for, find, capped, ceiling_rules, capped-chain,
}
use paymaster.Policy.Quota.InMemory.{Counters, in_memory_store}
use paymaster.Policy.Rules.AccessLists.{
  has, has_number, chain_enabled, in_memory_rule, target_allowlist, method_allowlist,
  no_value_transfer,
}
use paymaster.Policy.Rules.AccessLists.Decisions.{call_rules, is_listed}
use paymaster.Auth.Permissions.{
  tenant_admin, sponsor, permissions_for, grants, billing_write, platform_read, sponsor_create,
  is_platform, spends, roles_bound,
}
use paymaster.Auth.Authenticator.{
  ApiKeyRecord, authenticate, is_well_formed_api_key, principal_of, IsKeyOf, authenticate-IsKeyOf,
}
use paymaster.Examples.Policies.{idle, a_request}

roles_bound_example :
    (grants (permissions_for (tenant_admin ∷ [])) billing_write
      ≡ any is_platform (tenant_admin ∷ []))
    × (grants (permissions_for (tenant_admin ∷ [])) platform_read
        ≡ any is_platform (tenant_admin ∷ []))
    × (grants (permissions_for (tenant_admin ∷ [])) sponsor_create ≡ any spends (tenant_admin ∷ []))
roles_bound_example = roles_bound (tenant_admin ∷ [])

abbrev a_key : Text
a_key = text "pm_live_0123456789012345678901234567890123456789"

abbrev a_record : ApiKeyRecord
a_record = record {
  id = text "k1";
  tenant_id = text "acme";
  name = text "backend";
  hash = a_key;
  display_prefix = text "pm_live_0123";
  roles = sponsor ∷ [];
  policy_id = none;
  enabled = true;
  created_at = 7000;
  expires_at = some 9000;
  last_used_at = none;
}

authenticated :
    authenticate (λ k. k) (λ h. some a_record) (some a_key) 7250 ≡ ok (principal_of a_record)
unfolding authenticate is_well_formed_api_key
authenticated = refl

authenticate-IsKeyOf_example :
    (authenticate (λ k. k) (λ h. some a_record) (some a_key) 7250 ≡ ok (principal_of a_record))
    ↔ IsKeyOf (λ k. k) (λ h. some a_record) (some a_key) 7250 (principal_of a_record)
authenticate-IsKeyOf_example =
    authenticate-IsKeyOf (λ k. k) (λ h. some a_record) (some a_key) 7250 (principal_of a_record)

call_rules_example :
    ((target_allowlist (text "0xaa" ∷ []) a_request ≡ allow) ↔ (
      (calls : List DecodedCall) × (a_request.calls ≡ some calls)
      × (every (λ (call : DecodedCall). has (text "0xaa" ∷ []) call.target) calls ≡ true)))
    × ((method_allowlist (text "0x12345678" ∷ []) false a_request ≡ allow) ↔ (
        (calls : List DecodedCall) × (a_request.calls ≡ some calls)
        × (every
              (λ (call : DecodedCall).
                is_listed (map to_lower (text "0x12345678" ∷ [])) false call.selector)
              calls
            ≡ true)))
    × ((no_value_transfer a_request ≡ allow) ↔ (
        (calls : List DecodedCall) × (a_request.calls ≡ some calls)
        × (every (λ (call : DecodedCall). not (ltb 0 call.value)) calls ≡ true)))
call_rules_example = call_rules (text "0xaa" ∷ []) (text "0x12345678" ∷ []) false a_request

abbrev a_plan : Plan
a_plan = record {
  id = text "pro";
  operations_per_day = none;
  wei_per_day = none;
  chain_ids = some (10 ∷ 8453 ∷ []);
}

abbrev plans : PlanCatalogue
plans = record { plans = (text "pro", a_plan) ∷ []; default_plan_id = some (text "pro") }

abbrev empty_policy : Policy Counters
empty_policy = record { tenant_id = text "acme"; id = text "none"; rules = [] }

capped_approves :
    (evaluate (capped in_memory_store plans [] empty_policy) a_request idle).0.decision ≡ allow
unfolding evaluate run_rules evaluate_rule settle in_memory_rule chain_enabled has_number capped
    ceiling_rules plan_for find JsMap.get order_rules
capped_approves = refl

capped-chain_example : has_number (10 ∷ 8453 ∷ []) a_request.chain_id ≡ true
capped-chain_example =
    capped-chain in_memory_store plans [] empty_policy a_plan (10 ∷ 8453 ∷ []) a_request idle
      (unfold plan_for find JsMap.get in refl) refl capped_approves
