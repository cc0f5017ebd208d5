-- ===== src/Policy/Context.antt =====
-- backend/src/policy/context.ts and policy/rule.ts: what a rule sees, says and is. A denial's
-- `reason`, text for operators, is left out.
use paymaster.Common.{ℕ, Bool, true, false, Option, none, some, List}
use paymaster.Common.Results.{Result}
use paymaster.Common.Text.{Text}
pub use paymaster.Fault.{
  PolicyDenialCode, chain_disabled, sender_not_allowed, sender_blocked, target_not_allowed,
  method_not_allowed, calldata_undecodable, quota_exceeded, spend_cap_exceeded, value_not_allowed,
  token_balance_insufficient, tenant_balance_insufficient, subscription_lapsed, rule_error,
}
use paymaster.UserOperation.{Hex, PackedUserOperation}

-- `data` of the source is `payload`.
pub record DecodedCall : Type 0 where
  pub target : Text
  pub value : ℕ
  pub selector : Option Hex
  pub payload : Hex

pub record PolicyContext : Type 0 where
  pub chain_id : ℕ
  pub sender : Text
  pub user_op : PackedUserOperation
  pub calls : Option (List DecodedCall)
  pub client_ip : Option Text
  pub api_key_id : Option Text
  pub max_cost : ℕ
  pub now : ℕ

-- `deny rule code`
pub data PolicyDecision : Type 0 where
  allow : PolicyDecision
  deny : Text → PolicyDenialCode → PolicyDecision

abbrev pub allowed : PolicyDecision → Bool
allowed allow = true
allowed (deny _ _) = false

-- A method that may throw a message. What it wrote before a throw stays written.
abbrev pub Exec : Type 0 → Type 0 → Type 0
Exec W A = W → Result Text A × W

pub data RuleCost : Type 0 where
  in_memory store network : RuleCost

unfoldable pub rule_cost_order : RuleCost → ℕ
rule_cost_order in_memory = 0
rule_cost_order store = 1
rule_cost_order network = 2

-- The `PolicyRule` interface over a world `W` that the rules read and write; a `ReservingRule` is
-- one with a `release`.
pub record PolicyRule (W : Type 0) : Type 0 where
  pub name : Text
  pub cost : RuleCost
  pub evaluate : PolicyContext → Exec W PolicyDecision
  pub release : Option (PolicyContext → Exec W (Unit {0}))

unfoldable pub is_reserving : {W : Type 0} → PolicyRule W → Bool
is_reserving r = elim r.release [ none ↦ false | some _ ↦ true ]

-- `tenant_id` is the owner; policy ids are unique per tenant.
pub record Policy (W : Type 0) : Type 0 where
  pub tenant_id : Text
  pub id : Text
  pub rules : List (PolicyRule W)
