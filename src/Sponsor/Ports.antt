-- ===== src/Sponsor/Ports.antt =====
-- backend/src/api/sponsor/sponsor.service.ts and backend/src/api/dto/sponsorResponse.ts: what the
-- service is given, keeps and answers, without the textual forms of the response (`toHex`,
-- `expiresAt`).
use paymaster.Common.{ℕ, Option, List}
use paymaster.Common.Results.{Result}
use paymaster.Common.Text.{Text}
use paymaster.Fault.{Fault}
use paymaster.Viem.{Viem}
use paymaster.UserOperation.{Hex, PackedUserOperation}
use paymaster.CallData.{AccountExecution}
use paymaster.Chain.Registry.{ChainConfig, ChainRegistry}
use paymaster.Chain.Balance.{Balances}
use paymaster.Billing.Subscription.{
  Subscription, SubscriptionStatus, SubscriptionServiceOptions, status_of,
}
use paymaster.Billing.Subscription
use paymaster.Policy.Context.{Policy}
use paymaster.Policy.Engine.{Engine}
use paymaster.Policy.Source.{PolicySource}
use paymaster.Signature.TypedData.{TypedData}
use paymaster.Signature.Engine.{SponsorshipSigner}

pub record SponsorServiceOptions : Type 0 where
  pub validity_seconds : ℕ
  pub paymaster_verification_gas_limit : ℕ
  pub post_op_gas_limit : ℕ
  pub default_policy_id : Text

pub record CallerIdentity : Type 0 where
  pub tenant_id : Text
  pub client_ip : Option Text
  pub api_key_id : Option Text

-- The row of the audit trail.
pub record Sponsorship : Type 0 where
  pub chain_id : ℕ
  pub sender : Text
  pub nonce : ℕ
  pub paymaster : Text
  pub entry_point : Text
  pub tenant_id : Text
  pub api_key_id : Text
  pub policy_id : Text
  pub signer : Text
  pub max_cost_wei : ℕ
  pub valid_after : ℕ
  pub valid_until : ℕ

pub data SponsorshipOutcome : Type 0 where
  issued : ℕ → ℕ → SponsorshipOutcome
  was_denied was_error : ℕ → SponsorshipOutcome

pub record SponsorResponse : Type 0 where
  pub paymaster : Text
  pub paymaster_verification_gas_limit : ℕ
  pub paymaster_post_op_gas_limit : ℕ
  pub paymaster_data : Hex
  pub paymaster_and_data : Hex
  pub valid_until : ℕ
  pub valid_after : ℕ
  pub chain_id : ℕ
  pub policy_id : Text
  pub signer : Text
  pub max_cost : ℕ
  pub entry_point : Text

-- What a sponsorship reads and what it calls: the ports of `SponsorServiceDeps`, three of which a
-- deployment may lack, the libraries' functions, and the clocks.
pub record SponsorServiceDeps (W : Type 0) : Type 0 where
  pub chains : ChainRegistry
  pub policies : PolicySource W
  pub options : SponsorServiceOptions
  pub subscriptions :
      Option (SubscriptionServiceOptions × (Text → Result Fault (Option Subscription)))
  pub tenant_balances : Option (ℕ × (ℕ → Text → Result Fault ℕ))
  pub sponsorships : Option (Sponsorship → Result Fault (Unit {0}))
  pub signer : SponsorshipSigner
  pub viem : Viem
  pub hash_typed_data : TypedData → Hex
  pub to_hex : Text → Text
  pub decode_function_data : Hex → Option AccountExecution
  pub now : ℕ
  pub now_ms : ℕ

-- What it writes: the engine's world, two caches, the recorded rows and the outcomes counted.
pub record State (W : Type 0) : Type 0 where
  pub engine : Engine W
  pub subscriptions : Subscription.Cache
  pub balances : Balances
  pub recorded : List Sponsorship
  pub outcomes : List SponsorshipOutcome

-- The request with what is known of it before anything is asked.
pub record Quote (W : Type 0) : Type 0 where
  pub chain : ChainConfig
  pub policy_id : Text
  pub policy : Policy W
  pub user_op : PackedUserOperation
  pub max_cost : ℕ
