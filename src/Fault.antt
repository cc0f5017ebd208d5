-- ===== src/Fault.antt =====
-- What the backend throws on the way to a sponsorship, by the class of the error.
use paymaster.Common.Text.{Text}

-- The denial codes of backend/src/policy/context.ts.
pub data PolicyDenialCode : Type 0 where
  chain_disabled sender_not_allowed sender_blocked target_not_allowed : PolicyDenialCode
  method_not_allowed calldata_undecodable quota_exceeded spend_cap_exceeded : PolicyDenialCode
  value_not_allowed token_balance_insufficient tenant_balance_insufficient : PolicyDenialCode
  subscription_lapsed rule_error : PolicyDenialCode

pub data Fault : Type 0 where
  -- UnknownChainError, ChainDisabledError, UnknownPolicyError
  unknown_chain chain_is_disabled unknown_policy : Fault
  -- ValueOutOfRangeError of domain/userOperation.ts
  value_out_of_range : Fault
  -- InvalidPaymasterDataError: the paymaster's address, the tenant, the signature, the length
  invalid_paymaster invalid_tenant invalid_signature too_short : Fault
  -- InvalidSponsorshipRequestError
  invalid_request : Fault
  -- an error of viem: a number that does not fit its field, a slice out of bounds
  hex_error : Fault
  -- SponsorshipDeniedError: the rule and the code
  denied : Text → PolicyDenialCode → Fault
  -- any other error, of the database or of the signer
  failed : Text → Fault
