-- ===== src/Signature/TypedData.antt =====
-- backend/src/signature/typedData.ts: what is hashed and signed. `hashTypedData` of viem is a
-- parameter, as is `keccak256`.
use paymaster.Common.{ℕ, not, ltb, Option, none, some, List}
use paymaster.Common.Results.{Result, ok, ◌>>=◌, ◌>>◌, guard}
use paymaster.Common.Text.{Text, text}
use paymaster.Fault.{Fault, too_short}
use paymaster.UserOperation.{Hex, PackedUserOperation, pack_uint128_pair}
use paymaster.Viem.{Viem}
use paymaster.Signature.Layout.{PaymasterKind, layout_for}
use paymaster.Signature.Codec.{
  or_hex_error, paymaster_validation_gas_offset, paymaster_postop_gas_offset, paymaster_data_offset,
}

-- The contract that an attestation is for, with the tenant exactly where there is one.
pub data Contract : Type 0 where
  verifying : Contract
  tenant : Hex → Contract

abbrev pub kind_of_contract : Contract → PaymasterKind
kind_of_contract verifying = PaymasterKind.verifying
kind_of_contract (tenant t) = PaymasterKind.tenant

abbrev pub tenant_of : Contract → Option Hex
tenant_of verifying = none
tenant_of (tenant t) = some t

pub record Domain : Type 0 where
  pub name : Text
  pub version : Text
  pub chain_id : ℕ
  pub verifying_contract : Text

pub record SponsorshipMessage : Type 0 where
  pub sender : Text
  pub nonce : ℕ
  pub init_code_hash : Hex
  pub call_data_hash : Hex
  pub account_gas_limits : Hex
  pub paymaster_gas_limits : ℕ
  pub pre_verification_gas : ℕ
  pub gas_fees : Hex
  pub valid_until : ℕ
  pub valid_after : ℕ
  pub tenant : Option Hex

-- The argument of `hashTypedData`; its primary type is always `Sponsorship`.
pub record TypedData : Type 0 where
  pub domain : Domain
  pub types : List (Text × Text)
  pub message : SponsorshipMessage

pub record SponsorshipDigestParams : Type 0 where
  pub user_op : PackedUserOperation
  pub chain_id : ℕ
  pub paymaster : Text
  pub valid_until : ℕ
  pub valid_after : ℕ
  pub contract : Contract

abbrev pub sponsorship_domain : ℕ → Text → PaymasterKind → Domain
sponsorship_domain chain_id paymaster kind = record {
  name = (layout_for kind).domain_name;
  version = text "1";
  chain_id = chain_id;
  verifying_contract = paymaster;
}

module _ (v : Viem) where
  unfoldable pub paymaster_gas_limits_from : Hex → Result Fault ℕ
  paymaster_gas_limits_from bytes = do
    guard (not (ltb (v.size bytes) paymaster_data_offset)) too_short
    high ← or_hex_error (v.slice bytes paymaster_validation_gas_offset paymaster_postop_gas_offset)
    low ← or_hex_error (v.slice bytes paymaster_postop_gas_offset paymaster_data_offset)
    pack_uint128_pair (v.hex_to_bigint high) (v.hex_to_bigint low)

  -- What is hashed, for given gas limits.
  abbrev pub typed_data : SponsorshipDigestParams → ℕ → TypedData
  typed_data p paymaster_gas_limits = record {
    domain = sponsorship_domain p.chain_id p.paymaster (kind_of_contract p.contract);
    types = (layout_for (kind_of_contract p.contract)).types;
    message = record {
      sender = p.user_op.sender;
      nonce = p.user_op.nonce;
      init_code_hash = v.keccak256 p.user_op.init_code;
      call_data_hash = v.keccak256 p.user_op.call_data;
      account_gas_limits = p.user_op.account_gas_limits;
      paymaster_gas_limits = paymaster_gas_limits;
      pre_verification_gas = p.user_op.pre_verification_gas;
      gas_fees = p.user_op.gas_fees;
      valid_until = p.valid_until;
      valid_after = p.valid_after;
      tenant = tenant_of p.contract;
    };
  }

  unfoldable pub sponsorship_digest : (TypedData → Hex) → SponsorshipDigestParams → Result Fault Hex
  unfolding paymaster_gas_limits_from
  sponsorship_digest hash_typed_data p = do
    limits ← paymaster_gas_limits_from p.user_op.paymaster_and_data
    ok (hash_typed_data (typed_data p limits))
