-- ===== src/Signature/Engine.antt =====
-- backend/src/signature/signatureEngine.ts: a decision becomes an attestation. The signer
-- (signer.ts, a port over a key or a KMS) is a parameter that answers a signature or throws.
pub mod Attest
pub mod Binding
use paymaster.Common.{ℕ, ◌≤◌, ◌<◌, ◌≡◌, Bool, true, not, ◌&&◌, ◌||◌, ltb, leb, ◌==◌, nat_eq}
use paymaster.Common.Results.{Result, ok, err, ◌>>=◌, ◌>>◌, guard}
use paymaster.Common.Text.{Text}
use paymaster.Fault.{Fault, invalid_request}
use paymaster.UserOperation.{Hex, PackedUserOperation, uint48_max}
use paymaster.Viem.{Viem}
use paymaster.Signature.Codec.{
  CommonFields, PaymasterAndDataFields, encode_paymaster_and_data, encode_paymaster_and_data_prefix,
}
use paymaster.Signature.Codec
use paymaster.Signature.TypedData.{
  Contract, verifying, tenant, TypedData, SponsorshipDigestParams, sponsorship_digest,
}

pub record SponsorshipRequest : Type 0 where
  pub user_op : PackedUserOperation
  pub chain_id : ℕ
  pub paymaster : Text
  pub paymaster_verification_gas_limit : ℕ
  pub post_op_gas_limit : ℕ
  pub valid_until : ℕ
  pub valid_after : ℕ
  pub contract : Contract

pub record SponsorshipAttestation : Type 0 where
  pub paymaster_and_data : Hex
  pub valid_until : ℕ
  pub valid_after : ℕ
  pub signer : Text

pub record SponsorshipSigner : Type 0 where
  pub address : Text
  pub sign_digest : Hex → Result Fault Hex

-- `#assertValidWindow`, on natural numbers: the tests for an integer and for a sign always pass.
unfoldable pub is_valid_window : ℕ → ℕ → Bool
is_valid_window valid_until valid_after =
    not (ltb uint48_max valid_until)
    && (not (ltb uint48_max valid_after)
        && not (not (valid_until == 0) && leb valid_until valid_after))

unfoldable pub fields_of : SponsorshipRequest → CommonFields
fields_of r = record {
  paymaster = r.paymaster;
  paymaster_verification_gas_limit = r.paymaster_verification_gas_limit;
  post_op_gas_limit = r.post_op_gas_limit;
  valid_until = r.valid_until;
  valid_after = r.valid_after;
}

unfoldable pub layout_fields : Contract → CommonFields → PaymasterAndDataFields
layout_fields verifying f = Codec.verifying f
layout_fields (tenant t) f = Codec.tenant f t

unfoldable pub digest_params : SponsorshipRequest → Hex → SponsorshipDigestParams
digest_params r prefix = record {
  user_op = record r.user_op { paymaster_and_data = prefix };
  chain_id = r.chain_id;
  paymaster = r.paymaster;
  valid_until = r.valid_until;
  valid_after = r.valid_after;
  contract = r.contract;
}

module _ (v : Viem) (hash_typed_data : TypedData → Hex) (signer : SponsorshipSigner) where
  unfoldable pub attest : SponsorshipRequest → Result Fault SponsorshipAttestation
  unfolding is_valid_window fields_of layout_fields digest_params
  attest r = do
    guard (is_valid_window r.valid_until r.valid_after) invalid_request
    let fields = layout_fields r.contract (fields_of r)
    prefix ← encode_paymaster_and_data_prefix v fields
    digest ← sponsorship_digest v hash_typed_data (digest_params r prefix)
    signature ← signer.sign_digest digest
    bytes ← encode_paymaster_and_data v fields signature
    ok (record {
      paymaster_and_data = bytes;
      valid_until = r.valid_until;
      valid_after = r.valid_after;
      signer = signer.address;
    })
