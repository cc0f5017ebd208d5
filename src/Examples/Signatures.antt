-- ===== src/Examples/Signatures.antt =====
-- Attestations over byte lists.
use paymaster.Common.{ℕ, zero, suc, ◌/◌, ◌%◌, ◌+◌, ◌*◌, ◌^◌, refl, [], ◌∷◌, ◌++◌}
use paymaster.Common.Results.{ok}
use paymaster.Common.Text.{Text}
use paymaster.UserOperation.{Hex, PackedUserOperation, pack_uint128_pair}
use paymaster.Signature.Codec
use paymaster.Signature.Codec.{CommonFields, PaymasterAndDataFields}
use paymaster.Signature.TypedData.{
  Contract, TypedData, SponsorshipDigestParams, sponsorship_digest, paymaster_gas_limits_from,
}
use paymaster.Signature.Engine.{SponsorshipRequest, SponsorshipAttestation, SponsorshipSigner}
use paymaster.Signature.Engine.Binding.{SameGrant, digest-SameGrant}
use paymaster.Examples.Bytes.{byte_lists, bytes, value_of}

abbrev a_paymaster : Text
a_paymaster = bytes 7 20

abbrev a_tenant : Text
a_tenant = bytes 9 32

abbrev a_signature : Text
a_signature = bytes 1 65

abbrev some_fields : CommonFields
some_fields = record {
  paymaster = a_paymaster;
  paymaster_verification_gas_limit = 300000;
  post_op_gas_limit = 50000;
  valid_until = 7550;
  valid_after = 0;
}

abbrev pub number : ℕ → ℕ → Text
number n zero = []
number n (suc k) = n % 256 ∷ number (n / 256) k

abbrev head_bytes : Text
head_bytes = a_paymaster ++ (number 300000 16 ++ (number 50000 16 ++ (number 7550 6 ++ number 0 6)))

abbrev all_bytes : Text
all_bytes = head_bytes ++ (a_tenant ++ a_signature)

abbrev pub signs_all : SponsorshipSigner
signs_all = record { address = bytes 5 20; sign_digest = λ d. ok (bytes 1 65) }

-- A hash that keeps the gas limits and forgets the rest.
abbrev pub some_hash : TypedData → Hex
some_hash t = t.message.paymaster_gas_limits ∷ []

abbrev an_operation : PackedUserOperation
an_operation = record {
  sender = bytes 3 20;
  nonce = 1;
  init_code = [];
  call_data = [];
  account_gas_limits = [];
  pre_verification_gas = 21000;
  gas_fees = [];
  paymaster_and_data = [];
  signature = [];
}

abbrev a_request : SponsorshipRequest
a_request = record {
  user_op = an_operation;
  chain_id = 8453;
  paymaster = a_paymaster;
  paymaster_verification_gas_limit = 300000;
  post_op_gas_limit = 50000;
  valid_until = 7550;
  valid_after = 0;
  contract = Contract.tenant a_tenant;
}

abbrev an_attestation : SponsorshipAttestation
an_attestation = record {
  paymaster_and_data = all_bytes;
  valid_until = 7550;
  valid_after = 0;
  signer = bytes 5 20;
}

abbrev first_digest : SponsorshipDigestParams
first_digest = record {
  user_op = record an_operation { paymaster_and_data = head_bytes };
  chain_id = 8453;
  paymaster = a_paymaster;
  valid_until = 7550;
  valid_after = 0;
  contract = Contract.tenant a_tenant;
}

-- The same once the account has signed.
abbrev second_digest : SponsorshipDigestParams
second_digest = record first_digest {
  user_op = record an_operation { paymaster_and_data = head_bytes; signature = bytes 4 65 };
}

abbrev the_digest : Hex
the_digest = (300000 * 2 ^ 128 + 50000) ∷ []

digest-SameGrant_example : SameGrant byte_lists first_digest second_digest
digest-SameGrant_example =
    digest-SameGrant byte_lists some_hash first_digest second_digest the_digest (λ m n e. cc)
      (unfold sponsorship_digest paymaster_gas_limits_from pack_uint128_pair value_of in refl)
      (unfold sponsorship_digest paymaster_gas_limits_from pack_uint128_pair value_of in refl)
