-- ===== src/Signature/Codec.antt =====
-- backend/src/signature/paymasterAndData.ts: `paymasterAndData`, byte by byte.
pub mod Parts
pub mod RoundTrip
use paymaster.Common.{
  ℕ, ◌+◌, ◌≡◌, Bool, true, false, not, ◌&&◌, ◌||◌, Option, none, some, List, [], ◌∷◌, ◌++◌, ltb,
  ◌==◌, nat_eq, if◌then◌else◌,
}
use paymaster.Common.Results.{Result, ok, err, ◌>>=◌, ◌>>◌, guard}
use paymaster.Common.Text.{Text, text}
use paymaster.Fault.{
  Fault, invalid_paymaster, invalid_tenant, invalid_signature, too_short, hex_error,
}
use paymaster.UserOperation.{Hex}
use paymaster.Viem.{Viem}
use paymaster.Signature.Layout.{PaymasterKind, layout_for}

abbrev pub paymaster_validation_gas_offset : ℕ
paymaster_validation_gas_offset = 20

abbrev pub paymaster_postop_gas_offset : ℕ
paymaster_postop_gas_offset = 36

abbrev pub paymaster_data_offset : ℕ
paymaster_data_offset = 52

abbrev pub valid_until_offset : ℕ
valid_until_offset = 52

abbrev pub valid_after_offset : ℕ
valid_after_offset = 58

abbrev pub tenant_offset : ℕ
tenant_offset = 64

abbrev pub tenant_signature_offset : ℕ
tenant_signature_offset = 96

pub record CommonFields : Type 0 where
  pub paymaster : Text
  pub paymaster_verification_gas_limit : ℕ
  pub post_op_gas_limit : ℕ
  pub valid_until : ℕ
  pub valid_after : ℕ

-- The tenant is there exactly for the multi-tenant contract.
pub data PaymasterAndDataFields : Type 0 where
  verifying : CommonFields → PaymasterAndDataFields
  tenant : CommonFields → Hex → PaymasterAndDataFields

abbrev pub kind_of : PaymasterAndDataFields → PaymasterKind
kind_of (verifying f) = PaymasterKind.verifying
kind_of (tenant f t) = PaymasterKind.tenant

abbrev pub common_of : PaymasterAndDataFields → CommonFields
common_of (verifying f) = f
common_of (tenant f t) = f

pub record DecodedPaymasterAndData : Type 0 where
  pub fields : PaymasterAndDataFields
  pub signature : Hex

-- A call of viem that threw.
abbrev pub or_hex_error {ℓ} : {A : Type ℓ} → Option A → Result Fault A
or_hex_error none = err hex_error
or_hex_error (some a) = ok a

module _ (v : Viem) where
  unfoldable pub encode_head : CommonFields → Result Fault Hex
  encode_head f = do
    guard (v.is_address f.paymaster) invalid_paymaster
    verification ← or_hex_error (v.number_to_hex f.paymaster_verification_gas_limit 16)
    post_op ← or_hex_error (v.number_to_hex f.post_op_gas_limit 16)
    until ← or_hex_error (v.number_to_hex f.valid_until 6)
    after ← or_hex_error (v.number_to_hex f.valid_after 6)
    ok (v.concat_hex (f.paymaster ∷ verification ∷ post_op ∷ until ∷ after ∷ []))

  unfoldable pub encode_paymaster_and_data_prefix : PaymasterAndDataFields → Result Fault Hex
  unfolding encode_head
  encode_paymaster_and_data_prefix (verifying f) = encode_head f
  encode_paymaster_and_data_prefix (tenant f t) = do
    head ← encode_head f
    guard (v.is_hex t && v.size t == 32) invalid_tenant
    ok (v.concat_hex (head ∷ t ∷ []))

  unfoldable pub encode_paymaster_and_data : PaymasterAndDataFields → Hex → Result Fault Hex
  unfolding encode_paymaster_and_data_prefix
  encode_paymaster_and_data f signature = do
    guard (v.size signature == 64 || v.size signature == 65) invalid_signature
    prefix ← encode_paymaster_and_data_prefix f
    ok (v.concat_hex (prefix ∷ signature ∷ []))

  decode_common : Hex → Result Fault CommonFields
  decode_common bytes = do
    paymaster ← or_hex_error (v.slice bytes 0 paymaster_validation_gas_offset)
    verification ←
        or_hex_error (v.slice bytes paymaster_validation_gas_offset paymaster_postop_gas_offset)
    post_op ← or_hex_error (v.slice bytes paymaster_postop_gas_offset paymaster_data_offset)
    until ← or_hex_error (v.slice bytes valid_until_offset valid_after_offset)
    after ← or_hex_error (v.slice bytes valid_after_offset tenant_offset)
    ok (record {
      paymaster = paymaster;
      paymaster_verification_gas_limit = v.hex_to_bigint verification;
      post_op_gas_limit = v.hex_to_bigint post_op;
      valid_until = v.hex_to_bigint until;
      valid_after = v.hex_to_bigint after;
    })

  decode_signature : Hex → ℕ → Result Fault Hex
  decode_signature bytes offset =
      if v.size bytes == offset then ok (text "0x") else or_hex_error (v.slice_from bytes offset)

  decode_kind : Hex → PaymasterKind → CommonFields → Result Fault PaymasterAndDataFields
  decode_kind bytes PaymasterKind.verifying f = ok (verifying f)
  decode_kind bytes PaymasterKind.tenant f = do
    t ← or_hex_error (v.slice bytes tenant_offset tenant_signature_offset)
    ok (tenant f t)

  unfoldable pub decode_paymaster_and_data :
      Hex → PaymasterKind → Result Fault DecodedPaymasterAndData
  unfolding decode_common decode_signature decode_kind
  decode_paymaster_and_data bytes kind = do
    let offset = (layout_for kind).signature_offset
    guard (not (ltb (v.size bytes) offset)) too_short
    common ← decode_common bytes
    signature ← decode_signature bytes offset
    fields ← decode_kind bytes kind common
    ok (record { fields = fields; signature = signature })
