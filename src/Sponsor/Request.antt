-- ===== src/Sponsor/Request.antt =====
-- backend/src/api/dto/sponsorRequest.ts: the request on the wire, what its schema accepts of it, and
-- its packing.
use paymaster.Common.{
  ℕ, ◌+◌, ◌*◌, ◌^◌, ◌/◌, ◌%◌, ◌<◌, ◌≡◌, refl, Bool, true, false, ◌&&◌, Option, none, some, [], ◌++◌,
  drop, leb, or_default, arith,
}
use paymaster.Common.Results.{Result, ok, ◌>>=◌}
use paymaster.Common.Text.{Text, text}
use paymaster.Fault.{Fault}
use paymaster.UserOperation.{
  Hex, PackedUserOperation, pack_uint128_pair, unpack_uint128_pair, uint128_max,
  verification_gas_limit, call_gas_limit, max_fee_per_gas, pack-total,
}
use paymaster.Viem.{Viem, ViemLaws}
use paymaster.Signature.Codec.{or_hex_error}
use paymaster.Gas.{calculate_max_cost}

pub record UnpackedUserOperation : Type 0 where
  pub sender : Text
  pub nonce : ℕ
  pub factory : Option Text
  pub factory_data : Option Hex
  pub call_data : Hex
  pub call_gas_limit : ℕ
  pub verification_gas_limit : ℕ
  pub pre_verification_gas : ℕ
  pub max_fee_per_gas : ℕ
  pub max_priority_fee_per_gas : ℕ
  pub signature : Option Hex

pub record SponsorRequest : Type 0 where
  pub chain_id : ℕ
  pub user_operation : UnpackedUserOperation
  pub policy_id : Option Text

abbrev is_given : Option Text → Bool
is_given none = false
is_given (some _) = true

abbrev same_bool : Bool → Bool → Bool
same_bool true b = b
same_bool false true = false
same_bool false false = true

-- What the schema tests of the numbers and of the deployment fields, once the texts are parsed.
unfoldable pub meets_schema : UnpackedUserOperation → Bool
meets_schema op =
    leb op.call_gas_limit uint128_max
    && (leb op.verification_gas_limit uint128_max
        && (leb op.max_fee_per_gas uint128_max
            && (leb op.max_priority_fee_per_gas uint128_max
                && (same_bool (is_given op.factory) (is_given op.factory_data)
                    && leb op.max_priority_fee_per_gas op.max_fee_per_gas))))

-- `factoryData!` is there whenever `factory` is, by the schema.
unfoldable pub init_code_of : Option Text → Option Hex → Hex
init_code_of none factory_data = text "0x"
init_code_of (some factory) factory_data = factory ++ drop 2 (or_default factory_data [])

schema-bounds :
    (op : UnpackedUserOperation)
    → meets_schema op ≡ true
    → (op.verification_gas_limit < 2 ^ 128)
      × (op.call_gas_limit < 2 ^ 128)
      × (op.max_priority_fee_per_gas < 2 ^ 128)
      × (op.max_fee_per_gas < 2 ^ 128)
unfolding meets_schema
schema-bounds op h = ground arith

module _ (v : Viem) where
  -- `toHex(packUint128Pair(…), {size: 32})`
  unfoldable pub packed_word : ℕ → ℕ → Result Fault Hex
  packed_word high low = do
    word ← pack_uint128_pair high low
    or_hex_error (v.number_to_hex word 32)

  unfoldable pub to_packed_user_operation : UnpackedUserOperation → Result Fault PackedUserOperation
  unfolding packed_word init_code_of
  to_packed_user_operation op = do
    account_gas_limits ← packed_word op.verification_gas_limit op.call_gas_limit
    gas_fees ← packed_word op.max_priority_fee_per_gas op.max_fee_per_gas
    ok (record {
      sender = op.sender;
      nonce = op.nonce;
      init_code = init_code_of op.factory op.factory_data;
      call_data = op.call_data;
      account_gas_limits = account_gas_limits;
      pre_verification_gas = op.pre_verification_gas;
      gas_fees = gas_fees;
      paymaster_and_data = text "0x";
      signature = or_default op.signature (text "0x");
    })

  module _ (laws : ViemLaws v) where
    packed_word-some :
        (h l : ℕ)
        → h < 2 ^ 128
        → l < 2 ^ 128
        → (w : Hex) × (packed_word h l ≡ ok w) × (v.hex_to_bigint w ≡ h * 2 ^ 128 + l)
    unfolding packed_word
    packed_word-some h l p q =
        let (w, e) = laws.number_fits (h * 2 ^ 128 + l) 32 (omega arith) in
        (w, rw (pack-total h l p q, e) refl, laws.value-number (h * 2 ^ 128 + l) 32 w e)

    abbrev packed_of : UnpackedUserOperation → Hex → Hex → PackedUserOperation
    packed_of op account_gas_limits gas_fees = record {
      sender = op.sender;
      nonce = op.nonce;
      init_code = init_code_of op.factory op.factory_data;
      call_data = op.call_data;
      account_gas_limits = account_gas_limits;
      pre_verification_gas = op.pre_verification_gas;
      gas_fees = gas_fees;
      paymaster_and_data = text "0x";
      signature = or_default op.signature (text "0x");
    }

    -- A request that meets the schema is packed, and the price of what was packed is the price of
    -- what was asked for: all its gas limits and those of the paymaster, at its maximum fee.
    pub packed_cost :
        (op : UnpackedUserOperation) (verification post_op : ℕ)
        → meets_schema op ≡ true
        → (packed : PackedUserOperation) × (to_packed_user_operation op ≡ ok packed)
          × (calculate_max_cost v.hex_to_bigint (record {
            user_op = packed;
            paymaster_verification_gas_limit = verification;
            post_op_gas_limit = post_op;
          })
              ≡ (op.verification_gas_limit + op.call_gas_limit + verification + post_op
                  + op.pre_verification_gas)
                * op.max_fee_per_gas)
    unfolding to_packed_user_operation calculate_max_cost verification_gas_limit call_gas_limit
        max_fee_per_gas unpack_uint128_pair
    packed_cost op verification post_op h =
        let (vb, cb, pb, fb) = schema-bounds op h in
        let (a, a_lem, a_value) =
          packed_word-some op.verification_gas_limit op.call_gas_limit vb cb in
        let (f, f_lem, f_value) =
          packed_word-some op.max_priority_fee_per_gas op.max_fee_per_gas pb fb in
        let high : v.hex_to_bigint a / 2 ^ 128 ≡ op.verification_gas_limit = omega arith in
        let low : v.hex_to_bigint a % 2 ^ 128 ≡ op.call_gas_limit = omega arith in
        let fee : v.hex_to_bigint f % 2 ^ 128 ≡ op.max_fee_per_gas = omega arith in
        (packed_of op a f, rw (a_lem, f_lem) refl, rw (high, low, fee) refl)
