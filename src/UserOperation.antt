-- ===== src/UserOperation.antt =====
-- backend/src/domain/userOperation.ts: the packed operation and its two-in-one words.
use paymaster.Common.{ℕ, ◌+◌, ◌-◌, ◌*◌, ◌/◌, ◌%◌, ◌^◌, ◌<◌, ◌≡◌, arith, ltb, if◌then◌else◌}
use paymaster.Common.Results.{Result, ok, err}
use paymaster.Common.Text.{Text}
use paymaster.Fault.{Fault, value_out_of_range}

-- A hexadecimal text, `0x…`, as viem's `Hex`.
abbrev pub Hex : Type 0
Hex = Text

pub record PackedUserOperation : Type 0 where
  pub sender : Text
  pub nonce : ℕ
  pub init_code : Hex
  pub call_data : Hex
  pub account_gas_limits : Hex
  pub pre_verification_gas : ℕ
  pub gas_fees : Hex
  pub paymaster_and_data : Hex
  pub signature : Hex

abbrev pub uint128_max : ℕ
uint128_max = 2 ^ 128 - 1

abbrev pub uint48_max : ℕ
uint48_max = 2 ^ 48 - 1

-- The operands are never negative here, so only the upper bounds are tested. The low half fills
-- the low 128 bits, so the source's `|` is a sum.
unfoldable pub pack_uint128_pair : ℕ → ℕ → Result Fault ℕ
pack_uint128_pair h l =
    if ltb uint128_max h
    then err value_out_of_range
    else if ltb uint128_max l
    then err value_out_of_range
    else ok (h * 2 ^ 128 + l)

pub record Pair : Type 0 where
  pub high_half : ℕ
  pub low_half : ℕ

-- `value >> 128n` and `value & UINT128_MAX`.
unfoldable pub unpack_uint128_pair : ℕ → Pair
unpack_uint128_pair value = record { high_half = value / 2 ^ 128; low_half = value % 2 ^ 128 }

-- Packing checks its ranges, and unpacking gives back exactly what was packed.
pub unpack-pack :
    (h l w : ℕ)
    → pack_uint128_pair h l ≡ ok w
    → unpack_uint128_pair w ≡ record { high_half = h; low_half = l }
unfolding pack_uint128_pair unpack_uint128_pair
unpack-pack h l w e = ground arith

-- A pair whose halves fit 128 bits is packed.
pub pack-total :
    (h l : ℕ) → h < 2 ^ 128 → l < 2 ^ 128 → pack_uint128_pair h l ≡ ok (h * 2 ^ 128 + l)
unfolding pack_uint128_pair
pack-total h l a b = ground arith

module _ (hex_to_bigint : Hex → ℕ) where
  unfoldable pub verification_gas_limit : PackedUserOperation → ℕ
  unfolding unpack_uint128_pair
  verification_gas_limit op = (unpack_uint128_pair (hex_to_bigint op.account_gas_limits)).high_half

  unfoldable pub call_gas_limit : PackedUserOperation → ℕ
  unfolding unpack_uint128_pair
  call_gas_limit op = (unpack_uint128_pair (hex_to_bigint op.account_gas_limits)).low_half

  unfoldable pub max_priority_fee_per_gas : PackedUserOperation → ℕ
  unfolding unpack_uint128_pair
  max_priority_fee_per_gas op = (unpack_uint128_pair (hex_to_bigint op.gas_fees)).high_half

  unfoldable pub max_fee_per_gas : PackedUserOperation → ℕ
  unfolding unpack_uint128_pair
  max_fee_per_gas op = (unpack_uint128_pair (hex_to_bigint op.gas_fees)).low_half
