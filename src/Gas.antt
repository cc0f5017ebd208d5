-- ===== src/Gas.antt =====
-- backend/src/chain/gas.ts: the most that an operation can cost the paymaster's deposit.
use paymaster.Common.{ℕ, ◌+◌, ◌*◌}
use paymaster.UserOperation.{
  Hex, PackedUserOperation, verification_gas_limit, call_gas_limit, max_fee_per_gas,
}

pub record MaxCostParams : Type 0 where
  pub user_op : PackedUserOperation
  pub paymaster_verification_gas_limit : ℕ
  pub post_op_gas_limit : ℕ

unfoldable pub calculate_max_cost : (Hex → ℕ) → MaxCostParams → ℕ
unfolding verification_gas_limit call_gas_limit max_fee_per_gas
calculate_max_cost hex_to_bigint p =
    let required_gas =
      verification_gas_limit hex_to_bigint p.user_op
      + call_gas_limit hex_to_bigint p.user_op
      + p.paymaster_verification_gas_limit
      + p.post_op_gas_limit
      + p.user_op.pre_verification_gas in
    required_gas * max_fee_per_gas hex_to_bigint p.user_op
