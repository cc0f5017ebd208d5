-- ===== src/Signature/Engine/Binding.antt =====
-- What one signature of backend/src/signature is good for.
use paymaster.Common.{ℕ, ◌≤◌, ◌<◌, ◌≡◌, refl, ap, sym, ◌∙◌, ◌⊎◌}
use paymaster.Common.Results.{ok, >>=-eq-ok}
use paymaster.UserOperation.{Hex, uint48_max}
use paymaster.Viem.{Viem}
use paymaster.Signature.TypedData.{
  Contract, verifying, tenant, tenant_of, TypedData, typed_data, SponsorshipDigestParams,
  sponsorship_digest, paymaster_gas_limits_from,
}

pub record IsUsableWindow (valid_until valid_after : ℕ) : Type 0 where
  pub until_fits : valid_until ≤ uint48_max
  pub after_fits : valid_after ≤ uint48_max
  pub ordered : (valid_until ≡ 0) ⊎ (valid_after < valid_until)

same_contract : (a b : Contract) → tenant_of a ≡ tenant_of b → a ≡ b
same_contract verifying verifying e = refl
same_contract verifying (tenant t) e = cc
same_contract (tenant s) verifying e = cc
same_contract (tenant s) (tenant t) e = cc

-- Two requests for one thing: the same chain, paymaster, tenant and window, and an operation that
-- differs at most in what its account signs later.
pub record SameGrant (v : Viem) (p q : SponsorshipDigestParams) : Type 0 where
  pub chain_id : p.chain_id ≡ q.chain_id
  pub paymaster : p.paymaster ≡ q.paymaster
  pub contract : p.contract ≡ q.contract
  pub sender : p.user_op.sender ≡ q.user_op.sender
  pub nonce : p.user_op.nonce ≡ q.user_op.nonce
  pub init_code : v.keccak256 p.user_op.init_code ≡ v.keccak256 q.user_op.init_code
  pub call_data : v.keccak256 p.user_op.call_data ≡ v.keccak256 q.user_op.call_data
  pub account_gas_limits : p.user_op.account_gas_limits ≡ q.user_op.account_gas_limits
  pub pre_verification_gas : p.user_op.pre_verification_gas ≡ q.user_op.pre_verification_gas
  pub gas_fees : p.user_op.gas_fees ≡ q.user_op.gas_fees
  pub valid_until : p.valid_until ≡ q.valid_until
  pub valid_after : p.valid_after ≡ q.valid_after

typed_data-SameGrant :
    (v : Viem) (p q : SponsorshipDigestParams) (m n : ℕ)
    → typed_data v p m ≡ typed_data v q n
    → SameGrant v p q
typed_data-SameGrant v p q m n e = record {
  chain_id = ap (λ (t : TypedData). t.domain.chain_id) e;
  paymaster = ap (λ (t : TypedData). t.domain.verifying_contract) e;
  contract = same_contract p.contract q.contract (ap (λ (t : TypedData). t.message.tenant) e);
  sender = ap (λ (t : TypedData). t.message.sender) e;
  nonce = ap (λ (t : TypedData). t.message.nonce) e;
  init_code = ap (λ (t : TypedData). t.message.init_code_hash) e;
  call_data = ap (λ (t : TypedData). t.message.call_data_hash) e;
  account_gas_limits = ap (λ (t : TypedData). t.message.account_gas_limits) e;
  pre_verification_gas = ap (λ (t : TypedData). t.message.pre_verification_gas) e;
  gas_fees = ap (λ (t : TypedData). t.message.gas_fees) e;
  valid_until = ap (λ (t : TypedData). t.message.valid_until) e;
  valid_after = ap (λ (t : TypedData). t.message.valid_after) e;
}

module _ (v : Viem) (hash_typed_data : TypedData → Hex) where
  digest-hashed :
      (p : SponsorshipDigestParams) (d : Hex)
      → sponsorship_digest v hash_typed_data p ≡ ok d
      → (m : ℕ) × (hash_typed_data (typed_data v p m) ≡ d)
  unfolding sponsorship_digest
  digest-hashed p d e =
      let (m, _, same) =
        >>=-eq-ok (paymaster_gas_limits_from v p.user_op.paymaster_and_data)
          (λ m. ok (hash_typed_data (typed_data v p m))) e in
      (m, cc)

  -- A digest is good for one grant only: if the hash does not collide on the typed data of the two
  -- requests, then requests with one digest agree on the chain, the paymaster, the tenant, the
  -- window and every field of the operation but its `paymasterAndData` and its account's signature,
  -- the init code and the call data up to their hashes.
  pub digest-SameGrant :
      (p q : SponsorshipDigestParams) (d : Hex)
      → ((m n : ℕ)
          → hash_typed_data (typed_data v p m) ≡ hash_typed_data (typed_data v q n)
          → typed_data v p m ≡ typed_data v q n)
      → sponsorship_digest v hash_typed_data p ≡ ok d
      → sponsorship_digest v hash_typed_data q ≡ ok d
      → SameGrant v p q
  digest-SameGrant p q d apart ep eq =
      let (m, hp) = digest-hashed p d ep in
      let (n, hq) = digest-hashed q d eq in typed_data-SameGrant v p q m n (apart m n (hp ∙ sym hq))
