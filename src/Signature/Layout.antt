-- ===== src/Signature/Layout.antt =====
-- backend/src/signature/paymasterLayout.ts: the differences between the two paymaster contracts.
use paymaster.Common.{ℕ, List, [], ◌∷◌, ◌++◌}
use paymaster.Common.Text.{Text, text}

pub data PaymasterKind : Type 0 where
  verifying tenant : PaymasterKind

-- Each field of the EIP-712 struct with its type.
pub record PaymasterLayout : Type 0 where
  pub kind : PaymasterKind
  pub domain_name : Text
  pub signature_offset : ℕ
  pub types : List (Text × Text)

abbrev pub common_fields : List (Text × Text)
common_fields =
    (text "sender", text "address")
    ∷ (text "nonce", text "uint256")
    ∷ (text "initCodeHash", text "bytes32")
    ∷ (text "callDataHash", text "bytes32")
    ∷ (text "accountGasLimits", text "bytes32")
    ∷ (text "paymasterGasLimits", text "uint256")
    ∷ (text "preVerificationGas", text "uint256")
    ∷ (text "gasFees", text "bytes32")
    ∷ []

abbrev pub window_fields : List (Text × Text)
window_fields = (text "validUntil", text "uint48") ∷ (text "validAfter", text "uint48") ∷ []

abbrev pub verifying_layout : PaymasterLayout
verifying_layout = record {
  kind = verifying;
  domain_name = text "VerifyingPaymaster";
  signature_offset = 64;
  types = common_fields ++ window_fields;
}

abbrev pub tenant_layout : PaymasterLayout
tenant_layout = record {
  kind = tenant;
  domain_name = text "TenantPaymaster";
  signature_offset = 96;
  types = common_fields ++ (text "tenant", text "bytes32") ∷ window_fields;
}

abbrev pub layout_for : PaymasterKind → PaymasterLayout
layout_for verifying = verifying_layout
layout_for tenant = tenant_layout

-- The `bytes32` of a tenant on chain; `to_hex` is viem's `toHex` of a text.
unfoldable pub on_chain_tenant_key : (Text → Text) → (Text → Text) → Text → Text
on_chain_tenant_key keccak256 to_hex tenant_id = keccak256 (to_hex tenant_id)
