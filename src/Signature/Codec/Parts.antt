-- ===== src/Signature/Codec/Parts.antt =====
-- The parts that `encodePaymasterAndData` of backend/src/signature/paymasterAndData.ts joins.
use paymaster.Common.{◌≡◌, refl, Bool, true, Option, some, List, [], ◌∷◌, nat_eq}
use paymaster.Common.Results.{ok, ◌>>=◌, ◌>>◌, guard}
use paymaster.Common.Text.{Text}
use paymaster.Fault.{invalid_paymaster}
use paymaster.Viem.{Viem}
use paymaster.Signature.Codec.{CommonFields, or_hex_error, encode_head}

-- The four numbers of a head, encoded.
pub record Head (v : Viem) (f : CommonFields) : Type 0 where
  pub verification : Text
  pub post_op : Text
  pub until : Text
  pub after : Text
  pub address : v.is_address f.paymaster ≡ true
  pub verification_lem : v.number_to_hex f.paymaster_verification_gas_limit 16 ≡ some verification
  pub post_op_lem : v.number_to_hex f.post_op_gas_limit 16 ≡ some post_op
  pub until_lem : v.number_to_hex f.valid_until 6 ≡ some until
  pub after_lem : v.number_to_hex f.valid_after 6 ≡ some after

module _ {v : Viem} {f : CommonFields} where
  abbrev pub head_list : Head v f → List Text
  head_list h = f.paymaster ∷ h.verification ∷ h.post_op ∷ h.until ∷ h.after ∷ []

  head_of :
      (b : Bool) (oa ob oc od : Option Text) {t : Text}
      → v.is_address f.paymaster ≡ b
      → v.number_to_hex f.paymaster_verification_gas_limit 16 ≡ oa
      → v.number_to_hex f.post_op_gas_limit 16 ≡ ob
      → v.number_to_hex f.valid_until 6 ≡ oc
      → v.number_to_hex f.valid_after 6 ≡ od
      → (do
        guard b invalid_paymaster
        x ← or_hex_error oa
        y ← or_hex_error ob
        z ← or_hex_error oc
        u ← or_hex_error od
        ok (v.concat_hex (f.paymaster ∷ x ∷ y ∷ z ∷ u ∷ [])))
        ≡ ok t
      → (h : Head v f) × (t ≡ v.concat_hex (head_list h))
  head_of true (some a) (some b) (some c) (some d) p q r s u e = (
    record {
      verification = a;
      post_op = b;
      until = c;
      after = d;
      address = p;
      verification_lem = q;
      post_op_lem = r;
      until_lem = s;
      after_lem = u;
    },
    cc,
  )
  head_of _ _ _ _ _ p q r s u e = cc

  pub encode_head-Head :
      {t : Text} → encode_head v f ≡ ok t → (h : Head v f) × (t ≡ v.concat_hex (head_list h))
  unfolding encode_head
  encode_head-Head e = head_of _ _ _ _ _ refl refl refl refl refl e
