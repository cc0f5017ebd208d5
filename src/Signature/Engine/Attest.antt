-- ===== src/Signature/Engine/Attest.antt =====
-- What an attestation of backend/src/signature/signatureEngine.ts says and signs.
use paymaster.Common.{
  ℕ, ◌+◌, ◌*◌, ◌^◌, ◌≡◌, refl, ap, sym, ◌∙◌, Bool, true, not, ltb, nat_eq, arith, List, ◌++◌, All,
}
use paymaster.Common.Results.{Result, ok, ◌>>=◌, ◌>>◌, guard, >>=-eq-ok, guard-eq-ok}
use paymaster.Common.Text.{Text}
use paymaster.Fault.{Fault, too_short, invalid_request}
use paymaster.UserOperation.{Hex, pack_uint128_pair}
use paymaster.Viem.{Viem, ViemLaws}
use paymaster.Signature.Codec.{
  CommonFields, PaymasterAndDataFields, common_of, encode_paymaster_and_data_prefix,
  encode_paymaster_and_data,
}
use paymaster.Signature.Codec.Parts.{Head, head_list}
use paymaster.Signature.Codec.RoundTrip.{encode_prefix-Head, slice-verification, slice-post_op}
use paymaster.Signature.TypedData.{
  Contract, verifying, tenant, TypedData, typed_data, sponsorship_digest, paymaster_gas_limits_from,
}
use paymaster.Signature.Engine.{
  SponsorshipRequest, SponsorshipAttestation, SponsorshipSigner, is_valid_window, fields_of,
  layout_fields, digest_params, attest,
}

module _ {v : Viem} (laws : ViemLaws v) where
  pack-value : (h l : ℕ) {w : ℕ} → pack_uint128_pair h l ≡ ok w → w ≡ h * 2 ^ 128 + l
  unfolding pack_uint128_pair
  pack-value h l e = ground arith

  limits-Head :
      {f : _} (h : Head v f) (rest : List Text) (w : ℕ)
      → All (λ x. v.is_hex x ≡ true) rest
      → paymaster_gas_limits_from v (v.concat_hex (head_list h ++ rest)) ≡ ok w
      → w ≡ f.paymaster_verification_gas_limit * 2 ^ 128 + f.post_op_gas_limit
  unfolding paymaster_gas_limits_from
  limits-Head {f} h rest w hex e =
      pack-value _ _
        (guard-eq-ok (not (ltb (v.size (v.concat_hex (head_list h ++ rest))) 52)) too_short
          (pack_uint128_pair f.paymaster_verification_gas_limit f.post_op_gas_limit)
          (rw
            (
              slice-verification laws h rest hex,
              slice-post_op laws h rest hex,
              laws.value-number _ 16 _ h.verification_lem,
              laws.value-number _ 16 _ h.post_op_lem,
            )
            at e)).1

  -- The gas limits that the digest covers are the two that the bytes carry.
  limits-prefix :
      (fields : PaymasterAndDataFields) (p : Text) (w : ℕ)
      → encode_paymaster_and_data_prefix v fields ≡ ok p
      → paymaster_gas_limits_from v p ≡ ok w
      → w
        ≡ (common_of fields).paymaster_verification_gas_limit * 2 ^ 128
          + (common_of fields).post_op_gas_limit
  limits-prefix fields p w e d =
      let (h, rest, hex, q) = encode_prefix-Head laws fields p e in
      limits-Head h rest w hex (ap (paymaster_gas_limits_from v) (sym q) ∙ d)

module _ {v : Viem} (laws : ViemLaws v) (hash_typed_data : TypedData → Hex)
    (signer : SponsorshipSigner) where
  -- What is known of an attestation that was issued for a request.
  pub record Attested (r : SponsorshipRequest) (a : SponsorshipAttestation) : Type 0 where
    pub signature : Hex
    pub window : is_valid_window r.valid_until r.valid_after ≡ true
    pub signed :
        signer.sign_digest (
          hash_typed_data (
            typed_data v
              (digest_params r r.user_op.paymaster_and_data)
              (r.paymaster_verification_gas_limit * 2 ^ 128 + r.post_op_gas_limit)))
        ≡ ok signature
    pub encoded :
        encode_paymaster_and_data v (layout_fields r.contract (fields_of r)) signature
        ≡ ok a.paymaster_and_data
    pub until : a.valid_until ≡ r.valid_until
    pub after : a.valid_after ≡ r.valid_after
    pub by : a.signer ≡ signer.address

  -- Each step of a chain that returned has returned.
  module _ (b : Bool) (x : Fault) (m : Result Fault Hex) (f g k : Hex → Result Fault Hex)
      (out : Hex → SponsorshipAttestation) where
    attest_steps :
        {a : SponsorshipAttestation}
        → (do guard b x; p ← m; d ← f p; s ← g d; y ← k s; ok (out y)) ≡ ok a
        → (b ≡ true)
          × ((p : Hex) × (m ≡ ok p)
              × ((d : Hex) × (f p ≡ ok d)
                  × ((s : Hex) × (g d ≡ ok s) × ((y : Hex) × (k s ≡ ok y) × (out y ≡ a)))))
    attest_steps e =
        let (valid, e1) = guard-eq-ok b x (do p ← m; d ← f p; s ← g d; y ← k s; ok (out y)) e in
        let (p, ep, e2) = >>=-eq-ok m (λ p. do d ← f p; s ← g d; y ← k s; ok (out y)) e1 in
        let (d, ed, e3) = >>=-eq-ok (f p) (λ d. do s ← g d; y ← k s; ok (out y)) e2 in
        let (s, es, e4) = >>=-eq-ok (g d) (λ s. do y ← k s; ok (out y)) e3 in
        let (y, ey, e5) = >>=-eq-ok (k s) (λ y. ok (out y)) e4 in
        (valid, (p, ep, (d, ed, (s, es, (y, ey, cc)))))

  layout_fields-common : (k : Contract) (f : CommonFields) → common_of (layout_fields k f) ≡ f
  unfolding layout_fields
  layout_fields-common verifying f = refl
  layout_fields-common (tenant t) f = refl

  -- The digest's gas limits, and its other fields, are the request's.
  digest-request :
      (r : SponsorshipRequest) (p d : Text)
      → encode_paymaster_and_data_prefix v (layout_fields r.contract (fields_of r)) ≡ ok p
      → sponsorship_digest v hash_typed_data (digest_params r p) ≡ ok d
      → d
        ≡ hash_typed_data (
            typed_data v
              (digest_params r r.user_op.paymaster_and_data)
              (r.paymaster_verification_gas_limit * 2 ^ 128 + r.post_op_gas_limit))
  unfolding sponsorship_digest digest_params fields_of
  digest-request r p d e h =
      let params = digest_params r p in
      let (w, limits, same) =
        >>=-eq-ok (paymaster_gas_limits_from v p)
          (λ w. ok (hash_typed_data (typed_data v params w))) h in
      let f = layout_fields-common r.contract (fields_of r) in
      let value : w ≡ r.paymaster_verification_gas_limit * 2 ^ 128 + r.post_op_gas_limit =
        limits-prefix laws (layout_fields r.contract (fields_of r)) p w e limits
        ∙ ap
            (λ (c : CommonFields).
              c.paymaster_verification_gas_limit * 2 ^ 128 + c.post_op_gas_limit)
            f in
      let hashed : hash_typed_data (typed_data v params w) ≡ d = cc in
      sym hashed ∙ ap (λ n. hash_typed_data (typed_data v params n)) value

  -- An attestation that is issued has a valid window, its signature is over the request's own fields
  -- (its gas limits are those of the bytes), and those bytes carry the same fields.
  pub attest-Attested :
      (r : SponsorshipRequest) (a : SponsorshipAttestation)
      → attest v hash_typed_data signer r ≡ ok a
      → Attested r a
  unfolding attest
  attest-Attested r a e =
      let fields = layout_fields r.contract (fields_of r) in
      let (window, (p, prefix, (d, digest, (s, signed, (y, bytes, out))))) =
        attest_steps (is_valid_window r.valid_until r.valid_after) invalid_request
          (encode_paymaster_and_data_prefix v fields)
          (λ p. sponsorship_digest v hash_typed_data (digest_params r p)) signer.sign_digest
          (encode_paymaster_and_data v fields)
          (λ y. record {
            paymaster_and_data = y;
            valid_until = r.valid_until;
            valid_after = r.valid_after;
            signer = signer.address;
          })
          e in
      record {
        signature = s;
        window = window;
        signed = ap signer.sign_digest (sym (digest-request r p d prefix digest)) ∙ signed;
        encoded = bytes ∙ ap (λ (x : SponsorshipAttestation). ok x.paymaster_and_data) out;
        until = sym (ap (λ (x : SponsorshipAttestation). x.valid_until) out);
        after = sym (ap (λ (x : SponsorshipAttestation). x.valid_after) out);
        by = sym (ap (λ (x : SponsorshipAttestation). x.signer) out);
      }
