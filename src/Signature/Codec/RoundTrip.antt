-- ===== src/Signature/Codec/RoundTrip.antt =====
-- Decoding what was encoded, for both contracts of backend/src/signature/paymasterAndData.ts.
use paymaster.Common.{
  ℕ, ◌+◌, ◌≡◌, refl, ap, ◌∙◌, Bool, true, false, some, List, [], ◌∷◌, ◌++◌, All, All-append, arith,
  ◌==◌, ◌&&◌, nat_eq,
}
use paymaster.Common.Results.{Result, ok, err, ◌>>=◌, ◌>>◌, guard}
use paymaster.Common.Text.{Text}
use paymaster.Viem.{Viem, ViemLaws, total_size}
use paymaster.Fault.{Fault, invalid_tenant}
use paymaster.Signature.Codec.{
  CommonFields, PaymasterAndDataFields, verifying, tenant, common_of, encode_head,
  encode_paymaster_and_data_prefix,
}
use paymaster.Signature.Codec.Parts.{Head, head_list, encode_head-Head}

module _ {v : Viem} (laws : ViemLaws v) where
  abbrev AllHex : List Text → Type 0
  AllHex = All (λ x. v.is_hex x ≡ true)

  -- A part, by the sizes of what stands before it.
  cut :
      (hs : List Text) (h : Text) (ks : List Text) (s e : ℕ)
      → AllHex (hs ++ h ∷ ks)
      → total_size v.size hs ≡ s
      → s + v.size h ≡ e
      → v.slice (v.concat_hex (hs ++ h ∷ ks)) s e ≡ some h
  cut hs h ks s e hex p q = rw (← q, ← p) (laws.slice-concat hs h ks hex)

module _ {v : Viem} (laws : ViemLaws v) {f : CommonFields} (h : Head v f) where
  is_hex-head : AllHex laws (head_list h)
  is_hex-head = (
    laws.is_hex-address _ h.address,
    (
      laws.is_hex-number _ 16 _ h.verification_lem,
      (
        laws.is_hex-number _ 16 _ h.post_op_lem,
        (laws.is_hex-number _ 6 _ h.until_lem, (laws.is_hex-number _ 6 _ h.after_lem, tt)),
      ),
    ),
  )

  record Sizes : Type 0 where
    paymaster : v.size f.paymaster ≡ 20
    verification : v.size h.verification ≡ 16
    post_op : v.size h.post_op ≡ 16
    until : v.size h.until ≡ 6
    after : v.size h.after ≡ 6

  sizes : Sizes
  sizes = record {
    paymaster = laws.size-address _ h.address;
    verification = laws.size-number _ 16 _ h.verification_lem;
    post_op = laws.size-number _ 16 _ h.post_op_lem;
    until = laws.size-number _ 6 _ h.until_lem;
    after = laws.size-number _ 6 _ h.after_lem;
  }

  module _ (rest : List Text) (hex : AllHex laws rest) where
    abbrev bytes : Text
    bytes = v.concat_hex (head_list h ++ rest)

    all_hex : AllHex laws (head_list h ++ rest)
    all_hex = All-append _ (head_list h) rest is_hex-head hex

    pub slice-verification : v.slice bytes 20 36 ≡ some h.verification
    slice-verification =
        let z = sizes in
        cut laws (f.paymaster ∷ []) h.verification (h.post_op ∷ h.until ∷ h.after ∷ rest) 20 36
          all_hex (omega arith) (omega arith)

    pub slice-post_op : v.slice bytes 36 52 ≡ some h.post_op
    slice-post_op =
        let z = sizes in
        cut laws (f.paymaster ∷ h.verification ∷ []) h.post_op (h.until ∷ h.after ∷ rest) 36 52
          all_hex (omega arith) (omega arith)

tenant_prefix :
    (v : Viem) (head : Result Fault Text) (t : Text) (b : Bool) {p : Text}
    → (v.is_hex t && v.size t == 32) ≡ b
    → (do h ← head; guard b invalid_tenant; ok (v.concat_hex (h ∷ t ∷ []))) ≡ ok p
    → (v.is_hex t ≡ true)
      × (v.size t ≡ 32)
      × ((h : Text) × (head ≡ ok h) × (p ≡ v.concat_hex (h ∷ t ∷ [])))
tenant_prefix v (ok h) t true e q = (ground arith, ground arith, (h, refl, cc))
tenant_prefix v (ok h) t false e q = cc
tenant_prefix v (err x) t b e q = cc

-- A prefix is a head, with the tenant behind it or not.
pub encode_prefix-Head :
    {v : Viem} (laws : ViemLaws v) (fields : PaymasterAndDataFields) (p : Text)
    → encode_paymaster_and_data_prefix v fields ≡ ok p
    → (h : Head v (common_of fields)) × (rest : List Text) × All (λ x. v.is_hex x ≡ true) rest
      × (p ≡ v.concat_hex (head_list h ++ rest))
unfolding encode_paymaster_and_data_prefix
encode_prefix-Head laws (verifying f) p e = let (h, q) = encode_head-Head e in (h, [], tt, q)
encode_prefix-Head {v} laws (tenant f t) p e =
    let (t_hex, t_size, (head, s, p_lem)) = tenant_prefix v (encode_head v f) t _ refl e in
    let (h, q) = encode_head-Head s in
    (
      h,
      t ∷ [],
      (t_hex, tt),
      p_lem
          ∙ ap (λ x. v.concat_hex (x ∷ t ∷ [])) q
          ∙ laws.concat_append (head_list h) (t ∷ []) (is_hex-head laws h),
    )
