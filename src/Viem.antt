-- ===== src/Viem.antt =====
-- The functions of the viem library that the backend calls on hexadecimal texts, which are not part
-- of the repository: a parameter, with the documented behaviour that the codec relies on.
use paymaster.Common.{ℕ, ◌+◌, ◌<◌, ◌^◌, ◌≡◌, Bool, true, Option, some, List, [], ◌∷◌, ◌++◌, All}
use paymaster.Common.Text.{Text}

-- `none` is a throw. `slice_from` is `slice` without an end.
pub record Viem : Type 0 where
  pub size : Text → ℕ
  pub concat_hex : List Text → Text
  pub slice : Text → ℕ → ℕ → Option Text
  pub slice_from : Text → ℕ → Option Text
  pub number_to_hex : ℕ → ℕ → Option Text
  pub hex_to_bigint : Text → ℕ
  pub is_address : Text → Bool
  pub is_hex : Text → Bool
  pub keccak256 : Text → Text

module _ (size : Text → ℕ) where
  abbrev pub total_size : List Text → ℕ
  total_size [] = 0
  total_size (h ∷ hs) = size h + total_size hs

pub record ViemLaws (v : Viem) : Type 0 where
  pub size-address : (a : Text) → v.is_address a ≡ true → v.size a ≡ 20
  pub is_hex-address : (a : Text) → v.is_address a ≡ true → v.is_hex a ≡ true
  pub size-number : (n k : ℕ) (h : Text) → v.number_to_hex n k ≡ some h → v.size h ≡ k
  pub is_hex-number : (n k : ℕ) (h : Text) → v.number_to_hex n k ≡ some h → v.is_hex h ≡ true
  pub value-number : (n k : ℕ) (h : Text) → v.number_to_hex n k ≡ some h → v.hex_to_bigint h ≡ n
  pub number_fits : (n k : ℕ) → n < 256 ^ k → (h : Text) × (v.number_to_hex n k ≡ some h)
  pub size-concat :
      (hs : List Text)
      → All (λ h. v.is_hex h ≡ true) hs
      → v.size (v.concat_hex hs) ≡ total_size v.size hs
  pub is_hex-concat :
      (hs : List Text) → All (λ h. v.is_hex h ≡ true) hs → v.is_hex (v.concat_hex hs) ≡ true
  pub concat_append :
      (hs ks : List Text)
      → All (λ h. v.is_hex h ≡ true) hs
      → v.concat_hex (v.concat_hex hs ∷ ks) ≡ v.concat_hex (hs ++ ks)
  -- a part between two others is cut out by its offsets
  pub slice-concat :
      (hs : List Text) (h : Text) (ks : List Text)
      → All (λ h. v.is_hex h ≡ true) (hs ++ h ∷ ks)
      → v.slice
          (v.concat_hex (hs ++ h ∷ ks))
          (total_size v.size hs)
          (total_size v.size hs + v.size h)
        ≡ some h
  -- and the last part by its offset, if there is any of it
  pub slice_from-concat :
      (hs : List Text) (h : Text)
      → All (λ h. v.is_hex h ≡ true) (hs ++ h ∷ [])
      → 0 < v.size h
      → v.slice_from (v.concat_hex (hs ++ h ∷ [])) (total_size v.size hs) ≡ some h
