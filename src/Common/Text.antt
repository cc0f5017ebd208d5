-- ===== src/Common/Text.antt =====
-- Text as a sequence of code units, and decimal numerals.
use Prim.Native.Char.{code}
use Prim.Native.String.{String}
use Prim.Native.Nat.{ℕ, zero, suc, ◌+◌, ◌-◌, ◌*◌, ◌/◌, ◌%◌, ◌<◌, ◌≤◌}
use mathlib.Core.Path.{◌≡◌, refl, sym, ◌∙◌, ap, subst}
use mathlib.Core.Logic.{◌≢◌, inl, inr}
use mathlib.Core.Bool.{true, false, ◌&&◌}
use mathlib.Core.List.{List, [], ◌∷◌, ◌++◌, map}
use native.Mathlib.Omega.{arith}
use paymaster.Common.Tests.{Bool-cases, leb, ltb, if◌then◌else◌}
use paymaster.Common.Lists.{All}

abbrev pub Text : Type 0
Text = List ℕ

-- A literal's code units (the source's literals are ASCII).
abbrev pub text : String → Text
text String.[] = []
text (String.◌∷◌ c s) = code c ∷ text s

-- `toLowerCase()` on ASCII text, such as a hexadecimal address.
abbrev pub lower_unit : ℕ → ℕ
lower_unit c = if leb b'A' c && leb c b'Z' then c + 32 else c

unfoldable pub to_lower : Text → Text
to_lower = map lower_unit

abbrev pub colon : ℕ
colon = b':'

-- `String(n)` of a natural number; each round divides by ten, so `suc n` rounds are enough.
unfoldable pub decimal_from : ℕ → ℕ → Text
decimal_from zero n = []
decimal_from (suc f) n = elim (ltb n 10) [
  | true ↦ (48 + n) ∷ []
  | false ↦ decimal_from f (n / 10) ++ (48 + n % 10) ∷ []
]

unfoldable pub decimal : ℕ → Text
unfolding decimal_from
decimal n = decimal_from (suc n) n

-- `Number(s)` of a text of digits.
unfoldable pub number_from : ℕ → Text → ℕ
number_from acc [] = acc
number_from acc (c ∷ s) = number_from (acc * 10 + (c - 48)) s

pub number_from-append :
    (acc : ℕ) (s : Text) (c : ℕ) → number_from acc (s ++ c ∷ []) ≡ number_from acc s * 10 + (c - 48)
unfolding number_from
number_from-append acc [] c = refl
number_from-append acc (d ∷ s) c = number_from-append (acc * 10 + (d - 48)) s c

module _ (f n : ℕ) where
  decimal_from-digit : ltb n 10 ≡ true → decimal_from (suc f) n ≡ (48 + n) ∷ []
  unfolding decimal_from
  decimal_from-digit small = ground arith

  decimal_from-digits :
      ltb n 10 ≡ false → decimal_from (suc f) n ≡ decimal_from f (n / 10) ++ (48 + n % 10) ∷ []
  unfolding decimal_from
  decimal_from-digits large = ground arith

number-decimal_from : (f n : ℕ) → n < f → number_from 0 (decimal_from f n) ≡ n
unfolding number_from
number-decimal_from zero n h = elim h [ ]
number-decimal_from (suc f) n h = elim (Bool-cases (ltb n 10)) [
  | inl small ↦ rw (decimal_from-digit f n small) (omega arith)
  | inr large ↦
      rw
        (
          decimal_from-digits f n large,
          number_from-append 0 (decimal_from f (n / 10)) (48 + n % 10),
        )
        (ground (arith, number-decimal_from f (n / 10)))
]

-- A numeral is read back as its number.
pub number-decimal : (n : ℕ) → number_from 0 (decimal n) ≡ n
unfolding decimal
number-decimal n = number-decimal_from (suc n) n (omega arith)

pub decimal_injective : (m n : ℕ) → decimal m ≡ decimal n → m ≡ n
decimal_injective m n e = sym (number-decimal m) ∙ ap (number_from 0) e ∙ number-decimal n

abbrev pub IsDigit : ℕ → Type 0
IsDigit c = (48 ≤ c) × (c ≤ 57)

All-append_one : (s : Text) (c : ℕ) → All IsDigit s → IsDigit c → All IsDigit (s ++ c ∷ [])
All-append_one [] c h d = (d, tt)
All-append_one (x ∷ s) c h d = (h.0, All-append_one s c h.1 d)

decimal_from-IsDigit : (f n : ℕ) → All IsDigit (decimal_from f n)
unfolding decimal_from
decimal_from-IsDigit zero n = tt
decimal_from-IsDigit (suc f) n = elim (Bool-cases (ltb n 10)) [
  | inl small ↦ rw (decimal_from-digit f n small) (ground arith)
  | inr large ↦ rw (decimal_from-digits f n large) (
      All-append_one (decimal_from f (n / 10)) (48 + n % 10) (decimal_from-IsDigit f (n / 10))
        (omega arith))
]

pub decimal-IsDigit : (n : ℕ) → All IsDigit (decimal n)
unfolding decimal
decimal-IsDigit n = decimal_from-IsDigit (suc n) n

tail_eq : {x y : ℕ} {s t : Text} → x ∷ s ≡ y ∷ t → s ≡ t
tail_eq p = cc

-- A text is cut at its last colon in one way.
colon_in : (a d : Text) → All IsDigit (a ++ colon ∷ d) → ⊥
colon_in [] d h = omega arith
colon_in (x ∷ a) d h = colon_in a d h.1

pub cut_at_last_colon :
    (a b d e : Text)
    → All IsDigit d
    → All IsDigit e
    → a ++ colon ∷ d ≡ b ++ colon ∷ e
    → (a ≡ b) × (d ≡ e)
cut_at_last_colon [] [] d e hd he p = (refl, cc)
cut_at_last_colon [] (y ∷ b) d e hd he p =
    absurd (colon_in b e (subst (All IsDigit) (tail_eq p) hd))
cut_at_last_colon (x ∷ a) [] d e hd he p =
    absurd (colon_in a d (subst (All IsDigit) (sym (tail_eq p)) he))
cut_at_last_colon (x ∷ a) (y ∷ b) d e hd he p =
    let (q, r) = cut_at_last_colon a b d e hd he (tail_eq p) in (cc (q, p), r)

-- And at its first occurrence of a unit `s` in one way.
unit_in : (s : ℕ) (a d : Text) → All (λ c. c ≢ s) (a ++ s ∷ d) → ⊥
unit_in s [] d h = h.0 refl
unit_in s (x ∷ a) d h = unit_in s a d h.1

pub cut_at_first :
    (s : ℕ) (a b d e : Text)
    → All (λ c. c ≢ s) a
    → All (λ c. c ≢ s) b
    → a ++ s ∷ d ≡ b ++ s ∷ e
    → (a ≡ b) × (d ≡ e)
cut_at_first s [] [] d e ha hb p = (refl, cc)
cut_at_first s [] (y ∷ b) d e ha hb p = absurd (hb.0 (cc))
cut_at_first s (x ∷ a) [] d e ha hb p = absurd (ha.0 (cc))
cut_at_first s (x ∷ a) (y ∷ b) d e ha hb p =
    let (q, r) = cut_at_first s a b d e ha.1 hb.1 (cc) in (cc (q, p), r)
