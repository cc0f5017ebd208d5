-- ===== src/Examples/Bytes.antt =====
-- Stand-ins for viem and for a signer, on texts that are lists of bytes: numbers are written with
-- the least byte first, an address is any twenty bytes, and the hash forgets nothing.
use paymaster.Common.{
  ℕ, zero, suc, ◌+◌, ◌-◌, ◌*◌, ◌/◌, ◌%◌, ◌^◌, ◌<◌, ◌≡◌, refl, ap, sym, ◌∙◌, true, ◌&&◌, Option,
  none, some, List, [], ◌∷◌, ◌++◌, append_assoc, append-nil, length, take, drop, length-append,
  take-append, drop-append, ltb, leb, ◌==◌, nat_eq, if◌then◌else◌, arith,
}
use paymaster.Common.Text.{Text}
use paymaster.Viem.{Viem, ViemLaws, total_size}

unfoldable pub flatten : List Text → Text
flatten [] = []
flatten (t ∷ ts) = t ++ flatten ts

unfoldable pub after_byte : ℕ → Option Text → Option Text
after_byte b none = none
after_byte b (some t) = some (b ∷ t)

unfoldable pub bytes_of : ℕ → ℕ → Option Text
unfolding after_byte
bytes_of n zero = if n == 0 then some [] else none
bytes_of n (suc k) = after_byte (n % 256) (bytes_of (n / 256) k)

unfoldable pub value_of : Text → ℕ
value_of [] = 0
value_of (b ∷ t) = b + 256 * value_of t

abbrev pub part : Text → ℕ → ℕ → Option Text
part t a b = if leb a b && leb b (length t) then some (take (b - a) (drop a t)) else none

abbrev pub part_from : Text → ℕ → Option Text
part_from t a = if ltb a (length t) then some (drop a t) else none

abbrev pub byte_lists : Viem
byte_lists = record {
  size = length;
  concat_hex = flatten;
  slice = part;
  slice_from = part_from;
  number_to_hex = bytes_of;
  hex_to_bigint = value_of;
  is_address = λ a. length a == 20;
  is_hex = λ _. true;
  keccak256 = λ t. t;
}

after-some :
    (b : ℕ) (o : Option Text) (h : Text)
    → after_byte b o ≡ some h
    → (t : Text) × (o ≡ some t) × (h ≡ b ∷ t)
unfolding after_byte
after-some b none h e = cc
after-some b (some t) h e = (t, refl, cc)

size-number : (n k : ℕ) (h : Text) → bytes_of n k ≡ some h → length h ≡ k
unfolding bytes_of
size-number n zero h e = ground arith
size-number n (suc k) h e =
    let (t, p, q) = after-some (n % 256) (bytes_of (n / 256) k) h e in
    rw q (ap suc (size-number (n / 256) k t p))

value-number : (n k : ℕ) (h : Text) → bytes_of n k ≡ some h → value_of h ≡ n
unfolding bytes_of value_of
value-number n zero h e = ground arith
value-number n (suc k) h e =
    let (t, p, q) = after-some (n % 256) (bytes_of (n / 256) k) h e in
    rw q (omega (arith, value-number (n / 256) k t p))

number_fits : (n k : ℕ) → n < 256 ^ k → (h : Text) × (bytes_of n k ≡ some h)
unfolding bytes_of after_byte
number_fits n zero lt = ([], ground arith)
number_fits n (suc k) lt =
    let (t, p) = number_fits (n / 256) k (omega arith) in (n % 256 ∷ t, rw p refl)

size-concat : (hs : List Text) → length (flatten hs) ≡ total_size length hs
unfolding flatten
size-concat [] = refl
size-concat (h ∷ hs) = length-append h (flatten hs) ∙ ap (λ n. length h + n) (size-concat hs)

flatten-append : (hs ks : List Text) → flatten (hs ++ ks) ≡ flatten hs ++ flatten ks
unfolding flatten
flatten-append [] ks = refl
flatten-append (h ∷ hs) ks =
    ap (λ t. h ++ t) (flatten-append hs ks) ∙ sym (append_assoc h (flatten hs) (flatten ks))

concat_append : (hs ks : List Text) → flatten (flatten hs ∷ ks) ≡ flatten (hs ++ ks)
unfolding flatten
concat_append hs ks = sym (flatten-append hs ks)

drop-flatten : (hs ks : List Text) → drop (total_size length hs) (flatten (hs ++ ks)) ≡ flatten ks
drop-flatten hs ks =
    rw (← size-concat hs, flatten-append hs ks) (drop-append (flatten hs) (flatten ks))

slice-concat :
    (hs : List Text) (h : Text) (ks : List Text)
    → part (flatten (hs ++ h ∷ ks)) (total_size length hs) (total_size length hs + length h)
      ≡ some h
slice-concat hs h ks =
    let taken : take (length h) (flatten (h ∷ ks)) ≡ h =
      unfold flatten in take-append h (flatten ks) in
    let size : length (flatten (hs ++ h ∷ ks))
        ≡ total_size length hs + (length h + length (flatten ks)) =
      rw (flatten-append hs (h ∷ ks), length-append (flatten hs) (flatten (h ∷ ks)), size-concat hs)
        (unfold flatten in rw (length-append h (flatten ks)) refl) in
    let tests : (leb (total_size length hs) (total_size length hs + length h)
          && leb (total_size length hs + length h) (length (flatten (hs ++ h ∷ ks))))
        ≡ true =
      ground arith in
    let width : total_size length hs + length h - total_size length hs ≡ length h = omega arith in
    rw (tests, width, drop-flatten hs (h ∷ ks), taken) refl

slice_from-concat :
    (hs : List Text) (h : Text)
    → 0 < length h
    → part_from (flatten (hs ++ h ∷ [])) (total_size length hs) ≡ some h
slice_from-concat hs h pos =
    let size : length (flatten (hs ++ h ∷ [])) ≡ total_size length hs + length h =
      rw (flatten-append hs (h ∷ []), length-append (flatten hs) (flatten (h ∷ [])), size-concat hs)
        (unfold flatten in rw (append-nil h) refl) in
    let test : ltb (total_size length hs) (length (flatten (hs ++ h ∷ []))) ≡ true = ground arith in
    rw (test, drop-flatten hs (h ∷ [])) (unfold flatten in rw (append-nil h) refl)

pub byte_lists_laws : ViemLaws byte_lists
byte_lists_laws = record {
  size-address = λ a h. ground arith;
  is_hex-address = λ a h. refl;
  size-number = size-number;
  is_hex-number = λ n k h e. refl;
  value-number = value-number;
  number_fits = number_fits;
  size-concat = λ hs _. size-concat hs;
  is_hex-concat = λ hs _. refl;
  concat_append = λ hs ks _. concat_append hs ks;
  slice-concat = λ hs h ks _. slice-concat hs h ks;
  slice_from-concat = λ hs h _ pos. slice_from-concat hs h pos;
}

-- `n` equal bytes
abbrev pub bytes : ℕ → ℕ → Text
bytes b zero = []
bytes b (suc n) = b ∷ bytes b n
