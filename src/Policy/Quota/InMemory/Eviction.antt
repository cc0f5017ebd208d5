-- ===== src/Policy/Quota/InMemory/Eviction.antt =====
-- backend/src/policy/quota/inMemoryQuotaStore.ts: `evictExpired`, which reads a counter's window back
-- from its key.
use paymaster.Common.{
  ℕ, suc, ◌+◌, ◌≡◌, refl, sym, ap, ◌∙◌, Bool, true, false, ◌&&◌, Option, none, some, [], ◌∷◌, ◌++◌,
  append_assoc, leb, ◌==◌, list_eq, nat_eq, list_beq_iff, if◌then◌else◌, every, All, arith,
}
use paymaster.Common.JsMap
use paymaster.Common.Text.{
  Text, colon, decimal, number_from, number-decimal, decimal-IsDigit, IsDigit,
}
use paymaster.Policy.Quota.Window.{window_start, window_end, windowed_key}
use paymaster.Policy.Quota.InMemory.{Counters, count}

-- The parts of a text before and behind its last colon: `split(":")` from its end.
unfoldable pub split_last : Text → Option (Text × Text)
split_last [] = none
split_last (c ∷ s) = elim (split_last s) [
  | some (front, last) ↦ some (c ∷ front, last)
  | none ↦ if c == colon then some ([], s) else none
]

-- `Number(s)`, where `none` is not a number. Of the texts that are not all digits it takes none; the
-- parts that are read here are numerals, which `windowedKey` wrote.
unfoldable pub number_of : Text → Option ℕ
number_of s = if every (λ c. leb 48 c && leb c 57) s then some (number_from 0 s) else none

-- The window's length stands before the window's start; with one colon only, at the front.
seconds_part : Text → Option (Text × Text) → Text
seconds_part front (some (_, seconds)) = seconds
seconds_part front none = front

ended_by : ℕ → Option ℕ → Option ℕ → Bool
ended_by now (some start) (some seconds) = leb (start + seconds) now
ended_by now _ _ = false

ended_parts : ℕ → Option (Text × Text) → Bool
unfolding number_of seconds_part ended_by
ended_parts now none = false
ended_parts now (some (front, start)) =
    ended_by now (number_of start) (number_of (seconds_part front (split_last front)))

unfoldable pub has_ended : ℕ → Text → Bool
unfolding split_last ended_parts
has_ended now slot = ended_parts now (split_last slot)

-- `evictExpired`, which returns how many it dropped.
unfoldable pub evict_expired : ℕ → Counters → ℕ × Counters
unfolding has_ended
evict_expired now [] = (0, [])
evict_expired now ((slot, v) ∷ c) =
    let (evicted, rest) = evict_expired now c in
    if has_ended now slot then (suc evicted, rest) else (evicted, (slot, v) ∷ rest)

split_last-digits : (s : Text) → All IsDigit s → split_last s ≡ none
unfolding split_last
split_last-digits [] h = refl
split_last-digits (c ∷ s) h = rw (split_last-digits s h.1) (ground arith)

split_last-colon : (a b : Text) → All IsDigit b → split_last (a ++ colon ∷ b) ≡ some (a, b)
unfolding split_last
split_last-colon [] b h = rw (split_last-digits b h) refl
split_last-colon (c ∷ a) b h = rw (split_last-colon a b h) refl

every-digits : (s : Text) → All IsDigit s → every (λ c. leb 48 c && leb c 57) s ≡ true
every-digits [] h = refl
every-digits (c ∷ s) h = rw (every-digits s h.1) (ground arith)

number_of-decimal : (n : ℕ) → number_of (decimal n) ≡ some n
unfolding number_of
number_of-decimal n = rw (every-digits (decimal n) (decimal-IsDigit n)) (ap some (number-decimal n))

-- What is read back from a key is its window.
has_ended-windowed_key :
    (now : ℕ) (k : Text) (w n : ℕ) → has_ended now (windowed_key k w n) ≡ leb (window_end n w) now
unfolding has_ended ended_parts seconds_part ended_by windowed_key window_end
has_ended-windowed_key now k w n =
    ap (ended_parts now) (
      ap split_last (sym (append_assoc k (colon ∷ decimal w) (colon ∷ decimal (window_start n w))))
      ∙ split_last-colon (k ++ colon ∷ decimal w) (decimal (window_start n w)) (decimal-IsDigit _))
    ∙ ap
        (λ parts.
          ended_by now (number_of (decimal (window_start n w)))
            (number_of (seconds_part (k ++ colon ∷ decimal w) parts)))
        (split_last-colon k (decimal w) (decimal-IsDigit w))
    ∙ λ i. ended_by now (number_of-decimal (window_start n w) i) (number_of-decimal w i)

count-evict_expired :
    (now : ℕ) (c : Counters) (j : Text)
    → count (evict_expired now c).1 j ≡ (if has_ended now j then 0 else count c j)
unfolding evict_expired count JsMap.get
count-evict_expired now [] j = ground arith
count-evict_expired now ((slot, v) ∷ c) j =
    ground (arith, list_beq_iff slot j, count-evict_expired now c j)

-- Eviction drops exactly the windows that have ended: every other counter stays as it was.
pub evict_expired_lem :
    (now : ℕ) (c : Counters) (k : Text) (w n : ℕ)
    → count (evict_expired now c).1 (windowed_key k w n)
      ≡ (if leb (window_end n w) now then 0 else count c (windowed_key k w n))
evict_expired_lem now c k w n =
    count-evict_expired now c (windowed_key k w n) ∙ rw (has_ended-windowed_key now k w n) refl
