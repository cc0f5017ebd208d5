-- ===== src/Policy/Quota/Window.antt =====
-- backend/src/policy/quota/quotaStore.ts: the fixed windows and the counter's key.
use paymaster.Common.{ℕ, ◌+◌, ◌*◌, ◌/◌, ◌≤◌, ◌<◌, ◌≡◌, sym, ◌∙◌, ◌∷◌, ◌++◌, append_assoc, arith}
use paymaster.Common.Text.{
  Text, colon, decimal, decimal_injective, decimal-IsDigit, cut_at_last_colon,
}

unfoldable pub window_start : ℕ → ℕ → ℕ
window_start now window_seconds = now / window_seconds * window_seconds

unfoldable pub window_end : ℕ → ℕ → ℕ
unfolding window_start
window_end now window_seconds = window_start now window_seconds + window_seconds

unfoldable pub windowed_key : Text → ℕ → ℕ → Text
windowed_key key window_seconds now =
    key ++ colon ∷ (decimal window_seconds ++ colon ∷ decimal (window_start now window_seconds))

-- The window that holds `now`: it has begun, it has not ended, and it is aligned to the epoch.
pub window_bounds : (now w : ℕ) → 0 < w → (window_start now w ≤ now) × (now < window_end now w)
unfolding window_end
window_bounds now w h = grind arith

-- Two instants share a window exactly when the later one stands before the earlier one's end.
pub window_start-same :
    (a b w : ℕ) → 0 < w → a ≤ b → b < window_end a w → window_start b w ≡ window_start a w
unfolding window_end
window_start-same a b w h p q = grind arith

-- A counter's key names its key, its window length and its window: nothing else shares the counter.
pub windowed_key_injective :
    (k j : Text) (v w m n : ℕ)
    → windowed_key k v m ≡ windowed_key j w n
    → (k ≡ j) × (v ≡ w) × (window_start m v ≡ window_start n w)
unfolding windowed_key
windowed_key_injective k j v w m n e =
    let (front, start) =
      cut_at_last_colon (k ++ colon ∷ decimal v) (j ++ colon ∷ decimal w)
        (decimal (window_start m v)) (decimal (window_start n w)) (decimal-IsDigit _)
        (decimal-IsDigit _) (append_assoc k _ _ ∙ e ∙ sym (append_assoc j _ _)) in
    let (key, seconds) =
      cut_at_last_colon k j (decimal v) (decimal w) (decimal-IsDigit _) (decimal-IsDigit _) front in
    (key, decimal_injective v w seconds, decimal_injective _ _ start)
