-- ===== src/Reconciliation/Window.antt =====
-- The block window that a tick scans: the same lines stand in backend/src/reconciliation/spendReconciler.ts
-- and tenantLedgerReconciler.ts.
use paymaster.Common.{
  ℕ, ◌+◌, ◌-◌, ◌≤◌, ◌<◌, ◌≡◌, Option, none, some, List, ltb, if◌then◌else◌, min, arith,
}

-- `maxBlockRange` is positive, by the environment's schema.
pub record ReconcilerOptions : Type 0 where
  pub confirmations : ℕ
  pub max_block_range : ℕ
  pub initial_lookback_blocks : ℕ
  pub chain_ids : List ℕ

-- Behind the checkpoint, or as far back as the options say.
unfoldable pub scan_from : ReconcilerOptions → ℕ → Option ℕ → ℕ
scan_from o safe_head none = safe_head - o.initial_lookback_blocks
scan_from o safe_head (some checkpoint) = checkpoint + 1

-- `none` where there is nothing to scan.
unfoldable pub next_window : ReconcilerOptions → ℕ → Option ℕ → Option (ℕ × ℕ)
unfolding scan_from
next_window o latest checkpoint =
    if ltb latest o.confirmations
    then none
    else (let safe_head = latest - o.confirmations in
        let from = scan_from o safe_head checkpoint in
        if ltb safe_head from
        then none
        else some (from, min safe_head (from + o.max_block_range - 1)))

-- From a checkpoint that is not past the confirmed head, the window begins right behind it, ends at
-- the confirmed head at the latest, and moves on by the whole range otherwise.
pub next_window-more :
    (o : ReconcilerOptions) (latest checkpoint : ℕ)
    → 0 < o.max_block_range
    → o.confirmations ≤ latest
    → checkpoint < latest - o.confirmations
    → next_window o latest (some checkpoint)
      ≡ some (checkpoint + 1, min (latest - o.confirmations) (checkpoint + o.max_block_range))
unfolding next_window
next_window-more o latest checkpoint range confirmed behind =
    let e : checkpoint + 1 + o.max_block_range - 1 ≡ checkpoint + o.max_block_range = omega arith in
    rw e (ground arith)

pub next_window-done :
    (o : ReconcilerOptions) (latest checkpoint : ℕ)
    → latest - o.confirmations ≤ checkpoint
    → next_window o latest (some checkpoint) ≡ none
unfolding next_window
next_window-done o latest checkpoint done = ground arith
