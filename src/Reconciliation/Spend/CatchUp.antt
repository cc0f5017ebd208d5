-- ===== src/Reconciliation/Spend/CatchUp.antt =====
-- The ticks catch up with the chain.
use paymaster.Common.{
  ℕ, zero, suc, ◌+◌, ◌-◌, ◌*◌, ◌≤◌, ◌<◌, ◌≡◌, ap, ◌∙◌, some, ltb, nat_eq, min, arith, Bool-cases,
  inl, inr,
}
use paymaster.Policy.Quota.Store.{QuotaStore}
use paymaster.Reconciliation.Window.{
  ReconcilerOptions, next_window, next_window-more, next_window-done,
}
use paymaster.Reconciliation.Sponsorships.{ReconciliationTables}
use paymaster.Reconciliation.Spend.{UserOpEventSource, PolicyLookup, Reconciling, scan_window}
use paymaster.Reconciliation.Spend.Tick.{scan, tick, checkpoint_of, Answers, tick-scans, scan-moves}

module _ {W : Type 0} (source : UserOpEventSource) (quotas : QuotaStore W) (policies : PolicyLookup)
    (o : ReconcilerOptions) (chain_id : ℕ) where
  tick-behind :
      (latest checkpoint : ℕ) (s : Reconciling ReconciliationTables W)
      → Answers source o chain_id latest
      → 0 < o.max_block_range
      → checkpoint_of chain_id s ≡ some checkpoint
      → checkpoint < latest - o.confirmations
      → checkpoint_of chain_id (tick source quotas policies o chain_id s)
        ≡ some (min (latest - o.confirmations) (checkpoint + o.max_block_range))
  tick-behind latest checkpoint s h range at behind =
      let to = min (latest - o.confirmations) (checkpoint + o.max_block_range) in
      ap (checkpoint_of chain_id) (tick-scans source quotas policies o chain_id latest s h)
      ∙ ap
          (λ c.
            checkpoint_of chain_id
              (scan source quotas policies o chain_id (next_window o latest c) s).1)
          at
      ∙ ap (λ x. checkpoint_of chain_id (scan source quotas policies o chain_id x s).1)
          (next_window-more o latest checkpoint range h.confirmed behind)
      ∙ scan-moves source quotas policies o chain_id latest (checkpoint + 1) to s h
      ∙ rw at (ground arith)

  tick-done :
      (latest checkpoint : ℕ) (s : Reconciling ReconciliationTables W)
      → Answers source o chain_id latest
      → checkpoint_of chain_id s ≡ some checkpoint
      → latest - o.confirmations ≤ checkpoint
      → tick source quotas policies o chain_id s ≡ s
  unfolding scan_window
  tick-done latest checkpoint s h at done =
      tick-scans source quotas policies o chain_id latest s h
      ∙ ap (λ c. (scan source quotas policies o chain_id (next_window o latest c) s).1) at
      ∙ ap (λ x. (scan source quotas policies o chain_id x s).1)
          (next_window-done o latest checkpoint done)

  pub ticks : ℕ → Reconciling ReconciliationTables W → Reconciling ReconciliationTables W
  ticks zero s = s
  ticks (suc n) s = ticks n (tick source quotas policies o chain_id s)

  -- The reconciler catches up: from a checkpoint that is not past the confirmed head, while the head
  -- stands still and the chain answers, as many ticks as the blocks between take ranges set the
  -- checkpoint on the confirmed head.
  pub ticks-catch_up :
      (n latest checkpoint : ℕ) (s : Reconciling ReconciliationTables W)
      → Answers source o chain_id latest
      → 0 < o.max_block_range
      → checkpoint_of chain_id s ≡ some checkpoint
      → checkpoint ≤ latest - o.confirmations
      → latest - o.confirmations ≤ checkpoint + n * o.max_block_range
      → checkpoint_of chain_id (ticks n s) ≡ some (latest - o.confirmations)
  unfolding ticks
  ticks-catch_up zero latest checkpoint s h range at behind near = at ∙ ap some (omega arith)
  ticks-catch_up (suc n) latest checkpoint s h range at behind near =
      elim (Bool-cases (ltb checkpoint (latest - o.confirmations))) [
        | inl less ↦
            let to = min (latest - o.confirmations) (checkpoint + o.max_block_range) in
            ticks-catch_up n latest to (tick source quotas policies o chain_id s) h range
              (tick-behind latest checkpoint s h range at (ground arith)) (omega arith)
              (grind arith)
        | inr reached ↦
            ticks-catch_up n latest checkpoint (tick source quotas policies o chain_id s) h range
              (ap (checkpoint_of chain_id) (tick-done latest checkpoint s h at (ground arith)) ∙ at)
              behind (ground arith)
      ]
