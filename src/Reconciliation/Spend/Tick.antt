-- ===== src/Reconciliation/Spend/Tick.antt =====
-- One tick over the tables in PostgreSQL: what it returns, and where it leaves the checkpoint.
use paymaster.Common.{
  ℕ, ◌≤◌, ◌≡◌, refl, ap, ◌∙◌, false, Option, none, some, List, [], ◌∷◌, ltb, length, nat_eq,
  ==_refl, max, or_default, arith,
}
use paymaster.Common.Results.{Result, ok, and_then-ok}
use paymaster.Common.JsMap
use paymaster.Common.Text.{Text}
use paymaster.Policy.Context.{Exec}
use paymaster.Policy.Quota.Store.{QuotaStore}
use paymaster.Reconciliation.Window.{ReconcilerOptions, next_window}
use paymaster.Reconciliation.Sponsorships.{
  ClaimParams, ClaimedReservation, SponsorshipRow, ReconciliationTables, get_checkpoint,
  save_checkpoint, newest_open, claimed, claim, postgres_store,
}
use paymaster.Reconciliation.Spend.{
  UserOperationEventRecord, UserOpEventSource, PolicyLookup, ReconcileStats, Reconciling, Tally,
  claim_params, settle_claim, settle_events, settle_window, close_window, at_head, scan_window,
  reconcile_chain,
}

claimed-checkpoints :
    (p : ClaimParams) (found : Option SponsorshipRow) (t : ReconciliationTables)
    → (claimed p found t).1.checkpoints ≡ t.checkpoints
unfolding claimed
claimed-checkpoints p none t = refl
claimed-checkpoints p (some row) t = refl

claim-checkpoints :
    (p : ClaimParams) (t : ReconciliationTables) → (claim p t).1.checkpoints ≡ t.checkpoints
unfolding claim
claim-checkpoints p t = claimed-checkpoints p (newest_open p t.sponsorships) t

abbrev pub checkpoint_of : {W : Type 0} → ℕ → Reconciling ReconciliationTables W → Option ℕ
checkpoint_of chain_id s = JsMap.get chain_id s.store.checkpoints

-- What the source answers while the chain's head stands still.
pub record Answers (source : UserOpEventSource) (o : ReconcilerOptions) (chain_id latest : ℕ)
    : Type 0 where
  pub head : source.latest_block chain_id ≡ ok latest
  pub confirmed : o.confirmations ≤ latest
  pub logs :
      (from to : ℕ)
      → (events : List UserOperationEventRecord) × (source.get_user_operation_events chain_id from
            to
          ≡ ok events)

module _ {W : Type 0} (source : UserOpEventSource) (quotas : QuotaStore W) (policies : PolicyLookup)
    (o : ReconcilerOptions) (chain_id : ℕ) where
  abbrev pub settling :
      List UserOperationEventRecord → Tally → Exec (Reconciling ReconciliationTables W) Tally
  settling = settle_events source postgres_store quotas policies o chain_id

  abbrev pub window :
      ℕ
      → ℕ
      → List UserOperationEventRecord
      → Exec (Reconciling ReconciliationTables W) ReconcileStats
  window = settle_window source postgres_store quotas policies o chain_id

  -- One tick of this chain, whose failure is logged.
  abbrev pub tick : Reconciling ReconciliationTables W → Reconciling ReconciliationTables W
  tick s = (reconcile_chain source postgres_store quotas policies o chain_id s).1

  settle_claim-store :
      (event : UserOperationEventRecord) (found : Option ClaimedReservation) (t : Tally)
      (s : Reconciling ReconciliationTables W)
      → (settle_claim source postgres_store quotas policies o chain_id event found t s).1.store
        ≡ s.store
  unfolding settle_claim
  settle_claim-store event none t s = refl
  settle_claim-store event (some claim) t s = refl

  -- The loop over the events returns, and leaves the checkpoints.
  settle-returns :
      (events : List UserOperationEventRecord) (t : Tally) (s : Reconciling ReconciliationTables W)
      → (t' : Tally) × ((settling events t s).0 ≡ ok t')
        × ((settling events t s).1.store.checkpoints ≡ s.store.checkpoints)
  unfolding settle_events postgres_store claim
  settle-returns [] t s = (t, refl, refl)
  settle-returns (event ∷ events) t s =
      let p = claim_params chain_id event in
      let found = newest_open p s.store.sponsorships in
      let (reservation, tables) = claimed p found s.store in
      let next : Reconciling ReconciliationTables W = record s { store = tables } in
      let step =
        settle_claim source postgres_store quotas policies o chain_id event reservation t next in
      let (t', returned, kept) = settle-returns events step.0 step.1 in
      (
        t',
        returned,
        kept
            ∙ ap (λ (x : ReconciliationTables). x.checkpoints)
                (settle_claim-store event reservation t next)
            ∙ claimed-checkpoints p found s.store,
      )

  close : ℕ → ℕ → ℕ → Tally → Exec (Reconciling ReconciliationTables W) ReconcileStats
  close = close_window source postgres_store quotas policies o chain_id

  close-returns :
      (from to n : ℕ) (t : Tally) (s : Reconciling ReconciliationTables W)
      → (stats : ReconcileStats) × ((close from to n t s).0 ≡ ok stats)
        × (checkpoint_of chain_id (close from to n t s).1
            ≡ some (max (or_default (checkpoint_of chain_id s) to) to))
  unfolding close close_window postgres_store save_checkpoint
  close-returns from to n t s = (
    record {
      chain_id = chain_id;
      from_block = from;
      to_block = to;
      events_scanned = n;
      reservations_reconciled = t.reconciled;
      wei_refunded = t.wei;
    },
    refl,
    JsMap.get-put chain_id chain_id (max (or_default (checkpoint_of chain_id s) to) to)
          s.store.checkpoints
        ∙ rw (==_refl chain_id) refl,
  )

  -- A window that is settled moves the checkpoint to its end.
  pub window-returns :
      (from to : ℕ) (events : List UserOperationEventRecord)
      (s : Reconciling ReconciliationTables W)
      → (stats : ReconcileStats) × ((window from to events s).0 ≡ ok stats)
        × (checkpoint_of chain_id (window from to events s).1
            ≡ some (max (or_default (checkpoint_of chain_id s) to) to))
  unfolding settle_window close
  window-returns from to events s =
      let start : Tally = record { reconciled = 0; wei = 0 } in
      let (t, returned, kept) = settle-returns events start s in
      let e : window from to events s
          ≡ close from to (length events) t (settling events start s).1 =
        and_then-ok (settling events start s) (close from to (length events)) t returned in
      let (stats, closed, moved) =
        close-returns from to (length events) t (settling events start s).1 in
      (
        stats,
        ap (λ x. x.0) e ∙ closed,
        ap (λ x. checkpoint_of chain_id x.1) e ∙ moved ∙ λ i.
            some (max (or_default (JsMap.get chain_id (kept i)) to) to),
      )

  abbrev pub scan :
      Option (ℕ × ℕ) → Exec (Reconciling ReconciliationTables W) (Option ReconcileStats)
  unfolding scan_window
  scan = scan_window source postgres_store quotas policies o chain_id

  at_head-scans :
      (latest : ℕ) (s : Reconciling ReconciliationTables W)
      → o.confirmations ≤ latest
      → at_head source postgres_store quotas policies o chain_id latest s
        ≡ scan (next_window o latest (checkpoint_of chain_id s)) s
  unfolding at_head postgres_store get_checkpoint
  at_head-scans latest s confirmed =
      let near : ltb latest o.confirmations ≡ false = ground arith in rw near refl

  pub tick-scans :
      (latest : ℕ) (s : Reconciling ReconciliationTables W)
      → Answers source o chain_id latest
      → tick s ≡ (scan (next_window o latest (checkpoint_of chain_id s)) s).1
  unfolding reconcile_chain
  tick-scans latest s h =
      ap (λ x. x.1)
        (and_then-ok (source.latest_block chain_id, s)
            (at_head source postgres_store quotas policies o chain_id) latest h.head
          ∙ at_head-scans latest s h.confirmed)

  pub scan-moves :
      (latest from to : ℕ) (s : Reconciling ReconciliationTables W)
      → Answers source o chain_id latest
      → checkpoint_of chain_id (scan (some (from, to)) s).1
        ≡ some (max (or_default (checkpoint_of chain_id s) to) to)
  unfolding scan_window
  scan-moves latest from to s h =
      let (events, logs) = h.logs from to in
      let (stats, returned, moved) = window-returns from to events s in
      rw logs (
        ap
          (λ (x : Result Text (Option ReconcileStats) × Reconciling ReconciliationTables W).
            checkpoint_of chain_id x.1)
          (and_then-ok (window from to events s) (λ stats end. (ok (some stats), end)) stats
            returned)
        ∙ moved)
