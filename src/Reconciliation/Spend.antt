-- ===== src/Reconciliation/Spend.antt =====
-- backend/src/reconciliation/spendReconciler.ts: what settled operations really cost is given back to the
-- counters that reserved more.
pub mod Refund
pub mod Tick
pub mod CatchUp
pub mod Failure
use paymaster.Common.{
  ℕ, ◌+◌, ltb, length, Bool, Option, none, some, List, [], ◌∷◌, ◌++◌, if◌then◌else◌,
}
use paymaster.Common.Results.{Result, ok, err, and_then}
use paymaster.Common.Text.{Text}
use paymaster.Policy.Context.{Exec}
use paymaster.Policy.Quota.Store.{QuotaStore}
use paymaster.Policy.Rules.QuotaRule.{QuotaRule, SpendTrueUp, true_up}
use paymaster.Reconciliation.Window.{ReconcilerOptions, next_window}
use paymaster.Reconciliation.Sponsorships.{
  ClaimParams, ClaimedReservation, SpendReconciliationStore,
}

pub record UserOperationEventRecord : Type 0 where
  pub sender : Text
  pub nonce : ℕ
  pub actual_gas_cost_wei : ℕ
  pub success : Bool
  pub block_number : ℕ

-- What the chain answers during a tick.
pub record UserOpEventSource : Type 0 where
  pub latest_block : ℕ → Result Text ℕ
  pub get_user_operation_events : ℕ → ℕ → ℕ → Result Text (List UserOperationEventRecord)

-- A rule of a loaded policy, as `instanceof QuotaRule` tells it.
pub data LoadedRule : Type 0 where
  quota : QuotaRule → LoadedRule
  other : LoadedRule

-- `get`, which throws where the policy is not loaded.
abbrev pub PolicyLookup : Type 0
PolicyLookup = Text → Text → Option (List LoadedRule)

pub record ReconcileStats : Type 0 where
  pub chain_id : ℕ
  pub from_block : ℕ
  pub to_block : ℕ
  pub events_scanned : ℕ
  pub reservations_reconciled : ℕ
  pub wei_refunded : ℕ

-- What a tick writes: the store's state, and the world of the quotas.
pub record Reconciling (S W : Type 0) : Type 0 where
  pub store : S
  pub quotas : W

abbrev pub on_store : {S W A : Type 0} → Exec S A → Exec (Reconciling S W) A
on_store f s = let (answer, store) = f s.store in (answer, record s { store = store })

-- A release that fails drops the rule's refund.
abbrev pub refunded : Result Text ℕ → ℕ
refunded (ok wei) = wei
refunded (err e) = 0

unfoldable pub refund_rules :
    {W : Type 0} → QuotaStore W → List LoadedRule → SpendTrueUp → W → ℕ × W
refund_rules s [] u w = (0, w)
refund_rules s (other ∷ rules) u w = refund_rules s rules u w
refund_rules s (quota r ∷ rules) u w =
    let (wei, after) = true_up s r u w in
    let (more, end) = refund_rules s rules u after in (refunded wei + more, end)

unfoldable pub true_up_of : ℕ → ClaimedReservation → UserOperationEventRecord → SpendTrueUp
true_up_of chain_id claim event = record {
  chain_id = chain_id;
  sender = event.sender;
  api_key_id = some claim.api_key_id;
  reserved_max_cost_wei = claim.reserved_max_cost_wei;
  actual_cost_wei = event.actual_gas_cost_wei;
  reserved_at = claim.reserved_at;
}

refund_loaded : {W : Type 0} → QuotaStore W → Option (List LoadedRule) → SpendTrueUp → W → ℕ × W
unfolding refund_rules
refund_loaded s none u w = (0, w)
refund_loaded s (some rules) u w = refund_rules s rules u w

abbrev pub claim_params : ℕ → UserOperationEventRecord → ClaimParams
claim_params chain_id event = record {
  chain_id = chain_id;
  sender = event.sender;
  nonce = event.nonce;
  actual_gas_cost_wei = event.actual_gas_cost_wei;
  success = event.success;
}

-- How many reservations were reconciled so far, and the wei given back.
pub record Tally : Type 0 where
  pub reconciled : ℕ
  pub wei : ℕ

module _ {S W : Type 0} (source : UserOpEventSource) (store : SpendReconciliationStore S)
    (quotas : QuotaStore W) (policies : PolicyLookup) (o : ReconcilerOptions) where
  unfoldable pub refund : ℕ → ClaimedReservation → UserOperationEventRecord → W → ℕ × W
  unfolding refund_loaded true_up_of
  refund chain_id claim event =
      refund_loaded quotas (policies claim.tenant_id claim.policy_id)
        (true_up_of chain_id claim event)

  settle_claim :
      ℕ
      → UserOperationEventRecord
      → Option ClaimedReservation
      → Tally
      → Reconciling S W
      → Tally × Reconciling S W
  unfolding refund
  settle_claim chain_id event none t s = (t, s)
  settle_claim chain_id event (some claim) t s =
      let (wei, quotas') = refund chain_id claim event s.quotas in
      (record { reconciled = t.reconciled + 1; wei = t.wei + wei }, record s { quotas = quotas' })

  -- The loop over the events: a claim that throws ends it, with what was done before it kept.
  unfoldable pub settle_events :
      ℕ → List UserOperationEventRecord → Tally → Exec (Reconciling S W) Tally
  unfolding settle_claim
  settle_events chain_id [] t s = (ok t, s)
  settle_events chain_id (event ∷ events) t s =
      and_then (on_store (store.claim (claim_params chain_id event)) s) (λ claimed s'.
        let (t', after) = settle_claim chain_id event claimed t s' in
        settle_events chain_id events t' after)

  -- The checkpoint moves behind the window, once that is settled whole.
  unfoldable pub close_window : ℕ → ℕ → ℕ → ℕ → Tally → Exec (Reconciling S W) ReconcileStats
  close_window chain_id from to scanned t s =
      and_then (on_store (store.save_checkpoint chain_id to) s) (λ _ saved. (
        ok (record {
          chain_id = chain_id;
          from_block = from;
          to_block = to;
          events_scanned = scanned;
          reservations_reconciled = t.reconciled;
          wei_refunded = t.wei;
        }),
        saved,
      ))

  unfoldable pub settle_window :
      ℕ → ℕ → ℕ → List UserOperationEventRecord → Exec (Reconciling S W) ReconcileStats
  unfolding settle_events close_window
  settle_window chain_id from to events s =
      and_then (settle_events chain_id events (record { reconciled = 0; wei = 0 }) s)
        (close_window chain_id from to (length events))

  scan_window : ℕ → Option (ℕ × ℕ) → Exec (Reconciling S W) (Option ReconcileStats)
  unfolding settle_window
  scan_window chain_id none s = (ok none, s)
  scan_window chain_id (some (from, to)) s =
      and_then (source.get_user_operation_events chain_id from to, s)
        (λ events s'.
          and_then (settle_window chain_id from to events s') (λ stats end. (ok (some stats), end)))

  -- Where the confirmed head is below zero the checkpoint is not even read.
  unfoldable pub at_head : ℕ → ℕ → Exec (Reconciling S W) (Option ReconcileStats)
  unfolding scan_window
  at_head chain_id latest s =
      if ltb latest o.confirmations
      then (ok none, s)
      else and_then (on_store (store.get_checkpoint chain_id) s)
          (λ checkpoint. scan_window chain_id (next_window o latest checkpoint))

  unfoldable pub reconcile_chain : ℕ → Exec (Reconciling S W) (Option ReconcileStats)
  unfolding at_head
  reconcile_chain chain_id s = and_then (source.latest_block chain_id, s) (at_head chain_id)

  -- A chain that fails is logged, and the rest goes on.
  gather : Result Text (Option ReconcileStats) → List ReconcileStats → List ReconcileStats
  gather (ok (some stats)) more = stats ∷ more
  gather (ok none) more = more
  gather (err e) more = more

  unfoldable pub reconcile_chains : List ℕ → Reconciling S W → List ReconcileStats × Reconciling S W
  unfolding gather
  reconcile_chains [] s = ([], s)
  reconcile_chains (chain_id ∷ rest) s =
      let (result, after) = reconcile_chain chain_id s in
      let (more, end) = reconcile_chains rest after in (gather result more, end)

  unfoldable pub reconcile_all : Reconciling S W → List ReconcileStats × Reconciling S W
  unfolding reconcile_chains
  reconcile_all = reconcile_chains o.chain_ids
