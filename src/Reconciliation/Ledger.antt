-- ===== src/Reconciliation/Ledger.antt =====
-- backend/src/reconciliation/tenantLedgerReconciler.ts: the balances of the tenants on the chain are
-- checked against the history that the contract emitted. A critical alert is told by its key; an
-- alerter delivers each alert on its own and does not throw (backend/src/monitoring/alerting.ts).
pub mod Movements
pub mod Tables
pub mod Drifted
use paymaster.Common.{
  ℕ, suc, ◌+◌, ◌-◌, Bool, true, false, not, ◌&&◌, ◌||◌, Option, none, some, List, [], ◌∷◌, ◌++◌,
  ltb, length, any, keep, map, ◌==◌, list_eq, nat_eq, if◌then◌else◌, or_default,
}
use paymaster.Common.Int.{ℤ, pos, ◌+ℤ◌, int_eq}
use paymaster.Common.Results.{Result, ok, err, and_then}
use paymaster.Common.JsMap
use paymaster.Common.JsMap.{JsMap}
use paymaster.Common.Text.{Text, text, colon, decimal, to_lower}
use paymaster.Policy.Context.{Exec}
use paymaster.Reconciliation.Window.{ReconcilerOptions, next_window}

pub data LedgerKind : Type 0 where
  deposit withdrawal charge : LedgerKind

pub record TenantLedgerEvent : Type 0 where
  pub kind : LedgerKind
  pub tenant : Text
  pub delta_wei : ℤ
  pub balance_after_wei : ℕ
  pub block_number : ℕ
  pub log_index : ℕ
  pub transaction_hash : Text

pub record Solvency : Type 0 where
  pub total_tenant_balance : ℕ
  pub deposit : ℕ

-- What the chain answers during a tick.
pub record TenantLedgerSource : Type 0 where
  pub latest_block : ℕ → Result Text ℕ
  pub events : ℕ → ℕ → ℕ → Result Text (List TenantLedgerEvent)
  pub balance_at : ℕ → Text → ℕ → Result Text ℕ
  pub solvency_at : ℕ → ℕ → Result Text Solvency

pub record TenantLedgerStore (S : Type 0) : Type 0 where
  pub get_checkpoint : ℕ → Exec S (Option ℕ)
  pub balances : ℕ → Exec S (JsMap Text ℕ)
  pub commit_window : ℕ → ℕ → List TenantLedgerEvent → JsMap Text ℕ → Exec S (Unit {0})

-- A call of the alerter, by the alert's key.
pub data AlertCall : Type 0 where
  fire resolve : Text → AlertCall

pub record Ledger (S : Type 0) : Type 0 where
  pub store : S
  pub alerts : List AlertCall

abbrev pub on_ledger : {S A : Type 0} → Exec S A → Exec (Ledger S) A
on_ledger f s = let (answer, store) = f s.store in (answer, record s { store = store })

abbrev pub raise_alerts : {S : Type 0} → List AlertCall → Ledger S → Ledger S
raise_alerts calls s = record s { alerts = s.alerts ++ calls }

-- A tenant's net movement in the window, and the balance that the contract last reported.
pub record Movement : Type 0 where
  pub delta : ℤ
  pub last_reported : ℕ

abbrev pub tenant_key_of : TenantLedgerEvent → Text
tenant_key_of event = to_lower event.tenant

unfoldable pub move : TenantLedgerEvent → JsMap Text Movement → JsMap Text Movement
move event movement =
    let entry =
      or_default (JsMap.get (tenant_key_of event) movement)
        (record { delta = pos 0; last_reported = 0 }) in
    JsMap.put (tenant_key_of event)
      (record { delta = entry.delta +ℤ event.delta_wei; last_reported = event.balance_after_wei })
      movement

unfoldable pub movements : List TenantLedgerEvent → JsMap Text Movement → JsMap Text Movement
unfolding move
movements [] movement = movement
movements (event ∷ events) movement = movements events (move event movement)

abbrev pub keys_of : {V : Type 0} → JsMap Text V → List Text
keys_of = map (λ x. x.0)

-- The keys of the set: those that moved, and once caught up the known ones that did not.
unfoldable pub keys_to_check : Bool → JsMap Text Movement → JsMap Text ℕ → List Text
keys_to_check caught_up movement known =
    keys_of movement
    ++ (if caught_up
        then keep (λ key. not (any (λ k. k == key) (keys_of movement))) (keys_of known)
        else [])

pub record Drift : Type 0 where
  pub tenant_key : Text
  pub expected_wei : ℤ
  pub actual_wei : ℕ

-- What the loop over the keys has found.
pub record Findings : Type 0 where
  pub reconciled : JsMap Text ℕ
  pub drifted : List Drift
  pub seeded : ℕ
  pub alerts : List AlertCall

abbrev pub nothing_found : Findings
nothing_found = record { reconciled = []; drifted = []; seeded = 0; alerts = [] }

abbrev pub drift_key : ℕ → Text → Text
drift_key chain_id key = text "tenant-ledger-drift:" ++ decimal chain_id ++ colon ∷ key

-- The balance at the window's end, or else what the contract last reported.
unfoldable pub actual_balance : Result Text ℕ → Option ℕ → Option ℕ
actual_balance (ok balance) last_reported = some balance
actual_balance (err e) last_reported = last_reported

abbrev pub reported_of : Option Movement → Option ℕ
reported_of none = none
reported_of (some m) = some m.last_reported

abbrev pub delta_of : Option Movement → ℤ
delta_of none = pos 0
delta_of (some m) = m.delta

-- A balance that is known is compared; one that is not becomes the baseline.
unfoldable pub compare_balance : ℕ → Text → ℕ → ℤ → Option ℕ → Findings → Findings
compare_balance chain_id key actual delta none f = record f {
  reconciled = JsMap.put key actual f.reconciled;
  seeded = suc f.seeded;
}
compare_balance chain_id key actual delta (some prior) f =
    let expected = pos prior +ℤ delta in
    if expected == pos actual
    then record f {
      reconciled = JsMap.put key actual f.reconciled;
      alerts = f.alerts ++ resolve (drift_key chain_id key) ∷ [];
    }
    else record f {
      reconciled = JsMap.put key actual f.reconciled;
      drifted =
          f.drifted
          ++ record { tenant_key = key; expected_wei = expected; actual_wei = actual } ∷ [];
      alerts = f.alerts ++ fire (drift_key chain_id key) ∷ [];
    }

unfoldable pub check_found : ℕ → Text → Option ℕ → ℤ → Option ℕ → Findings → Findings
unfolding compare_balance
check_found chain_id key none delta prior f = f
check_found chain_id key (some actual) delta prior f =
    compare_balance chain_id key actual delta prior f

pub record TenantLedgerStats : Type 0 where
  pub chain_id : ℕ
  pub from_block : ℕ
  pub to_block : ℕ
  pub events : ℕ
  pub tenants_checked : ℕ
  pub drifted : List Drift
  pub seeded : ℕ
  pub solvent : Bool

abbrev pub solvency_key : ℕ → Text
solvency_key chain_id = text "tenant-solvency:" ++ decimal chain_id

-- The answer at the window's end, or else at the head, where a failure is thrown.
unfoldable pub solvency_read : Result Text Solvency → Result Text Solvency → Result Text Solvency
solvency_read (ok at_block) at_head = ok at_block
solvency_read (err e) at_head = at_head

module _ {S : Type 0} (source : TenantLedgerSource) (store : TenantLedgerStore S)
    (o : ReconcilerOptions) where
  unfoldable pub check_key : ℕ → ℕ → JsMap Text Movement → JsMap Text ℕ → Text → Findings → Findings
  unfolding check_found actual_balance
  check_key chain_id to movement known key =
      let moved = JsMap.get key movement in
      check_found chain_id key
        (actual_balance (source.balance_at chain_id key to) (reported_of moved)) (delta_of moved)
        (JsMap.get key known)

  unfoldable pub check_keys :
      ℕ → ℕ → JsMap Text Movement → JsMap Text ℕ → List Text → Findings → Findings
  unfolding check_key
  check_keys chain_id to movement known [] f = f
  check_keys chain_id to movement known (key ∷ keys) f =
      check_keys chain_id to movement known keys (check_key chain_id to movement known key f)

  unfoldable pub judge_solvency : ℕ → Solvency → Exec (Ledger S) Bool
  judge_solvency chain_id solvency s =
      if ltb solvency.deposit solvency.total_tenant_balance
      then (ok false, raise_alerts (fire (solvency_key chain_id) ∷ []) s)
      else (ok true, raise_alerts (resolve (solvency_key chain_id) ∷ []) s)

  unfoldable pub check_solvency : ℕ → ℕ → ℕ → Exec (Ledger S) Bool
  unfolding judge_solvency solvency_read
  check_solvency chain_id block latest s =
      and_then
        (solvency_read (source.solvency_at chain_id block) (source.solvency_at chain_id latest), s)
        (judge_solvency chain_id)

  -- Behind the reads: alerts are raised as keys are checked, then solvency is, then the window is
  -- committed.
  unfoldable pub finish_window :
      ℕ → ℕ → ℕ → ℕ → List TenantLedgerEvent → JsMap Text ℕ → Exec (Ledger S) TenantLedgerStats
  unfolding movements keys_to_check check_keys check_solvency
  finish_window chain_id latest from to events known s =
      let movement = movements events [] in
      let keys = keys_to_check (to == latest - o.confirmations) movement known in
      let found = check_keys chain_id to movement known keys nothing_found in
      and_then (check_solvency chain_id to latest (raise_alerts found.alerts s)) (λ solvent s'.
        and_then (on_ledger (store.commit_window chain_id to events found.reconciled) s') (λ _ end.
          (
            ok (record {
              chain_id = chain_id;
              from_block = from;
              to_block = to;
              events = length events;
              tenants_checked = length keys;
              drifted = found.drifted;
              seeded = found.seeded;
              solvent = solvent;
            }),
            end,
          )))

  check_window : ℕ → ℕ → Option (ℕ × ℕ) → Exec (Ledger S) (Option TenantLedgerStats)
  unfolding finish_window
  check_window chain_id latest none s = (ok none, s)
  check_window chain_id latest (some (from, to)) s =
      and_then (source.events chain_id from to, s)
        (λ events s'. and_then (on_ledger (store.balances chain_id) s') (λ known s''.
          and_then (finish_window chain_id latest from to events known s'')
            (λ stats end. (ok (some stats), end))))

  unfoldable pub reconcile_chain : ℕ → Exec (Ledger S) (Option TenantLedgerStats)
  unfolding check_window
  reconcile_chain chain_id s =
      and_then (source.latest_block chain_id, s)
        (λ latest s'.
          if ltb latest o.confirmations
          then (ok none, s')
          else and_then (on_ledger (store.get_checkpoint chain_id) s') (λ checkpoint s''.
            check_window chain_id latest (next_window o latest checkpoint) s''))

  gather : Result Text (Option TenantLedgerStats) → List TenantLedgerStats → List TenantLedgerStats
  gather (ok (some stats)) more = stats ∷ more
  gather (ok none) more = more
  gather (err e) more = more

  unfoldable pub reconcile_chains : List ℕ → Ledger S → List TenantLedgerStats × Ledger S
  unfolding gather
  reconcile_chains [] s = ([], s)
  reconcile_chains (chain_id ∷ rest) s =
      let (result, after) = reconcile_chain chain_id s in
      let (more, end) = reconcile_chains rest after in (gather result more, end)

  unfoldable pub reconcile_all : Ledger S → List TenantLedgerStats × Ledger S
  unfolding reconcile_chains
  reconcile_all = reconcile_chains o.chain_ids
