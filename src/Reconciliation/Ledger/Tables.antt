-- ===== src/Reconciliation/Ledger/Tables.antt =====
-- backend/src/db/postgresTenantLedgerStore.ts, over its three tables. The transaction of a window is all
-- or nothing; runs in which the database fails are left out.
use paymaster.Common.{
  ℕ, ◌&&◌, Bool, none, some, Option, List, [], ◌∷◌, any, leb, max, map, ◌==◌, list_eq, nat_eq,
  if◌then◌else◌, or_default,
}
use paymaster.Common.Int.{ℤ}
use paymaster.Common.Results.{ok}
use paymaster.Common.JsMap
use paymaster.Common.JsMap.{JsMap}
use paymaster.Common.Text.{Text, to_lower}
use paymaster.Policy.Context.{Exec}
use paymaster.Reconciliation.Ledger.{LedgerKind, TenantLedgerEvent, TenantLedgerStore}

pub record LedgerEntry : Type 0 where
  pub chain_id : ℕ
  pub tenant_key : Text
  pub kind : LedgerKind
  pub delta_wei : ℤ
  pub balance_after_wei : ℕ
  pub block_number : ℕ
  pub log_index : ℕ
  pub tx_hash : Text

pub record LedgerBalance : Type 0 where
  pub balance_wei : ℕ
  pub as_of_block : ℕ

-- The balances of each chain by the tenant's key, as the primary key of the table says.
pub record LedgerTables : Type 0 where
  pub entries : List LedgerEntry
  pub balances : JsMap ℕ (JsMap Text LedgerBalance)
  pub checkpoints : JsMap ℕ ℕ

abbrev pub balances_of : ℕ → LedgerTables → JsMap Text LedgerBalance
balances_of chain_id t = or_default (JsMap.get chain_id t.balances) []

unfoldable pub get_checkpoint : ℕ → Exec LedgerTables (Option ℕ)
get_checkpoint chain_id t = (ok (JsMap.get chain_id t.checkpoints), t)

unfoldable pub balances : ℕ → Exec LedgerTables (JsMap Text ℕ)
balances chain_id t =
    (ok (map (λ (x : Text × LedgerBalance). (x.0, x.1.balance_wei)) (balances_of chain_id t)), t)

abbrev pub entry_of : ℕ → TenantLedgerEvent → LedgerEntry
entry_of chain_id event = record {
  chain_id = chain_id;
  tenant_key = to_lower event.tenant;
  kind = event.kind;
  delta_wei = event.delta_wei;
  balance_after_wei = event.balance_after_wei;
  block_number = event.block_number;
  log_index = event.log_index;
  tx_hash = to_lower event.transaction_hash;
}

abbrev pub same_entry : LedgerEntry → LedgerEntry → Bool
same_entry a b = a.chain_id == b.chain_id && (a.tx_hash == b.tx_hash && a.log_index == b.log_index)

-- `ON CONFLICT (chain_id, tx_hash, log_index) DO NOTHING`
unfoldable pub insert_entry : LedgerEntry → List LedgerEntry → List LedgerEntry
insert_entry e entries = if any (same_entry e) entries then entries else e ∷ entries

unfoldable pub insert_entries : ℕ → List TenantLedgerEvent → List LedgerEntry → List LedgerEntry
unfolding insert_entry
insert_entries chain_id [] entries = entries
insert_entries chain_id (event ∷ events) entries =
    insert_entries chain_id events (insert_entry (entry_of chain_id event) entries)

-- An older window does not write over a newer one.
newer_balance : LedgerBalance → Option LedgerBalance → LedgerBalance
newer_balance b none = b
newer_balance b (some old) = if leb old.as_of_block b.as_of_block then b else old

unfoldable pub upsert_balance : ℕ → Text → ℕ → JsMap Text LedgerBalance → JsMap Text LedgerBalance
unfolding newer_balance
upsert_balance to key balance rows =
    JsMap.put key
      (newer_balance (record { balance_wei = balance; as_of_block = to }) (JsMap.get key rows)) rows

unfoldable pub upsert_balances :
    ℕ → JsMap Text ℕ → JsMap Text LedgerBalance → JsMap Text LedgerBalance
unfolding upsert_balance
upsert_balances to [] rows = rows
upsert_balances to ((key, balance) ∷ reconciled) rows =
    upsert_balances to reconciled (upsert_balance to (to_lower key) balance rows)

unfoldable pub commit_window :
    ℕ → ℕ → List TenantLedgerEvent → JsMap Text ℕ → Exec LedgerTables (Unit {0})
unfolding insert_entries upsert_balances
commit_window chain_id to events reconciled t = (
  ok tt,
  record {
    entries = insert_entries chain_id events t.entries;
    balances =
        JsMap.put chain_id (upsert_balances to reconciled (balances_of chain_id t)) t.balances;
    checkpoints =
        JsMap.put chain_id (max (or_default (JsMap.get chain_id t.checkpoints) to) to)
          t.checkpoints;
  },
)

unfoldable pub postgres_ledger : TenantLedgerStore LedgerTables
unfolding get_checkpoint balances commit_window
postgres_ledger = record {
  get_checkpoint = get_checkpoint;
  balances = balances;
  commit_window = commit_window;
}
