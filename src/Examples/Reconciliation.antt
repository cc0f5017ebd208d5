-- ===== src/Examples/Reconciliation.antt =====
-- Redis with association lists, and ticks of both reconcilers on small tables.
use paymaster.Common.{
  ℕ, ◌+◌, ◌-◌, ◌≤◌, ◌≡◌, ◌↔◌, refl, true, false, none, some, List, [], ◌∷◌, ◌++◌, list_eq, nat_eq,
  or_default, arith,
}
use paymaster.Common.Int.{pos, ◌+ℤ◌}
use paymaster.Common.Results.{ok, err}
use paymaster.Common.JsMap
use paymaster.Common.JsMap.{JsMap}
use paymaster.Common.Text.{Text, text, to_lower}
use paymaster.Policy.Quota.Store.{QuotaConsumeParams}
use paymaster.Policy.Quota.InMemory.{in_memory_store, refund_of}
use paymaster.Policy.Quota.InMemory
use paymaster.Policy.Quota.Redis.{RedisServer}
use paymaster.Policy.Quota.Redis.Refinement.{QuotaCall, consuming, releasing, reading}
use paymaster.Reconciliation.Window.{ReconcilerOptions}
use paymaster.Reconciliation.Sponsorships.{ClaimParams, SponsorshipRow, ReconciliationTables, claim}
use paymaster.Reconciliation.Sponsorships.Once.{
  times, closed_rows_of, rows_of, ids_of, Claiming, empty, recorded, claimed_by, claimed_once,
}
use paymaster.Reconciliation.Spend.{
  UserOpEventSource, UserOperationEventRecord, PolicyLookup, Reconciling,
}
use paymaster.Reconciliation.Spend.Tick.{checkpoint_of}
use paymaster.Reconciliation.Spend.CatchUp.{ticks, ticks-catch_up}
use paymaster.Policy.Context.{Exec}
use paymaster.Reconciliation.Ledger.{
  TenantLedgerEvent, TenantLedgerSource, TenantLedgerStats, Ledger, Solvency, deposit,
  finish_window, solvency_read,
}
use paymaster.Reconciliation.Ledger.Tables.{LedgerTables, postgres_ledger, commit_window}
use paymaster.Reconciliation.Ledger.Drifted.{is_reported, has_drifted, finish_window_lem}

-- Redis, in memory: values, deadlines and a clock.
record Server : Type 0 where
  values : JsMap Text ℕ
  deadlines : JsMap Text ℕ
  seconds : ℕ

abbrev server : RedisServer Server
server = record {
  get = λ r k. JsMap.get k r.values;
  incr_by =
      λ k n r. record r { values = JsMap.put k (or_default (JsMap.get k r.values) 0 + n) r.values };
  decr_by =
      λ k n r. record r { values = JsMap.put k (or_default (JsMap.get k r.values) 0 - n) r.values };
  del = λ k r. record r { values = JsMap.delete k r.values };
  expire_nx = λ k ttl r. record r {
    deadlines = JsMap.put k (or_default (JsMap.get k r.deadlines) (r.seconds + ttl)) r.deadlines;
  };
  expires_at = λ r k. JsMap.get k r.deadlines;
  clock = λ r. r.seconds;
}

abbrev fresh_server : Server
fresh_server = record { values = []; deadlines = []; seconds = 7000 }

abbrev two_of_five : QuotaConsumeParams
two_of_five = record {
  key = text "quota:daily";
  amount = 2;
  limit = 5;
  window_seconds = 3600;
  now = 7250;
}

abbrev some_calls : List QuotaCall
some_calls =
    consuming two_of_five
    ∷ consuming two_of_five
    ∷ consuming two_of_five
    ∷ releasing (refund_of two_of_five)
    ∷ reading (text "quota:daily") 3600 7300
    ∷ []

abbrev a_row : SponsorshipRow
a_row = record {
  id = 7;
  chain_id = 8453;
  sender = text "0xabc";
  nonce = 3;
  tenant_id = text "acme";
  policy_id = text "default";
  api_key_id = text "k1";
  max_cost_wei = 5000000000;
  created_at = 7250;
  reconciled = false;
  actual_gas_cost_wei = none;
  on_chain_success = none;
}

abbrev an_event : UserOperationEventRecord
an_event = record {
  sender = text "0xABC";
  nonce = 3;
  actual_gas_cost_wei = 2000000000;
  success = true;
  block_number = 90;
}

abbrev a_claim : ClaimParams
a_claim = record {
  chain_id = 8453;
  sender = text "0xABC";
  nonce = 3;
  actual_gas_cost_wei = 2000000000;
  success = true;
}

abbrev no_rows : ReconciliationTables
no_rows = record { sponsorships = []; checkpoints = (8453, 80) ∷ [] }

abbrev one_row : ReconciliationTables
one_row = record { sponsorships = a_row ∷ []; checkpoints = (8453, 80) ∷ [] }

abbrev claimed_twice : List ℕ
claimed_twice =
    ids_of (claim a_claim (claim a_claim one_row).1).0 ++ (ids_of (claim a_claim one_row).0 ++ [])

two_claims : Claiming claimed_twice (claim a_claim (claim a_claim one_row).1).1
unfolding rows_of
two_claims =
    claimed_by a_claim
      (claimed_by a_claim (recorded {t = no_rows} a_row refl refl (empty no_rows refl)))

claimed_once_example :
    (times 7 claimed_twice ≤ 1)
    × (times 7 claimed_twice
        ≡ closed_rows_of 7 (claim a_claim (claim a_claim one_row).1).1.sponsorships)
claimed_once_example =
    claimed_once 7 claimed_twice (claim a_claim (claim a_claim one_row).1).1 two_claims

abbrev scanning : ReconcilerOptions
scanning = record {
  confirmations = 5;
  max_block_range = 10;
  initial_lookback_blocks = 50;
  chain_ids = 8453 ∷ [];
}

-- A chain at block 105, with one operation in each scan.
abbrev a_source : UserOpEventSource
a_source = record {
  latest_block = λ chain_id. ok 105;
  get_user_operation_events = λ chain_id from to. ok (an_event ∷ []);
}

abbrev a_start : Reconciling ReconciliationTables InMemory.Counters
a_start = record { store = one_row; quotas = [] }

abbrev no_policies : PolicyLookup
no_policies tenant_id policy_id = none

ticks-catch_up_example :
    checkpoint_of 8453 (ticks a_source in_memory_store no_policies scanning 8453 2 a_start)
    ≡ some (105 - 5)
ticks-catch_up_example =
    ticks-catch_up a_source in_memory_store no_policies scanning 8453 2 105 80 a_start
      (record { head = refl; confirmed = omega arith; logs = λ from to. (an_event ∷ [], refl) })
      (omega arith) (unfold JsMap.get in refl) (omega arith) (omega arith)

abbrev lost_logs : UserOpEventSource
lost_logs = record {
  latest_block = λ chain_id. ok 105;
  get_user_operation_events = λ chain_id from to. err (text "timeout");
}

-- A tenant of the ledger: 100 wei known, 30 deposited, and 120 on the chain.
abbrev a_deposit : TenantLedgerEvent
a_deposit = record {
  kind = deposit;
  tenant = text "0xAA";
  delta_wei = pos 30;
  balance_after_wei = 130;
  block_number = 95;
  log_index = 0;
  transaction_hash = text "0x01";
}

abbrev a_ledger : TenantLedgerSource
a_ledger = record {
  latest_block = λ chain_id. ok 105;
  events = λ chain_id from to. ok (a_deposit ∷ []);
  balance_at = λ chain_id key block. ok 120;
  solvency_at = λ chain_id block. ok (record { total_tenant_balance = 120; deposit = 500 });
}

abbrev a_book : Ledger LedgerTables
a_book = record { store = record { entries = []; balances = []; checkpoints = [] }; alerts = [] }

abbrev checked : Exec (Ledger LedgerTables) TenantLedgerStats
checked =
    finish_window a_ledger postgres_ledger scanning 8453 105 91 100 (a_deposit ∷ [])
      ((text "0xaa", 100) ∷ [])

abbrev reported_stats : TenantLedgerStats
reported_stats = record {
  chain_id = 8453;
  from_block = 91;
  to_block = 100;
  events = 1;
  tenants_checked = 1;
  drifted = record { tenant_key = text "0xaa"; expected_wei = pos 130; actual_wei = 120 } ∷ [];
  seeded = 0;
  solvent = true;
}

checked-ok : checked a_book ≡ (ok reported_stats, (checked a_book).1)
unfolding finish_window postgres_ledger commit_window JsMap.put JsMap.get to_lower ◌+ℤ◌
checked-ok = refl

finish_window_lem_example :
    (is_reported (text "0xaa") reported_stats.drifted
      ≡ has_drifted a_ledger postgres_ledger scanning 8453 105 91 100
          (a_deposit ∷ [])
          ((text "0xaa", 100) ∷ [])
          (text "0xaa"))
    × (sol : Solvency) × (solvency_read
          (a_ledger.solvency_at 8453 100)
          (a_ledger.solvency_at 8453 105)
        ≡ ok sol)
    × ((reported_stats.solvent ≡ true) ↔ (sol.total_tenant_balance ≤ sol.deposit))
finish_window_lem_example =
    finish_window_lem a_ledger postgres_ledger scanning 8453 105 91 100 (a_deposit ∷ [])
      ((text "0xaa", 100) ∷ []) (text "0xaa") a_book (checked a_book).1 reported_stats checked-ok
