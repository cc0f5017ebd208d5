-- ===== src/Reconciliation/Sponsorships.antt =====
-- backend/src/db/postgresSpendReconciliationStore.ts, over the rows of the sponsorships and the table of
-- checkpoints. A statement that fails throws and changes nothing; such runs are left out.
pub mod Once
use paymaster.Common.{
  ℕ, ◌+◌, ◌≤◌, ◌<◌, ◌≡◌, refl, Bool, true, false, not, ◌&&◌, Option, none, some, List, [], ◌∷◌,
  ◌++◌, ltb, ◌==◌, list_eq, nat_eq, nat_beq_iff, if◌then◌else◌, or_default, max, arith, Bool-cases,
  Option-cases, inl, inr, map,
}
use paymaster.Common.Results.{ok}
use paymaster.Common.JsMap
use paymaster.Common.JsMap.{JsMap}
use paymaster.Common.Text.{Text, to_lower}
use paymaster.Policy.Context.{Exec}

pub record ClaimParams : Type 0 where
  pub chain_id : ℕ
  pub sender : Text
  pub nonce : ℕ
  pub actual_gas_cost_wei : ℕ
  pub success : Bool

pub record ClaimedReservation : Type 0 where
  pub sponsorship_id : ℕ
  pub tenant_id : Text
  pub policy_id : Text
  pub api_key_id : Text
  pub reserved_max_cost_wei : ℕ
  pub reserved_at : ℕ

-- The port of the reconciler.
pub record SpendReconciliationStore (S : Type 0) : Type 0 where
  pub get_checkpoint : ℕ → Exec S (Option ℕ)
  pub save_checkpoint : ℕ → ℕ → Exec S (Unit {0})
  pub claim : ClaimParams → Exec S (Option ClaimedReservation)

-- A row of the sponsorships, by its primary key `id`; `reconciled` is `reconciled_at IS NOT NULL`.
pub record SponsorshipRow : Type 0 where
  pub id : ℕ
  pub chain_id : ℕ
  pub sender : Text
  pub nonce : ℕ
  pub tenant_id : Text
  pub policy_id : Text
  pub api_key_id : Text
  pub max_cost_wei : ℕ
  pub created_at : ℕ
  pub reconciled : Bool
  pub actual_gas_cost_wei : Option ℕ
  pub on_chain_success : Option Bool

pub record ReconciliationTables : Type 0 where
  pub sponsorships : List SponsorshipRow
  pub checkpoints : JsMap ℕ ℕ

unfoldable pub get_checkpoint : ℕ → Exec ReconciliationTables (Option ℕ)
get_checkpoint chain_id t = (ok (JsMap.get chain_id t.checkpoints), t)

-- `GREATEST`: it never goes back.
unfoldable pub save_checkpoint : ℕ → ℕ → Exec ReconciliationTables (Unit {0})
save_checkpoint chain_id block t = (
  ok tt,
  record t {
    checkpoints =
        JsMap.put chain_id (max (or_default (JsMap.get chain_id t.checkpoints) block) block)
          t.checkpoints;
  },
)

unfoldable pub is_open_for : ClaimParams → SponsorshipRow → Bool
is_open_for p row =
    (row.chain_id == p.chain_id && row.sender == to_lower p.sender)
    && (row.nonce == p.nonce && not row.reconciled)

later_of : SponsorshipRow → Option SponsorshipRow → SponsorshipRow
later_of row none = row
later_of row (some r) = if ltb row.created_at r.created_at then r else row

-- `ORDER BY created_at DESC LIMIT 1` among the open rows of the operation.
unfoldable pub newest_open : ClaimParams → List SponsorshipRow → Option SponsorshipRow
unfolding is_open_for later_of
newest_open p [] = none
newest_open p (row ∷ rows) =
    let rest = newest_open p rows in if is_open_for p row then some (later_of row rest) else rest

unfoldable pub mark_reconciled : ClaimParams → ℕ → SponsorshipRow → SponsorshipRow
mark_reconciled p id row =
    if row.id == id
    then record row {
      reconciled = true;
      actual_gas_cost_wei = some p.actual_gas_cost_wei;
      on_chain_success = some p.success;
    }
    else row

abbrev pub reservation_of : SponsorshipRow → ClaimedReservation
reservation_of row = record {
  sponsorship_id = row.id;
  tenant_id = row.tenant_id;
  policy_id = row.policy_id;
  api_key_id = row.api_key_id;
  reserved_max_cost_wei = row.max_cost_wei;
  reserved_at = row.created_at;
}

unfoldable pub claimed :
    ClaimParams
    → Option SponsorshipRow
    → ReconciliationTables
    → Option ClaimedReservation × ReconciliationTables
unfolding mark_reconciled
claimed p none t = (none, t)
claimed p (some row) t = (
  some (reservation_of row),
  record t { sponsorships = map (mark_reconciled p row.id) t.sponsorships },
)

-- One statement: it marks the row and returns it.
unfoldable pub claim : ClaimParams → Exec ReconciliationTables (Option ClaimedReservation)
unfolding newest_open claimed
claim p t = let (found, after) = claimed p (newest_open p t.sponsorships) t in (ok found, after)

unfoldable pub postgres_store : SpendReconciliationStore ReconciliationTables
unfolding get_checkpoint save_checkpoint claim
postgres_store = record {
  get_checkpoint = get_checkpoint;
  save_checkpoint = save_checkpoint;
  claim = claim;
}
