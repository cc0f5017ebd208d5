-- ===== src/Reconciliation.antt =====
-- backend/src/reconciliation: what was charged is trued up to what was spent, and the tenants' ledger is
-- checked against the chain.
pub mod Window
pub mod Sponsorships
pub mod Spend
pub mod Ledger
