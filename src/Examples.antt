-- ===== src/Examples.antt =====
-- Runs of the models at concrete inputs, where the theorems' conditions hold.
mod Bytes
mod Numbers
mod Quotas
mod Policies
mod Signatures
mod Payments
mod Sponsorships
mod Services
mod Security
mod Access
mod Reconciliation
mod Rules
mod Sessions
mod Administration
mod Claims
