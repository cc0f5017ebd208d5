-- ===== src/Billing.antt =====
-- backend/src/billing: what a tenant has paid for, and what that permits.
pub mod Subscription
pub mod Payments
pub mod Verifier
