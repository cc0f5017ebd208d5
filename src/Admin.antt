-- ===== src/Admin.antt =====
-- backend/src/api/admin: what an administrator does.
pub mod Keys
pub mod Payments
